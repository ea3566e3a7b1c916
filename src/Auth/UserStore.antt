-- ===== src/Auth/UserStore.antt =====
-- store.go and controller.go: the users that the authenticators ask, and how they follow the users
-- of the configuration. Each method holds the store's mutex.
pub mod Laws
pub mod Controller
use onvif_simulator.Prelude.{
  Bool, true, false, Option, none, some, String, List, [], ◌∷◌, map, if◌then◌else◌, str_eq,
}
use onvif_simulator.Prelude.Dict.{Dict, lookup, insert, delete}
use onvif_simulator.Config.Types.{Config, UserConfig}
use onvif_simulator.Config.Platform.{Platform}
use onvif_simulator.Config.Update.{upsert_user, remove_user, set_auth_enabled}
use onvif_simulator.Config.Store.{Codec, Faults, Files, StoreError, update}

pub record UserRecord : Type 0 where
  pub username : String
  pub password : String
  pub roles : List String

-- MutableUserStore. A copied record is the record.
abbrev pub UserStore : Type 0
UserStore = Dict UserRecord

unfoldable pub fill : UserStore → List UserRecord → UserStore
unfolding insert
fill s [] = s
fill s (r ∷ rs) = fill (insert r.username r s) rs

unfoldable pub new_user_store : List UserRecord → UserStore
unfolding fill
new_user_store initial = fill [] initial

-- `none` is ErrUnknownUser.
unfoldable pub find_user : String → UserStore → Option UserRecord
unfolding lookup
find_user name s = lookup name s

unfoldable pub set_user : UserRecord → UserStore → UserStore
unfolding insert
set_user r s = insert r.username r s

unfoldable pub drop_user : String → UserStore → UserStore
unfolding delete
drop_user name s = delete name s

unfoldable pub replace_users : List UserRecord → UserStore → UserStore
unfolding fill
replace_users rs s = fill [] rs

unfoldable pub role_to_onvif : String → String
role_to_onvif role =
    if str_eq role "Administrator"
    then "onvif:Administrator"
    else if str_eq role "Operator"
    then "onvif:Operator"
    else if str_eq role "User"
    then "onvif:User"
    else role

unfoldable pub record_from_config : UserConfig → UserRecord
unfolding role_to_onvif
record_from_config u = record {
  username = u.username;
  password = u.password;
  roles = role_to_onvif u.role ∷ [];
}

unfoldable pub user_records_from_config : List UserConfig → List UserRecord
unfolding record_from_config
user_records_from_config = map record_from_config

-- A nil configuration is `none`.
unfoldable pub sync_from_config : Option Config → UserStore → UserStore
unfolding replace_users user_records_from_config
sync_from_config none s = replace_users [] s
sync_from_config (some c) s = replace_users (user_records_from_config c.auth.users) s

-- What the controller does to its store behind a change of the file that went well or did not.
unfoldable pub after_update :
    {Bytes : Type 0}
    → Files Bytes × Option StoreError
    → (UserStore → UserStore)
    → UserStore
    → Files Bytes × UserStore × Option StoreError
after_update (f, some e) g s = (f, s, some e)
after_update (f, none) g s = (f, g s, none)

module _ {Bytes : Type 0} (go : Platform) (json : Codec Bytes) where
  unfoldable pub controller_upsert_user :
      Faults Bytes
      → UserConfig
      → Files Bytes
      → UserStore
      → Files Bytes × UserStore × Option StoreError
  unfolding update upsert_user set_user record_from_config
  controller_upsert_user os u f s =
      after_update (update go json os (some (upsert_user u)) f) (set_user (record_from_config u)) s

  unfoldable pub controller_remove_user :
      Faults Bytes → String → Files Bytes → UserStore → Files Bytes × UserStore × Option StoreError
  unfolding update remove_user drop_user
  controller_remove_user os name f s =
      after_update (update go json os (some (remove_user name)) f) (drop_user name) s

  unfoldable pub controller_set_auth_enabled :
      Faults Bytes → Bool → Files Bytes → UserStore → Files Bytes × UserStore × Option StoreError
  unfolding update set_auth_enabled
  controller_set_auth_enabled os b f s =
      after_update (update go json os (some (set_auth_enabled b)) f) (λ t. t) s

-- The three methods of the controller that change the configuration.
pub data UserChange : Type 0 where
  upsert : UserConfig → UserChange
  remove : String → UserChange
  toggle : Bool → UserChange

unfoldable pub controller_call :
    {Bytes : Type 0}
    → Platform
    → Codec Bytes
    → Faults Bytes
    → UserChange
    → Files Bytes
    → UserStore
    → Files Bytes × UserStore × Option StoreError
unfolding controller_upsert_user controller_remove_user controller_set_auth_enabled
controller_call go json os (upsert u) f s = controller_upsert_user go json os u f s
controller_call go json os (remove name) f s = controller_remove_user go json os name f s
controller_call go json os (toggle b) f s = controller_set_auth_enabled go json os b f s
