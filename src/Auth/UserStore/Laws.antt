-- ===== src/Auth/UserStore/Laws.antt =====
-- The live store and the users of the configuration stay in step.
use onvif_simulator.Prelude.{
  true, false, Option, none, some, String, List, [], ◌∷◌, ◌++◌, map, ite, str_dec, str_eq, mem_str,
  if◌then◌else◌, ◌≡◌, refl, sym, ap, ◌∙◌, arith,
}
use onvif_simulator.Prelude.Dict.{lookup, insert}
use onvif_simulator.Prelude.Dict.Lookups.{lookup-insert, lookup-delete}
use onvif_simulator.Config.Types.{Config, UserConfig}
use onvif_simulator.Config.Update.{user_key}
use onvif_simulator.Config.Update.Keyed.{has_key, without_key, modify_first}
use onvif_simulator.Config.Validate.Uniqueness.{IsDistinct}
use onvif_simulator.Auth.UserStore.{
  UserRecord, UserStore, fill, find_user, set_user, drop_user, record_from_config, sync_from_config,
}

-- The record that the configuration gives a name: that of the first user of this name.
unfoldable pub configured : String → List UserConfig → Option UserRecord
unfolding record_from_config
configured name [] = none
configured name (u ∷ us) =
    let rest = configured name us in
    if str_eq u.username name then some (record_from_config u) else rest

-- The store answers for every name what the configuration says.
unfoldable pub IsMirror : UserStore → List UserConfig → Type 0
IsMirror s us = (name : String) → find_user name s ≡ configured name us

or_else : {A : Type 0} → Option A → Option A → Option A
or_else none b = b
or_else (some a) b = some a

configured-missing :
    (name : String) (us : List UserConfig)
    → mem_str name (map user_key us) ≡ false
    → configured name us ≡ none
unfolding configured mem_str
configured-missing name [] h = refl
configured-missing name (u ∷ us) h = ground (arith, h, configured-missing name us)

-- Filling answers with what was given last; without repeated names that is the only one.
find-fill :
    (us : List UserConfig) (s : UserStore)
    → IsDistinct (map user_key us)
    → (name : String)
    → lookup name (fill s (map record_from_config us))
      ≡ or_else (configured name us) (lookup name s)
unfolding fill IsDistinct configured or_else record_from_config
find-fill [] s d name = refl
find-fill (u ∷ us) s d name = ground (
  arith,
  find-fill us (insert u.username (record_from_config u) s) d.1 name,
  lookup-insert u.username name (record_from_config u) s,
  configured-missing name us,
  d.0,
)

pub sync_from_config-IsMirror :
    (c : Config) (s : UserStore)
    → IsDistinct (map user_key c.auth.users)
    → IsMirror (sync_from_config (some c) s) c.auth.users
unfolding IsMirror sync_from_config find_user or_else
sync_from_config-IsMirror c s d name =
    find-fill c.auth.users [] d name ∙ or_none (configured name c.auth.users)
  where
    or_none : (o : Option UserRecord) → or_else o (lookup name []) ≡ o
    or_none none = refl
    or_none (some r) = refl

pub configured-append :
    (name : String) (u : UserConfig) (us : List UserConfig)
    → has_key user_key u.username us ≡ false
    → configured name (us ++ (u ∷ []))
      ≡ ite (str_dec u.username name) (some (record_from_config u)) (configured name us)
unfolding configured has_key
configured-append name u [] h = ground arith
configured-append name u (v ∷ vs) h = ground (arith, h, configured-append name u vs)

pub configured-modify :
    (name : String) (u : UserConfig) (us : List UserConfig)
    → has_key user_key u.username us ≡ true
    → configured name (modify_first user_key (λ old. u) u.username us)
      ≡ ite (str_dec u.username name) (some (record_from_config u)) (configured name us)
unfolding configured has_key modify_first
configured-modify name u [] h = absurd (ground (arith, h))
configured-modify name u (v ∷ vs) h = ground (arith, h, configured-modify name u vs)

configured-without :
    (name gone : String) (us : List UserConfig)
    → configured name (without_key user_key gone us)
      ≡ ite (str_dec gone name) none (configured name us)
unfolding configured without_key
configured-without name gone [] = ground arith
configured-without name gone (v ∷ vs) = ground (arith, configured-without name gone vs)

pub set_user-IsMirror :
    (u : UserConfig) (s : UserStore) (before after : List UserConfig)
    → IsMirror s before
    → ((name : String)
        → configured name after
          ≡ ite (str_dec u.username name) (some (record_from_config u)) (configured name before))
    → IsMirror (set_user (record_from_config u) s) after
unfolding IsMirror set_user find_user configured
set_user-IsMirror u s before after h k name =
    lookup-insert u.username name (record_from_config u) s
    ∙ ap (ite (str_dec u.username name) (some (record_from_config u))) (h name)
    ∙ sym (k name)

pub drop_user-IsMirror :
    (gone : String) (s : UserStore) (before : List UserConfig)
    → IsMirror s before
    → IsMirror (drop_user gone s) (without_key user_key gone before)
unfolding IsMirror drop_user find_user
drop_user-IsMirror gone s before h name =
    lookup-delete gone name s
    ∙ ap (ite (str_dec gone name) none) (h name)
    ∙ sym (configured-without name gone before)
