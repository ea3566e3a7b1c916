-- ===== src/Auth/UserStore/Controller.antt =====
-- The controller keeps the live store in step with the users on disk.
use onvif_simulator.Prelude.{
  Bool, true, false, Option, none, some, String, List, [], ◌∷◌, ◌++◌, if◌then◌else◌, ◌≡◌, refl,
  subst, inl, inr, arith,
}
use onvif_simulator.Config.Types.{Config, UserConfig}
use onvif_simulator.Config.Platform.{Platform}
use onvif_simulator.Config.Update.{
  Mutated, changed, refused, user_key, user_not_found, upsert_user, remove_user, set_auth_enabled,
  with_users,
}
use onvif_simulator.Config.Update.Keyed.{has_key, without_key, modify_first}
use onvif_simulator.Config.Store.{
  Codec, Faults, Files, StoreError, Outcome, ok, err, load, parse_file, update,
}
use onvif_simulator.Config.Store.Cases.{Kept}
use onvif_simulator.Config.Store.Laws.{Committed, update_atomic}
use onvif_simulator.Auth.UserStore.{
  UserStore, UserChange, upsert, remove, toggle, after_update, set_user, drop_user,
  record_from_config, controller_upsert_user, controller_remove_user, controller_set_auth_enabled,
  controller_call,
}
use onvif_simulator.Auth.UserStore.Laws.{
  IsMirror, set_user-IsMirror, drop_user-IsMirror, configured-append, configured-modify,
}

-- A change of the configuration and a change of the store that go together.
abbrev Matches : (Config → Mutated) → (UserStore → UserStore) → UserStore → Type 0
Matches mutate g s =
    (c c' : Config) → mutate c ≡ changed c' → IsMirror s c.auth.users → IsMirror (g s) c'.auth.users

OfUsers : (List UserConfig → Type 0) → Mutated → Type 0
OfUsers P (changed c) = P c.auth.users
OfUsers P (refused e) = Unit

-- A property of the configuration that was read, if one was.
unfoldable pub OfOutcome : (Config → Type 0) → Outcome Config → Type 0
OfOutcome P (ok c) = P c
OfOutcome P (err e) = Unit

upsert_user-Matches :
    (u : UserConfig) (s : UserStore) → Matches (upsert_user u) (set_user (record_from_config u)) s
unfolding upsert_user OfUsers IsMirror
upsert_user-Matches u s c c' e h = upserted (has_key user_key u.username c.auth.users) refl e
  where
    after : List UserConfig → Type 0
    after us = IsMirror (set_user (record_from_config u) s) us

    landed :
        (us : List UserConfig)
        → after us
        → changed (with_users c us) ≡ changed c'
        → after c'.auth.users
    landed us m q = subst (λ (d : Mutated). OfUsers after d) q m

    upserted :
        (present : Bool)
        → has_key user_key u.username c.auth.users ≡ present
        → (if present
            then changed (with_users c (modify_first user_key (λ old. u) u.username c.auth.users))
            else changed (with_users c (c.auth.users ++ (u ∷ []))))
          ≡ changed c'
        → IsMirror (set_user (record_from_config u) s) c'.auth.users
    upserted true k q =
        landed _
          (set_user-IsMirror u s c.auth.users _ h (λ name. configured-modify name u c.auth.users k))
          q
    upserted false k q =
        landed _
          (set_user-IsMirror u s c.auth.users _ h (λ name. configured-append name u c.auth.users k))
          q

remove_user-Matches :
    (gone : String) (s : UserStore) → Matches (remove_user gone) (drop_user gone) s
unfolding remove_user OfUsers IsMirror
remove_user-Matches gone s c c' e h = removed (has_key user_key gone c.auth.users) e
  where
    removed :
        (present : Bool)
        → (if present
            then changed (with_users c (without_key user_key gone c.auth.users))
            else refused user_not_found)
          ≡ changed c'
        → IsMirror (drop_user gone s) c'.auth.users
    removed true q =
        subst (λ (d : Mutated). OfUsers (IsMirror (drop_user gone s)) d) q
          (drop_user-IsMirror gone s c.auth.users h)
    removed false q = absurd (ground (arith, q))

toggle-Matches : (b : Bool) (s : UserStore) → Matches (set_auth_enabled b) (λ t. t) s
unfolding set_auth_enabled OfUsers IsMirror
toggle-Matches b s c c' e h = subst (λ (d : Mutated). OfUsers (IsMirror s) d) e h

module _ {Bytes : Type 0} (go : Platform) (json : Codec Bytes) where
  -- What a call of the controller leaves: everything as it was and an error, or a file that reads as
  -- a configuration whose users the store mirrors.
  unfoldable pub IsInStep :
      Files Bytes → UserStore → Files Bytes × UserStore × Option StoreError → Type 0
  IsInStep f s (f', s', some e) = (f'.config_file ≡ f.config_file) × (s' ≡ s)
  IsInStep f s (f', s', none) =
      (c : Config) × (parse_file go json f'.config_file ≡ ok c) × IsMirror s' c.auth.users

  failed :
      (f : Files Bytes) (s : UserStore) (g : UserStore → UserStore)
      (r : Files Bytes × Option StoreError)
      → Kept f r
      → IsInStep f s (after_update r g s)
  unfolding IsInStep after_update
  failed f s g (f', none) k = absurd (k.0 refl)
  failed f s g (f', some e) k = (k.1, refl)

  went_well :
      (f : Files Bytes) (s : UserStore) (mutate : Config → Mutated) (g : UserStore → UserStore)
      → Matches mutate g s
      → (before : Outcome Config) → ((c : Config) → before ≡ ok c → IsMirror s c.auth.users)
      → (r : Files Bytes × Option StoreError) → Committed go json mutate before f r
      → IsInStep f s (after_update r g s)
  unfolding IsInStep after_update
  went_well f s mutate g m before h (f', some e) (d, c', l, q, v, n, p, t) =
      absurd (ground (arith, n))
  went_well f s mutate g m before h (f', none) (d, c', l, q, v, n, p, t) = (c', p, m d c' q (h d l))

module _ {Bytes : Type 0} (go : Platform) (json : Codec Bytes)
    (law : (c : Config) (text : Bytes)
      → json.marshal_indent c ≡ some text
      → json.unmarshal (json.append_newline text) ≡ some c) where
  step :
      (os : Faults Bytes) (f : Files Bytes) (s : UserStore) (mutate : Config → Mutated)
      (g : UserStore → UserStore)
      → Matches mutate g s
      → ((c : Config) → load go json os f ≡ ok c → IsMirror s c.auth.users)
      → IsInStep go json f s (after_update (update go json os (some mutate) f) g s)
  step os f s mutate g m h = elim (update_atomic go json law os mutate f) [
    | inl k ↦ failed go json f s g (update go json os (some mutate) f) k
    | inr k ↦
        went_well go json f s mutate g m (load go json os f) h (update go json os (some mutate) f) k
  ]

  -- If the live store mirrors the users of the configuration file whenever the file loads, then
  -- after each of UpsertUser, RemoveUser and SetAuthEnabled either an error is returned, with the
  -- file and the store as they were, or none is, and the file then reads as a configuration whose
  -- users the store mirrors. It assumes that JSON reads back what it wrote.
  pub controller_call-IsInStep :
      (os : Faults Bytes) (change : UserChange) (f : Files Bytes) (s : UserStore)
      → ((c : Config) → load go json os f ≡ ok c → IsMirror s c.auth.users)
      → IsInStep go json f s (controller_call go json os change f s)
  unfolding controller_call controller_upsert_user controller_remove_user
      controller_set_auth_enabled
  controller_call-IsInStep os (upsert u) f s h =
      step os f s (upsert_user u) (set_user (record_from_config u)) (upsert_user-Matches u s) h
  controller_call-IsInStep os (remove gone) f s h =
      step os f s (remove_user gone) (drop_user gone) (remove_user-Matches gone s) h
  controller_call-IsInStep os (toggle b) f s h =
      step os f s (set_auth_enabled b) (λ t. t) (toggle-Matches b s) h
