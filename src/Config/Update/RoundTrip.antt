-- ===== src/Config/Update/RoundTrip.antt =====
-- An entry that is added and removed again.
use onvif_simulator.Prelude.{
  Bool, true, false, String, List, [], ◌∷◌, ◌++◌, ◌≡◌, refl, arith, if◌then◌else◌, Bool-cases, inl,
  inr, str_eq,
}
use onvif_simulator.Config.Types.{Config, UserConfig, ProfileConfig, MetadataConfig}
use onvif_simulator.Config.Update.{
  Mutated, changed, refused, user_already_exists, profile_already_exists, metadata_already_exists,
  add_user, remove_user, add_profile, remove_profile, user_key, profile_key, metadata_key,
}
use onvif_simulator.Config.Update.Keyed.{has_key, without_key}
use onvif_simulator.Config.Update.Runtime.{add_metadata_config, remove_metadata_config}

-- One change behind another.
unfoldable pub and_then : Mutated → (Config → Mutated) → Mutated
and_then (changed c) g = g c
and_then (refused e) g = refused e

module _ {A : Type 0} (key : A → String) where
  has_key-append : (x : A) (xs : List A) → has_key key (key x) (xs ++ (x ∷ [])) ≡ true
  unfolding has_key
  has_key-append x [] = ground arith
  has_key-append x (y ∷ ys) = ground (arith, has_key-append x ys)

  without_key-append :
      (x : A) (xs : List A)
      → has_key key (key x) xs ≡ false
      → without_key key (key x) (xs ++ (x ∷ [])) ≡ xs
  unfolding has_key without_key
  without_key-append x [] h = ground arith
  without_key-append x (y ∷ ys) h = elim (Bool-cases (str_eq (key y) (key x))) [
    | inl e ↦ absurd (ground (arith, h, e))
    | inr e ↦ ground (arith, h, e, without_key-append x ys)
  ]

user-roundtrip :
    (u : UserConfig) (c : Config) (b : Bool)
    → has_key user_key u.username c.auth.users ≡ b
    → and_then (add_user u c) (remove_user u.username)
      ≡ (if b then refused user_already_exists else changed c)
unfolding and_then add_user remove_user
user-roundtrip u c true h = rw h refl
user-roundtrip u c false h =
    rw (h, has_key-append user_key u c.auth.users, without_key-append user_key u c.auth.users h)
      refl

profile-roundtrip :
    (p : ProfileConfig) (c : Config) (b : Bool)
    → has_key profile_key p.token c.media.profiles ≡ b
    → and_then (add_profile p c) (remove_profile p.token)
      ≡ (if b then refused profile_already_exists else changed c)
unfolding and_then add_profile remove_profile
profile-roundtrip p c true h = rw h refl
profile-roundtrip p c false h =
    rw
      (
        h,
        has_key-append profile_key p c.media.profiles,
        without_key-append profile_key p c.media.profiles h,
      )
      refl

metadata_config-roundtrip :
    (m : MetadataConfig) (c : Config) (b : Bool)
    → has_key metadata_key m.token c.media.metadata_configurations ≡ b
    → and_then (add_metadata_config m c) (remove_metadata_config m.token)
      ≡ (if b then refused metadata_already_exists else changed c)
unfolding and_then add_metadata_config remove_metadata_config
metadata_config-roundtrip m c true h = rw h refl
metadata_config-roundtrip m c false h =
    rw
      (
        h,
        has_key-append metadata_key m c.media.metadata_configurations,
        without_key-append metadata_key m c.media.metadata_configurations h,
      )
      refl

-- Adding a user, a profile or a metadata configuration and removing it again by its key gives the
-- configuration back, unless the key was taken: then the first change is refused.
pub add-remove :
    (c : Config) (u : UserConfig) (p : ProfileConfig) (m : MetadataConfig)
    → (and_then (add_user u c) (remove_user u.username) ≡ (
        if has_key user_key u.username c.auth.users
        then refused user_already_exists
        else changed c))
      × (and_then (add_profile p c) (remove_profile p.token) ≡ (
          if has_key profile_key p.token c.media.profiles
          then refused profile_already_exists
          else changed c))
      × (and_then (add_metadata_config m c) (remove_metadata_config m.token) ≡ (
          if has_key metadata_key m.token c.media.metadata_configurations
          then refused metadata_already_exists
          else changed c))
add-remove c u p m =
    (user-roundtrip u c _ refl, profile-roundtrip p c _ refl, metadata_config-roundtrip m c _ refl)
