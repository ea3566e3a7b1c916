-- ===== src/Config/Validate/Uniqueness.antt =====
-- What the maps of keys already seen achieve: in a valid configuration no two entries share a key.
use onvif_simulator.Prelude.{
  Bool, true, false, not, Option, none, some, String, List, [], ◌∷◌, map, mem_str, str_dec, ◌≡◌,
  refl, arith, ◌&&◌, if◌then◌else◌, subst, sym, ◌≢◌, ◌∙◌,
}
use onvif_simulator.Prelude.Int.{ℤ}
use onvif_simulator.Config.Types.{
  Config, UserConfig, ProfileConfig, MetadataConfig, NetworkInterfaceConfig, TopicConfig,
  AuthConfig,
}
use onvif_simulator.Config.Platform.{Platform}
use onvif_simulator.Config.Errors.{ConfigError, auth_users_required, ◌⨾◌, seq-none, check-none}
use onvif_simulator.Config.Validate.{validate}
use onvif_simulator.Config.Validate.Media.{
  validate_profile, validate_profiles, validate_metadata_configs, validate_media, seen_camera,
  camera_of,
}
use onvif_simulator.Config.Validate.Auth.{validate_user, validate_users, validate_auth, is_nil}
use onvif_simulator.Config.Validate.Runtime.{
  validate_network_interface, validate_network_interfaces, validate_runtime, validate_topics,
  validate_events,
}

-- No text occurs twice.
unfoldable pub IsDistinct : List String → Type 0
IsDistinct [] = Unit
IsDistinct (s ∷ ss) = (mem_str s ss ≡ false) × IsDistinct ss

mem_str-skip : (s k : String) (ss : List String) → k ≢ s → mem_str s (k ∷ ss) ≡ mem_str s ss
unfolding mem_str
mem_str-skip s k ss ne = ground (arith, ne)

mem_str-tail : (s k : String) (ss : List String) → mem_str s ss ≡ true → mem_str s (k ∷ ss) ≡ true
unfolding mem_str
mem_str-tail s k ss m = ground (arith, m)

mem_str-head : (s : String) (ss : List String) → mem_str s (s ∷ ss) ≡ true
unfolding mem_str
mem_str-head s ss = ground arith

clash : {b : Bool} → b ≡ false → b ≡ true → ⊥
clash f t = ground (arith, f, t)

module _ {A : Type 0} (key : A → String) (Passes : List String → List A → Type 0)
    (step : (seen : List String) (x : A) (xs : List A)
      → Passes seen (x ∷ xs)
      → (mem_str (key x) seen ≡ false) × Passes (key x ∷ seen) xs) where
  fresh_key :
      (seen : List String) (s : String) (xs : List A)
      → Passes seen xs
      → mem_str s seen ≡ true
      → mem_str s (map key xs) ≡ false
  unfolding mem_str
  fresh_key seen s [] h m = refl
  fresh_key seen s (x ∷ xs) h m =
      let (f, rest) = step seen x xs h in
      elim (str_dec (key x) s) [
        | yes e ↦ absurd (clash f (subst (λ k. mem_str k seen ≡ true) (sym e) m))
        | no ne ↦
            mem_str-skip s (key x) (map key xs) ne
            ∙ fresh_key (key x ∷ seen) s xs rest (mem_str-tail s (key x) seen m)
      ]

  pub keys-IsDistinct :
      (seen : List String) (xs : List A) → Passes seen xs → IsDistinct (map key xs)
  unfolding IsDistinct mem_str
  keys-IsDistinct seen [] h = tt
  keys-IsDistinct seen (x ∷ xs) h =
      let (f, rest) = step seen x xs h in
      (
        fresh_key (key x ∷ seen) (key x) xs rest (mem_str-head (key x) seen),
        keys-IsDistinct (key x ∷ seen) xs rest,
      )

users_step :
    (seen : List String) (u : UserConfig) (us : List UserConfig)
    → validate_users seen (u ∷ us) ≡ none
    → (mem_str u.username seen ≡ false) × (validate_users (u.username ∷ seen) us ≡ none)
unfolding validate_users validate_user
users_step seen u us h =
    let (here, rest) = seq-none _ _ h in
    let texts = seq-none _ _ here in
    let prefix = seq-none _ _ texts.1 in
    let spaces = seq-none _ _ prefix.1 in (check-none _ _ spaces.1, rest)

metadata_step :
    (seen : List String) (m : MetadataConfig) (ms : List MetadataConfig)
    → validate_metadata_configs seen (m ∷ ms) ≡ none
    → (mem_str m.token seen ≡ false) × (validate_metadata_configs (m.token ∷ seen) ms ≡ none)
unfolding validate_metadata_configs
metadata_step seen m ms h =
    let (here, rest) = seq-none _ _ (seq-none _ _ h).1 in (check-none _ _ here, rest)

topics_step :
    (seen : List String) (t : TopicConfig) (ts : List TopicConfig)
    → validate_topics seen (t ∷ ts) ≡ none
    → (mem_str t.name seen ≡ false) × (validate_topics (t.name ∷ seen) ts ≡ none)
unfolding validate_topics
topics_step seen t ts h =
    let (here, rest) = seq-none _ _ (seq-none _ _ h).1 in (check-none _ _ here, rest)

module _ (go : Platform) where
  interfaces_step :
      (seen : List String) (i : NetworkInterfaceConfig) (is : List NetworkInterfaceConfig)
      → validate_network_interfaces go seen (i ∷ is) ≡ none
      → (mem_str i.token seen ≡ false) × (validate_network_interfaces go (i.token ∷ seen) is ≡ none)
  unfolding validate_network_interfaces validate_network_interface
  interfaces_step seen i is h =
      let (here, rest) = seq-none _ _ h in
      (check-none _ _ (seq-none _ _ (seq-none _ _ here).1).0, rest)

  -- Whatever camera identifiers came before.
  ProfilesPass : List String → List ProfileConfig → Type 0
  ProfilesPass seen ps = (ids : List ℤ) × (validate_profiles go seen ids ps ≡ none)

  profiles_step :
      (seen : List String) (p : ProfileConfig) (ps : List ProfileConfig)
      → ProfilesPass seen (p ∷ ps)
      → (mem_str p.token seen ≡ false) × ProfilesPass (p.token ∷ seen) ps
  unfolding ProfilesPass validate_profiles validate_profile
  profiles_step seen p ps (ids, h) =
      let (here, rest) = seq-none _ _ h in
      let checks = seq-none _ _ (seq-none _ _ (seq-none _ _ here).1).1 in
      (check-none _ _ checks.0, (seen_camera (camera_of p) ids, (seq-none _ _ rest).1))

  -- The sections of a valid configuration pass their own checks.
  pub sections_pass :
      (c : Config)
      → validate go c ≡ none
      → (validate_media go c.media ≡ none)
        × (validate_auth go c.auth ≡ none)
        × (validate_runtime go c.runtime ≡ none)
        × (validate_events go c.events ≡ none)
  unfolding validate
  sections_pass c h =
      let version = seq-none _ _ h in
      let device = seq-none _ _ version.1 in
      let network = seq-none _ _ device.1 in
      let media = seq-none _ _ network.1 in
      let auth = seq-none _ _ media.1 in
      let runtime = seq-none _ _ auth.1 in
      let events = seq-none _ _ runtime.1 in (media.0, auth.0, runtime.0, events.0)

  users_of_auth :
      (us : List UserConfig) (enabled jwt : Bool) (rest : Option ConfigError)
      → (if not enabled && is_nil us && not jwt
          then none
          else if enabled && is_nil us && not jwt
          then some auth_users_required
          else validate_users [] us ⨾ rest)
        ≡ none
      → validate_users [] us ≡ none
  unfolding validate_users
  users_of_auth [] e j rest h = refl
  users_of_auth (u ∷ us) true j rest h = (seq-none _ _ h).0
  users_of_auth (u ∷ us) false j rest h = (seq-none _ _ h).0

  auth_users : (a : AuthConfig) → validate_auth go a ≡ none → validate_users [] a.users ≡ none
  unfolding validate_auth
  auth_users a h = users_of_auth a.users a.enabled a.jwt.enabled _ h

  -- In a valid configuration the user names, the tokens of profiles, of metadata configurations and
  -- of network interfaces, and the names of topics are each without repetition.
  pub validate-IsDistinct :
      (c : Config)
      → validate go c ≡ none
      → IsDistinct (map (λ u. u.username) c.auth.users)
        × IsDistinct (map (λ p. p.token) c.media.profiles)
        × IsDistinct (map (λ m. m.token) c.media.metadata_configurations)
        × IsDistinct (map (λ i. i.token) c.runtime.network_interfaces)
        × IsDistinct (map (λ t. t.name) c.events.topics)
  unfolding ProfilesPass validate_media validate_runtime validate_events
  validate-IsDistinct c h =
      let (media, auth, runtime, events) = sections_pass c h in
      let (profiles, metadata) = seq-none _ _ media in
      let interfaces = (seq-none _ _ (seq-none _ _ (seq-none _ _ runtime).1).1).0 in
      (
        keys-IsDistinct (λ u. u.username) (λ seen us. validate_users seen us ≡ none) users_step [] _
            (auth_users c.auth auth),
        keys-IsDistinct (λ p. p.token) ProfilesPass profiles_step [] _ ([], profiles),
        keys-IsDistinct (λ m. m.token) (λ seen ms. validate_metadata_configs seen ms ≡ none)
            metadata_step [] _ metadata,
        keys-IsDistinct (λ i. i.token) (λ seen is. validate_network_interfaces go seen is ≡ none)
            interfaces_step [] _ interfaces,
        keys-IsDistinct (λ t. t.name) (λ seen ts. validate_topics seen ts ≡ none) topics_step [] _
            (seq-none _ _ events).1,
      )
