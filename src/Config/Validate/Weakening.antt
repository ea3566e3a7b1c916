-- ===== src/Config/Validate/Weakening.antt =====
-- The loops that remember keys pass on fewer entries, with fewer keys remembered.
use onvif_simulator.Prelude.{
  Bool, true, false, Option, none, some, String, List, [], ◌∷◌, keep, mem_str, str_dec, ◌≡◌, refl,
  arith, ◌||◌, Bool-cases, inl, inr,
}
use onvif_simulator.Prelude.Int.{ℤ, eq_ℤ}
use onvif_simulator.Config.Types.{ProfileConfig, MetadataConfig, UserConfig}
use onvif_simulator.Config.Platform.{Platform}
use onvif_simulator.Config.Errors.{seq-none, seq_mono, check_mono}
use onvif_simulator.Config.Validate.Media.{
  validate_profile, validate_profiles, validate_metadata_configs, validate_camera, seen_camera,
  camera_of, mem_int,
}
use onvif_simulator.Config.Validate.Auth.{validate_user, validate_users}

-- Every key of the first list is in the second.
pub Below : List String → List String → Type 0
Below new old = (s : String) → mem_str s new ≡ true → mem_str s old ≡ true

Below-cons : (k : String) (new old : List String) → Below new old → Below (k ∷ new) (k ∷ old)
unfolding Below mem_str
Below-cons k new old h s m = elim (str_dec k s) [
  | yes e ↦ ground arith
  | no ne ↦ ground (arith, h s, m, ne)
]

Below-skip : (k : String) (new old : List String) → Below new old → Below new (k ∷ old)
unfolding Below mem_str
Below-skip k new old h s m = ground (arith, h s m)

or_mono : (a b c : Bool) → (b ≡ true → c ≡ true) → (a || b) ≡ true → (a || c) ≡ true
or_mono true b c h m = refl
or_mono false b c h m = h m

or_later : (a b : Bool) → b ≡ true → (a || b) ≡ true
or_later true b m = refl
or_later false b m = m

pub CamerasBelow : List ℤ → List ℤ → Type 0
CamerasBelow new old = (n : ℤ) → mem_int n new ≡ true → mem_int n old ≡ true

CamerasBelow-seen :
    (o : Option ℤ) (new old : List ℤ)
    → CamerasBelow new old
    → CamerasBelow (seen_camera o new) (seen_camera o old)
unfolding CamerasBelow seen_camera mem_int
CamerasBelow-seen none new old h n m = h n m
CamerasBelow-seen (some k) new old h n m =
    or_mono (eq_ℤ k n) (mem_int n new) (mem_int n old) (h n) m

CamerasBelow-later :
    (o : Option ℤ) (new old : List ℤ) → CamerasBelow new old → CamerasBelow new (seen_camera o old)
unfolding CamerasBelow seen_camera mem_int
CamerasBelow-later none new old h n m = h n m
CamerasBelow-later (some k) new old h n m = or_later (eq_ℤ k n) (mem_int n old) (h n m)

camera_mono :
    (o : Option ℤ) (new old : List ℤ)
    → CamerasBelow new old
    → validate_camera o old ≡ none
    → validate_camera o new ≡ none
unfolding CamerasBelow validate_camera
camera_mono none new old h v = refl
camera_mono (some k) new old h v = check_mono (mem_int k old) (mem_int k new) _ _ (h k) v

profile_mono :
    (go : Platform) (p : ProfileConfig) (new old : List String)
    → Below new old
    → validate_profile go old p ≡ none
    → validate_profile go new p ≡ none
unfolding validate_profile Below
profile_mono go p new old h =
    seq_mono _ _ _ _ (λ v. v)
      (seq_mono _ _ _ _ (λ v. v) (seq_mono _ _ _ _ (check_mono _ _ _ _ (h p.token)) (λ v. v)))

user_mono :
    (u : UserConfig) (new old : List String)
    → Below new old
    → validate_user old u ≡ none
    → validate_user new u ≡ none
unfolding validate_user Below
user_mono u new old h =
    seq_mono _ _ _ _ (λ v. v)
      (seq_mono _ _ _ _ (λ v. v) (seq_mono _ _ _ _ (λ v. v) (check_mono _ _ _ _ (h u.username))))

module _ (go : Platform) (q : ProfileConfig → Bool) where
  pub keep_profiles :
      (ps : List ProfileConfig) (new old : List String) (ids more : List ℤ)
      → Below new old
      → CamerasBelow ids more
      → validate_profiles go old more ps ≡ none
      → validate_profiles go new ids (keep q ps) ≡ none
  unfolding validate_profiles
  keep_profiles [] new old ids more h k v = refl
  keep_profiles (p ∷ ps) new old ids more h k v = elim (Bool-cases (q p)) [
    | inl e ↦ simp e (
        seq_mono _ _ _ _ (profile_mono go p new old h)
          (seq_mono _ _ _ _ (camera_mono (camera_of p) ids more k) (
            keep_profiles ps (p.token ∷ new) (p.token ∷ old) (seen_camera (camera_of p) ids)
              (seen_camera (camera_of p) more) (Below-cons p.token new old h)
              (CamerasBelow-seen (camera_of p) ids more k)))
          v)
    | inr e ↦ simp e (
        keep_profiles ps new (p.token ∷ old) ids (seen_camera (camera_of p) more)
          (Below-skip p.token new old h) (CamerasBelow-later (camera_of p) ids more k)
          (seq-none _ _ (seq-none _ _ v).1).1)
  ]

pub keep_metadata :
    (q : MetadataConfig → Bool) (ms : List MetadataConfig) (new old : List String)
    → Below new old
    → validate_metadata_configs old ms ≡ none
    → validate_metadata_configs new (keep q ms) ≡ none
unfolding validate_metadata_configs Below
keep_metadata q [] new old h v = refl
keep_metadata q (m ∷ ms) new old h v = elim (Bool-cases (q m)) [
  | inl e ↦ simp e (
      seq_mono _ _ _ _ (λ w. w)
        (seq_mono _ _ _ _ (check_mono _ _ _ _ (h m.token))
          (keep_metadata q ms (m.token ∷ new) (m.token ∷ old) (Below-cons m.token new old h)))
        v)
  | inr e ↦ simp e (
      keep_metadata q ms new (m.token ∷ old) (Below-skip m.token new old h)
        (seq-none _ _ (seq-none _ _ v).1).1)
]

pub keep_users :
    (q : UserConfig → Bool) (us : List UserConfig) (new old : List String)
    → Below new old
    → validate_users old us ≡ none
    → validate_users new (keep q us) ≡ none
unfolding validate_users
keep_users q [] new old h v = refl
keep_users q (u ∷ us) new old h v = elim (Bool-cases (q u)) [
  | inl e ↦ simp e (
      seq_mono _ _ _ _ (user_mono u new old h)
        (keep_users q us (u.username ∷ new) (u.username ∷ old) (Below-cons u.username new old h)) v)
  | inr e ↦
      simp e (
        keep_users q us new (u.username ∷ old) (Below-skip u.username new old h) (seq-none _ _ v).1)
]

pub Below-refl : (ss : List String) → Below ss ss
unfolding Below
Below-refl ss s m = m

pub CamerasBelow-refl : (ids : List ℤ) → CamerasBelow ids ids
unfolding CamerasBelow
CamerasBelow-refl ids n m = m
