-- ===== src/Simulator/Media/References.antt =====
-- What a profile refers to is listed, once, as long as the siblings are those of the configuration.
use onvif_simulator.Prelude.{
  Bool, true, false, not, ◌&&◌, ◌||◌, String, List, [], ◌∷◌, ◌++◌, map, mem_str, if◌then◌else◌, ◌≡◌,
  refl, sym, ap, subst, ◌∙◌, arith, if_both,
}
use onvif_simulator.Config.Types.{ProfileConfig}
use onvif_simulator.Config.Validate.Uniqueness.{IsDistinct}
use onvif_simulator.Simulator.Profiles.{
  siblings, sibling_of, has_sibling, derive_mjpeg_siblings, effective_profiles,
}
use onvif_simulator.Simulator.Media.{
  VideoSource, Profile, profile_video_source_token, first_uses, video_sources, profiles,
  profile_from_config, vs_config_from_profile,
}

abbrev sources : List ProfileConfig → List String
sources = map profile_video_source_token

-- The loop lists the sources that it had not seen, and no other.
mem_str-first_uses :
    (k : String) (seen : List String) (ps : List ProfileConfig)
    → mem_str k (sources (first_uses seen ps)) ≡ (mem_str k (sources ps) && not (mem_str k seen))
unfolding first_uses mem_str
mem_str-first_uses k seen [] = refl
mem_str-first_uses k seen (p ∷ ps) = ground (
  arith,
  mem_str-first_uses k
      (if mem_str (profile_video_source_token p) seen
        then seen
        else profile_video_source_token p ∷ seen)
      ps,
)

sibling-source :
    (p : ProfileConfig) → profile_video_source_token (sibling_of p) ≡ profile_video_source_token p
unfolding sibling_of profile_video_source_token
sibling-source p = refl

in_tail : (k s : String) (ss : List String) → mem_str k ss ≡ true → mem_str k (s ∷ ss) ≡ true
unfolding mem_str
in_tail k s ss h = ground (arith, h)

in_cons :
    (k a b : String) (xs ys : List String)
    → a ≡ b
    → (mem_str k xs ≡ true → mem_str k ys ≡ true)
    → mem_str k (a ∷ xs) ≡ true
    → mem_str k (b ∷ ys) ≡ true
unfolding mem_str
in_cons k a b xs ys e f h = ground (arith, e, f, h)

-- Siblings use the sources of their profiles.
sources-siblings :
    (k : String) (all ps : List ProfileConfig)
    → mem_str k (sources (siblings all ps)) ≡ true
    → mem_str k (sources ps) ≡ true
unfolding siblings
sources-siblings k all [] h = h
sources-siblings k all (p ∷ ps) h =
    if_both (λ ss. mem_str k (sources ss) ≡ true → mem_str k (sources (p ∷ ps)) ≡ true)
      (has_sibling all p) _ _
      (in_cons k _ _ (sources (siblings all ps)) (sources ps) (sibling-source p)
        (sources-siblings k all ps))
      (λ m. in_tail k (profile_video_source_token p) (sources ps) (sources-siblings k all ps m)) h

once :
    (p : ProfileConfig) (seen : List String) (ps : List ProfileConfig)
    → mem_str
        (profile_video_source_token p)
        (sources (first_uses (profile_video_source_token p ∷ seen) ps))
      ≡ false
unfolding mem_str
once p seen ps = ground (
  arith,
  mem_str-first_uses (profile_video_source_token p) (profile_video_source_token p ∷ seen) ps,
)

first_uses-IsDistinct :
    (seen : List String) (ps : List ProfileConfig) → IsDistinct (sources (first_uses seen ps))
unfolding first_uses IsDistinct
first_uses-IsDistinct seen [] = tt
first_uses-IsDistinct seen (p ∷ ps) =
    listed (λ seen'. first_uses-IsDistinct seen' ps) (mem_str (profile_video_source_token p) seen)
  where
    listed :
        ((seen' : List String) → IsDistinct (sources (first_uses seen' ps)))
        → (known : Bool)
        → IsDistinct (
            sources (
              if known
              then first_uses (if known then seen else profile_video_source_token p ∷ seen) ps
              else p ∷ first_uses (if known then seen else profile_video_source_token p ∷ seen) ps))
    listed rest true = rest seen
    listed rest false = (once p seen ps, rest (profile_video_source_token p ∷ seen))

effective-source :
    (k : String) (ps qs : List ProfileConfig)
    → mem_str k (sources (ps ++ qs)) ≡ (mem_str k (sources ps) || mem_str k (sources qs))
unfolding mem_str
effective-source k [] qs = refl
effective-source k (p ∷ ps) qs = ground (arith, effective-source k ps qs)

map-map :
    {A B : Type 0} (f : B → String) (g : A → B) (xs : List A)
    → map f (map g xs) ≡ map (λ x. f (g x)) xs
map-map f g [] = refl
map-map f g (x ∷ xs) = ap (λ t. f (g x) ∷ t) (map-map f g xs)

listed_tokens :
    (ps : List ProfileConfig)
    → map (λ (v : VideoSource). v.token) (video_sources ps) ≡ sources (first_uses [] ps)
unfolding video_sources
listed_tokens ps = map-map (λ (v : VideoSource). v.token) _ (first_uses [] ps)

used_tokens :
    (qs : List ProfileConfig)
    → map (λ (q : Profile). q.video_source.source_token) (profiles qs) ≡ sources qs
unfolding profiles profile_from_config vs_config_from_profile
used_tokens qs = map-map (λ (q : Profile). q.video_source.source_token) _ qs

absorb : (a b : Bool) → (b ≡ true → a ≡ true) → (a || b) ≡ a
absorb a b f = ground (arith, f)

unseen : (k : String) (a : Bool) → (a && not (mem_str k [])) ≡ a
unfolding mem_str
unseen k a = ground arith

-- The listed video sources have tokens of their own, and are exactly those that the profiles of a
-- configuration and the MJPEG siblings derived from this very configuration refer to. Siblings that
-- were derived before a later change of the configuration are not covered.
pub video_sources_complete :
    (ps : List ProfileConfig) (k : String)
    → IsDistinct (map (λ (v : VideoSource). v.token) (video_sources ps))
      × (mem_str k (map (λ (v : VideoSource). v.token) (video_sources ps))
          ≡ mem_str k (
              map
                (λ (q : Profile). q.video_source.source_token)
                (profiles (effective_profiles ps (derive_mjpeg_siblings ps)))))
unfolding effective_profiles derive_mjpeg_siblings
video_sources_complete ps k = (
  subst IsDistinct (sym (listed_tokens ps)) (first_uses-IsDistinct [] ps),
  ap (mem_str k) (listed_tokens ps)
      ∙ mem_str-first_uses k [] ps
      ∙ unseen k (mem_str k (sources ps))
      ∙ sym (
          ap (mem_str k) (used_tokens (ps ++ siblings ps ps))
          ∙ effective-source k ps (siblings ps ps)
          ∙ absorb _ _ (sources-siblings k ps ps)),
)
