-- ===== src/Simulator/Profiles/Siblings.antt =====
-- The profiles that clients see have tokens of their own.
use text.Mathlib.TextLemmas.{append_cancel_right}
use onvif_simulator.Prelude.{
  true, false, ◌||◌, String, List, [], ◌∷◌, ◌++◌, map, mem_str, ◌≡◌, refl, sym, ap, subst, inl, inr,
  arith, Bool-cases, if_both,
}
use onvif_simulator.Config.Types.{ProfileConfig}
use onvif_simulator.Config.Update.{profile_key}
use onvif_simulator.Config.Validate.Uniqueness.{IsDistinct}
use onvif_simulator.Simulator.Profiles.{
  has_profile_matching, sibling_token, sibling_name, with_suffix, mjpeg_sibling_token_suffix,
  sibling_of, has_sibling, siblings, effective_profiles,
}

unmatched :
    (all : List ProfileConfig) (token name : String)
    → has_profile_matching all token name ≡ false
    → mem_str token (map profile_key all) ≡ false
unfolding has_profile_matching mem_str
unmatched [] token name h = refl
unmatched (p ∷ ps) token name h = ground (arith, h, unmatched ps token name)

-- A profile that gets a sibling leaves its token free.
free_token :
    (all : List ProfileConfig) (p : ProfileConfig)
    → has_sibling all p ≡ true
    → mem_str (sibling_token p) (map profile_key all) ≡ false
unfolding has_sibling
free_token all p h = ground (arith, h, unmatched all (sibling_token p) (sibling_name p))

with_suffix-cancel : (t k : String) → with_suffix t ≡ with_suffix k → t ≡ k
with_suffix-cancel t k e = append_cancel_right t k mjpeg_sibling_token_suffix e

-- A text that is no token of a profile is, with the suffix, no token of a sibling.
siblings-new :
    (all ps : List ProfileConfig) (k : String)
    → mem_str k (map profile_key ps) ≡ false
    → mem_str (with_suffix k) (map profile_key (siblings all ps)) ≡ false
unfolding mem_str siblings sibling_of
siblings-new all [] k h = refl
siblings-new all (p ∷ ps) k h =
    ground (arith, h, siblings-new all ps k, with_suffix-cancel p.token k)

pub siblings-IsDistinct :
    (all ps : List ProfileConfig)
    → IsDistinct (map profile_key ps)
    → IsDistinct (map profile_key (siblings all ps))
unfolding IsDistinct siblings sibling_of
siblings-IsDistinct all [] h = tt
siblings-IsDistinct all (p ∷ ps) (n, h) =
    if_both (λ ss. IsDistinct (map profile_key ss)) (has_sibling all p) _ _
      (siblings-new all ps p.token n, siblings-IsDistinct all ps h) (siblings-IsDistinct all ps h)

-- No sibling has the token of a profile.
siblings-apart :
    (all ps : List ProfileConfig) (k : String)
    → mem_str k (map profile_key all) ≡ true
    → mem_str k (map profile_key (siblings all ps)) ≡ false
unfolding mem_str siblings sibling_of
siblings-apart all [] k h = refl
siblings-apart all (p ∷ ps) k h = elim (Bool-cases (has_sibling all p)) [
  | inl s ↦ ground (arith, s, h, free_token all p s, siblings-apart all ps k h)
  | inr s ↦ ground (arith, s, siblings-apart all ps k h)
]

mem_str-append :
    (k : String) (xs ys : List String) → mem_str k (xs ++ ys) ≡ (mem_str k xs || mem_str k ys)
unfolding mem_str
mem_str-append k [] ys = refl
mem_str-append k (x ∷ xs) ys = ground (arith, mem_str-append k xs ys)

append-IsDistinct :
    (xs ys : List String)
    → IsDistinct xs
    → IsDistinct ys
    → ((k : String) → mem_str k xs ≡ true → mem_str k ys ≡ false)
    → IsDistinct (xs ++ ys)
unfolding IsDistinct mem_str
append-IsDistinct [] ys h i apart = i
append-IsDistinct (x ∷ xs) ys (n, h) i apart = (
  ground (arith, n, mem_str-append x xs ys, apart x (ground arith)),
  append-IsDistinct xs ys h i (λ k m. apart k (ground (arith, m))),
)

map-append :
    (ps qs : List ProfileConfig)
    → map profile_key (ps ++ qs) ≡ map profile_key ps ++ map profile_key qs
map-append [] qs = refl
map-append (p ∷ ps) qs = ap (λ t. p.token ∷ t) (map-append ps qs)

-- Some of the siblings of profiles with tokens of their own.
pub effective_profiles-IsDistinct :
    (ps sibs : List ProfileConfig)
    → IsDistinct (map profile_key ps)
    → IsDistinct (map profile_key sibs)
    → ((k : String)
        → mem_str k (map profile_key (siblings ps ps)) ≡ false
        → mem_str k (map profile_key sibs) ≡ false)
    → IsDistinct (map profile_key (effective_profiles ps sibs))
unfolding effective_profiles
effective_profiles-IsDistinct ps sibs d e sub = subst IsDistinct (sym (map-append ps sibs)) (
    append-IsDistinct (map profile_key ps) (map profile_key sibs) d e
      (λ k m. sub k (siblings-apart ps ps k m)))
