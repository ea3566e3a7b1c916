-- ===== src/Simulator/Lifecycle/Laws.antt =====
-- At the moment of a start the profiles have tokens of their own.
use onvif_simulator.Prelude.{
  false, not, Option, none, some, String, List, [], ◌∷◌, map, mem_str, ◌≡◌, refl, sym, ap, subst,
  arith, if_both,
}
use onvif_simulator.Config.Types.{Config, ProfileConfig}
use onvif_simulator.Config.Platform.{Platform}
use onvif_simulator.Config.Update.{profile_key}
use onvif_simulator.Config.Validate.{validate}
use onvif_simulator.Config.Validate.Uniqueness.{IsDistinct, validate-IsDistinct}
use onvif_simulator.Simulator.Profiles.{
  has_source, siblings, derive_mjpeg_siblings, effective_profiles,
}
use onvif_simulator.Simulator.Profiles.Siblings.{siblings-IsDistinct, effective_profiles-IsDistinct}
use onvif_simulator.Simulator.Lifecycle.Sources.{
  StartEnv, ProbeResult, with_probe, probe_first, probe_all, register_sibling, register_each,
  register_mjpeg_siblings, find_profile_by_token, mjpeg_sibling_parent_token, any_source, Streaming,
  broken, silent, streams, with_siblings, with_probed, start_rtsp_server,
}

-- What holds of a list, if there is one.
OfSome : (List ProfileConfig → Type 0) → Option (List ProfileConfig) → Type 0
OfSome P none = Unit
OfSome P (some ps) = P ps

-- Probing changes no token.
abbrev SameTokens : List ProfileConfig → List ProfileConfig → Type 0
SameTokens ps qs = map profile_key qs ≡ map profile_key ps

kept_first :
    (p : ProfileConfig) (ps : List ProfileConfig) (rest : Option (List ProfileConfig))
    → OfSome (SameTokens ps) rest
    → OfSome (SameTokens (p ∷ ps)) (elim rest [ none ↦ none | some out ↦ some (p ∷ out) ])
unfolding OfSome
kept_first p ps none h = tt
kept_first p ps (some out) h = ap (λ t. p.token ∷ t) h

probe_first-tokens :
    (p : ProfileConfig) (ps : List ProfileConfig) (r : Option ProbeResult)
    (rest : Option (List ProfileConfig))
    → OfSome (SameTokens ps) rest
    → OfSome (SameTokens (p ∷ ps)) (probe_first p r rest)
unfolding OfSome probe_first with_probe
probe_first-tokens p ps none rest h = tt
probe_first-tokens p ps (some r) none h = tt
probe_first-tokens p ps (some r) (some qs) h = ap (λ t. p.token ∷ t) h

probe_all-tokens :
    (env : StartEnv) (ps : List ProfileConfig) → OfSome (SameTokens ps) (probe_all env ps)
unfolding OfSome probe_all
probe_all-tokens env [] = refl
probe_all-tokens env (p ∷ ps) =
    if_both (OfSome (SameTokens (p ∷ ps))) (not (has_source p)) _ _
      (kept_first p ps (probe_all env ps) (probe_all-tokens env ps))
      (probe_first-tokens p ps (env.register_source p) (probe_all env ps) (probe_all-tokens env ps))

-- Some of the siblings, each once.
abbrev Among : List ProfileConfig → List ProfileConfig → Type 0
Among sibs out =
    (IsDistinct (map profile_key sibs) → IsDistinct (map profile_key out))
    × ((k : String)
        → mem_str k (map profile_key sibs) ≡ false
        → mem_str k (map profile_key out) ≡ false)

skipped :
    (sib : ProfileConfig) (sibs : List ProfileConfig) (rest : Option (List ProfileConfig))
    → OfSome (Among sibs) rest
    → OfSome (Among (sib ∷ sibs)) rest
unfolding OfSome IsDistinct mem_str
skipped sib sibs none h = tt
skipped sib sibs (some out) (d, m) = ((λ (n, i). d i), λ k f. m k (ground (arith, f)))

added :
    (sib : ProfileConfig) (sibs : List ProfileConfig) (rest : Option (List ProfileConfig))
    → OfSome (Among sibs) rest
    → OfSome (Among (sib ∷ sibs)) (elim rest [ none ↦ none | some out ↦ some (sib ∷ out) ])
unfolding OfSome IsDistinct mem_str
added sib sibs none h = tt
added sib sibs (some out) (d, m) = ((λ (n, i). (m sib.token n, d i)), λ k f. ground (arith, f, m k))

register_sibling-Among :
    (env : StartEnv) (sib : ProfileConfig) (sibs : List ProfileConfig)
    (parent : Option ProfileConfig) (rest : Option (List ProfileConfig))
    → OfSome (Among sibs) rest
    → OfSome (Among (sib ∷ sibs)) (register_sibling env sib parent rest)
unfolding register_sibling OfSome
register_sibling-Among env sib sibs none rest h = skipped sib sibs rest h
register_sibling-Among env sib sibs (some parent) rest h =
    if_both (OfSome (Among (sib ∷ sibs))) (not (env.build_sibling parent)) _ _
      (skipped sib sibs rest h)
      (if_both (OfSome (Among (sib ∷ sibs))) (not (env.add_sibling sib)) _ _ tt
        (added sib sibs rest h))

register_each-Among :
    (env : StartEnv) (probed sibs : List ProfileConfig)
    → OfSome (Among sibs) (register_each env probed sibs)
unfolding register_each OfSome
register_each-Among env probed [] = ((λ i. i), λ k f. f)
register_each-Among env probed (sib ∷ sibs) =
    register_sibling-Among env sib sibs
      (find_profile_by_token probed (mjpeg_sibling_parent_token sib.token))
      (register_each env probed sibs) (register_each-Among env probed sibs)

-- The profiles that clients see right after a start with that outcome.
unfoldable pub IsUnambiguous : Streaming → Type 0
IsUnambiguous (broken e) = Unit
IsUnambiguous silent = Unit
IsUnambiguous (streams probed sibs) = IsDistinct (map profile_key (effective_profiles probed sibs))

with_siblings-IsUnambiguous :
    (probed : List ProfileConfig) (o : Option (List ProfileConfig))
    → IsDistinct (map profile_key probed)
    → OfSome (Among (siblings probed probed)) o
    → IsUnambiguous (with_siblings probed o)
unfolding OfSome with_siblings IsUnambiguous
with_siblings-IsUnambiguous probed none d h = tt
with_siblings-IsUnambiguous probed (some sibs) d (i, m) =
    effective_profiles-IsDistinct probed sibs d (i (siblings-IsDistinct probed probed d)) m

with_probed-IsUnambiguous :
    (env : StartEnv) (ps : List ProfileConfig) (o : Option (List ProfileConfig))
    → IsDistinct (map profile_key ps)
    → OfSome (SameTokens ps) o
    → IsUnambiguous (with_probed env o)
unfolding OfSome with_probed IsUnambiguous register_mjpeg_siblings derive_mjpeg_siblings
with_probed-IsUnambiguous env ps none d h = tt
with_probed-IsUnambiguous env ps (some probed) d h =
    with_siblings-IsUnambiguous probed (register_mjpeg_siblings env probed)
      (subst IsDistinct (sym h) d) (register_each-Among env probed (siblings probed probed))

-- For a valid configuration, whichever sources can be probed, built and registered: if the RTSP
-- server comes to stream, then no two of the profiles that Start puts in place, the probed ones and
-- the MJPEG siblings that were registered, have one token. A profile that is added later is not
-- covered.
pub start_rtsp_server-IsUnambiguous :
    (go : Platform) (env : StartEnv) (c : Config)
    → validate go c ≡ none
    → IsUnambiguous (start_rtsp_server env c)
unfolding start_rtsp_server IsUnambiguous
start_rtsp_server-IsUnambiguous go env c v =
    if_both IsUnambiguous (not (any_source c.media.profiles)) _ _ tt (
      if_both IsUnambiguous (not env.rtsp_start) _ _ tt (
        with_probed-IsUnambiguous env c.media.profiles (probe_all env c.media.profiles)
          (validate-IsDistinct go c v).1 (probe_all-tokens env c.media.profiles)))
