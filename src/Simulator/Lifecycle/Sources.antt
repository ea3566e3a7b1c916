-- ===== src/Simulator/Lifecycle/Sources.antt =====
-- internal/simulator/lifecycle.go: startRTSPServer and registerMJPEGSiblings, the RTSP sources that a
-- start registers.
use onvif_simulator.Prelude.{
  ℕ, zero, suc, ◌-◌, Bool, false, not, ◌||◌, Option, none, some, String, List, [], ◌∷◌, length,
  if◌then◌else◌, str_eq,
}
use onvif_simulator.Prelude.Int.{ℤ}
use onvif_simulator.Text.{codes}
use onvif_simulator.Config.Types.{Config, ProfileConfig}
use onvif_simulator.Simulator.Profiles.{
  has_source, is_mjpeg_sibling_token, mjpeg_sibling_token_suffix, derive_mjpeg_siblings,
}

-- rtsp.ProbeResult
pub record ProbeResult : Type 0 where
  pub codec : String
  pub width : ℤ
  pub height : ℤ
  pub fps : ℤ

-- `register_source` is buildRTSPSource with AddSource, `build_sibling` is whether
-- buildMJPEGSiblingSource gives a source for a parent, and `add_sibling` is AddSource for a sibling.
pub record StartEnv : Type 0 where
  pub listen : Option String
  pub rtsp_start : Bool
  pub register_source : ProfileConfig → Option ProbeResult
  pub build_sibling : ProfileConfig → Bool
  pub add_sibling : ProfileConfig → Bool
  pub local_addr : String

pub data StartError : Type 0 where
  listen_failed start_rtsp_failed register_source_failed register_sibling_failed : StartError

abbrev take_chars : ℕ → String → String
take_chars zero s = ""
take_chars (suc n) String.[] = ""
take_chars (suc n) (String.◌∷◌ c s) = String.◌∷◌ c (take_chars n s)

-- MJPEGSiblingParentToken, with strings.TrimSuffix on a text that has the suffix.
unfoldable pub mjpeg_sibling_parent_token : String → String
unfolding is_mjpeg_sibling_token
mjpeg_sibling_parent_token token =
    if not (is_mjpeg_sibling_token token)
    then ""
    else take_chars (length (codes token) - length (codes mjpeg_sibling_token_suffix)) token

unfoldable pub find_profile_by_token : List ProfileConfig → String → Option ProfileConfig
find_profile_by_token [] token = none
find_profile_by_token (p ∷ ps) token =
    let rest = find_profile_by_token ps token in if str_eq p.token token then some p else rest

-- A sibling whose parent is missing or gives no source is skipped; `none` is the error.
unfoldable pub register_sibling :
    StartEnv
    → ProfileConfig
    → Option ProfileConfig
    → Option (List ProfileConfig)
    → Option (List ProfileConfig)
register_sibling env sib none rest = rest
register_sibling env sib (some parent) rest =
    if not (env.build_sibling parent)
    then rest
    else if not (env.add_sibling sib)
    then none
    else elim rest [ none ↦ none | some out ↦ some (sib ∷ out) ]

unfoldable pub register_each :
    StartEnv → List ProfileConfig → List ProfileConfig → Option (List ProfileConfig)
unfolding register_sibling find_profile_by_token mjpeg_sibling_parent_token
register_each env probed [] = some []
register_each env probed (sib ∷ sibs) =
    register_sibling env sib (find_profile_by_token probed (mjpeg_sibling_parent_token sib.token))
      (register_each env probed sibs)

unfoldable pub register_mjpeg_siblings : StartEnv → List ProfileConfig → Option (List ProfileConfig)
unfolding register_each derive_mjpeg_siblings
register_mjpeg_siblings env probed = register_each env probed (derive_mjpeg_siblings probed)

unfoldable pub any_source : List ProfileConfig → Bool
unfolding has_source
any_source [] = false
any_source (p ∷ ps) = has_source p || any_source ps

unfoldable pub with_probe : ProfileConfig → ProbeResult → ProfileConfig
with_probe p r = record p { encoding = r.codec; width = r.width; height = r.height; fps = r.fps }

unfoldable pub probe_first :
    ProfileConfig → Option ProbeResult → Option (List ProfileConfig) → Option (List ProfileConfig)
unfolding with_probe
probe_first p none rest = none
probe_first p (some r) none = none
probe_first p (some r) (some ps) = some (with_probe p r ∷ ps)

-- The loop over the profiles: those without a source stay as they are.
unfoldable pub probe_all : StartEnv → List ProfileConfig → Option (List ProfileConfig)
unfolding probe_first has_source
probe_all env [] = some []
probe_all env (p ∷ ps) =
    let rest = probe_all env ps in
    if not (has_source p)
    then elim rest [ none ↦ none | some out ↦ some (p ∷ out) ]
    else probe_first p (env.register_source p) rest

-- The outcome of startRTSPServer: an error, with the server stopped, no server, or one with the
-- probed profiles and their siblings.
pub data Streaming : Type 0 where
  broken : StartError → Streaming
  silent : Streaming
  streams : List ProfileConfig → List ProfileConfig → Streaming

unfoldable pub with_siblings : List ProfileConfig → Option (List ProfileConfig) → Streaming
with_siblings probed none = broken register_sibling_failed
with_siblings probed (some sibs) = streams probed sibs

unfoldable pub with_probed : StartEnv → Option (List ProfileConfig) → Streaming
unfolding with_siblings register_mjpeg_siblings
with_probed env none = broken register_source_failed
with_probed env (some probed) = with_siblings probed (register_mjpeg_siblings env probed)

unfoldable pub start_rtsp_server : StartEnv → Config → Streaming
unfolding any_source probe_all with_probed
start_rtsp_server env c =
    if not (any_source c.media.profiles)
    then silent
    else if not env.rtsp_start
    then broken start_rtsp_failed
    else with_probed env (probe_all env c.media.profiles)
