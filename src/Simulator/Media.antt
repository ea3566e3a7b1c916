-- ===== src/Simulator/Media.antt =====
-- internal/simulator/media_provider.go: what the Media service reads of the profiles, with the
-- configurations that each profile stands for.
pub mod References
use Prim.Native.String.{◌++◌}
use onvif_simulator.Prelude.{
  ℕ, Bool, true, false, not, Option, none, some, String, List, [], ◌∷◌, map, mem_str, if◌then◌else◌,
  str_eq,
}
use onvif_simulator.Prelude.Int.{ℤ, pos, ltb_ℤ}
use onvif_simulator.Text.{is_blank}
use onvif_simulator.Config.Types.{Config, ProfileConfig, MetadataConfig}
use onvif_simulator.Config.Platform.{Platform}
use onvif_simulator.Config.Update.{
  UpdateError, profile_already_exists, profile_not_found, profile_key,
}
use onvif_simulator.Config.Store.{Codec, update_refused}
use onvif_simulator.Config.Validate.Device.{rtsp_port_or_default}
use onvif_simulator.Simulator.AuthChain.{KeyLibrary, text_or}
use onvif_simulator.Simulator.State.{Simulator, SimulatorError, store_error}
use onvif_simulator.Simulator.Mutators.{Env, adds_profile, removes_profile, run_command}
use onvif_simulator.Simulator.Profiles.{generate_profile_token}

pub record Resolution : Type 0 where
  pub width : ℤ
  pub height : ℤ

pub record VideoSource : Type 0 where
  pub token : String
  pub framerate : ℤ
  pub resolution : Resolution

-- The bounds start at the origin.
pub record VideoSourceConfiguration : Type 0 where
  pub token : String
  pub name : String
  pub use_count : ℕ
  pub source_token : String
  pub bounds : Resolution

-- The rate control and the H264 part are flat; the quality is always 4.
pub record VideoEncoderConfiguration : Type 0 where
  pub token : String
  pub name : String
  pub use_count : ℕ
  pub encoding : String
  pub resolution : Resolution
  pub frame_rate_limit : ℤ
  pub encoding_interval : ℤ
  pub bitrate_limit : ℤ
  pub gov_length : ℤ
  pub h264_profile : String
  pub session_timeout : String

pub record Profile : Type 0 where
  pub token : String
  pub name : String
  pub fixed : Bool
  pub video_source : VideoSourceConfiguration
  pub video_encoder : VideoEncoderConfiguration

pub data MediaError : Type 0 where
  profile_missing no_snapshot : MediaError

unfoldable pub profile_video_source_token : ProfileConfig → String
unfolding text_or
profile_video_source_token p = text_or p.video_source_token "VS_DEFAULT"

unfoldable pub vs_config_from_profile : ProfileConfig → String → VideoSourceConfiguration
vs_config_from_profile p source_token = record {
  token = source_token ++ "_cfg";
  name = source_token;
  use_count = 1;
  source_token = source_token;
  bounds = record { width = p.width; height = p.height };
}

unfoldable pub ve_config_from_profile : ProfileConfig → VideoEncoderConfiguration
ve_config_from_profile p = record {
  token = p.token ++ "_enc";
  name = p.name ++ "_enc";
  use_count = 1;
  encoding = if str_eq p.encoding "MJPEG" then "JPEG" else p.encoding;
  resolution = record { width = p.width; height = p.height };
  frame_rate_limit = p.fps;
  encoding_interval = pos 1;
  bitrate_limit = p.bitrate;
  gov_length = if str_eq p.encoding "H264" then p.gop_length else pos 0;
  h264_profile = if str_eq p.encoding "H264" then "Main" else "";
  session_timeout = "PT0S";
}

unfoldable pub profile_from_config : ProfileConfig → Profile
unfolding vs_config_from_profile profile_video_source_token ve_config_from_profile
profile_from_config p = record {
  token = p.token;
  name = p.name;
  fixed = false;
  video_source = vs_config_from_profile p (profile_video_source_token p);
  video_encoder = ve_config_from_profile p;
}

-- Profiles, on the profiles that clients see.
unfoldable pub profiles : List ProfileConfig → List Profile
unfolding profile_from_config
profiles effective = map profile_from_config effective

unfoldable pub find_token : String → List ProfileConfig → Option ProfileConfig
find_token token [] = none
find_token token (p ∷ ps) =
    let rest = find_token token ps in if str_eq p.token token then some p else rest

-- `none` is ErrProfileNotFound.
unfoldable pub profile : String → List ProfileConfig → Option Profile
unfolding find_token profile_from_config
profile token effective = elim (find_token token effective) [
  | none ↦ none
  | some p ↦ some (profile_from_config p)
]

-- The loops of VideoSources and VideoSourceConfigurations: the first profile of each source.
unfoldable pub first_uses : List String → List ProfileConfig → List ProfileConfig
unfolding mem_str profile_video_source_token
first_uses seen [] = []
first_uses seen (p ∷ ps) =
    let known = mem_str (profile_video_source_token p) seen in
    let rest = first_uses (if known then seen else profile_video_source_token p ∷ seen) ps in
    if known then rest else p ∷ rest

unfoldable pub video_sources : List ProfileConfig → List VideoSource
unfolding first_uses profile_video_source_token
video_sources ps =
    map
      (λ (p : ProfileConfig). record {
        token = profile_video_source_token p;
        framerate = p.fps;
        resolution = record { width = p.width; height = p.height };
      })
      (first_uses [] ps)

unfoldable pub video_source_configurations : List ProfileConfig → List VideoSourceConfiguration
unfolding first_uses vs_config_from_profile profile_video_source_token
video_source_configurations ps =
    map (λ (p : ProfileConfig). vs_config_from_profile p (profile_video_source_token p))
      (first_uses [] ps)

-- By the token of the source; `none` is ErrConfigNotFound.
unfoldable pub video_source_configuration :
    String → List ProfileConfig → Option VideoSourceConfiguration
unfolding vs_config_from_profile profile_video_source_token
video_source_configuration token [] = none
video_source_configuration token (p ∷ ps) =
    let rest = video_source_configuration token ps in
    if str_eq (profile_video_source_token p) token
    then some (vs_config_from_profile p (profile_video_source_token p))
    else rest

unfoldable pub video_encoder_configurations : List ProfileConfig → List VideoEncoderConfiguration
unfolding ve_config_from_profile
video_encoder_configurations effective = map ve_config_from_profile effective

-- By the token of the profile; `none` is ErrConfigNotFound.
unfoldable pub video_encoder_configuration :
    String → List ProfileConfig → Option VideoEncoderConfiguration
unfolding find_token ve_config_from_profile
video_encoder_configuration token effective = elim (find_token token effective) [
  | none ↦ none
  | some p ↦ some (ve_config_from_profile p)
]

-- The address of the stream; `host_port` is net.JoinHostPort with the local address.
unfoldable pub stream_uri_for : (ℤ → String) → Config → ProfileConfig → String
unfolding rtsp_port_or_default
stream_uri_for host_port c p =
    "rtsp://" ++ (host_port (rtsp_port_or_default c.network) ++ ("/" ++ p.token))

unfoldable pub stream_uri : (ℤ → String) → Config → List ProfileConfig → String → Option String
unfolding find_token stream_uri_for
stream_uri host_port c effective token = elim (find_token token effective) [
  | none ↦ none
  | some p ↦ some (stream_uri_for host_port c p)
]

pub data Found : Type 0 where
  uri : String → Found
  missing : MediaError → Found

unfoldable pub snapshot_uri : List ProfileConfig → String → Found
unfolding find_token
snapshot_uri effective token = elim (find_token token effective) [
  | none ↦ missing profile_missing
  | some p ↦ if str_eq p.snapshot_uri "" then missing no_snapshot else uri p.snapshot_uri
]

unfoldable pub guaranteed_number_of_video_encoder_instances : Config → ℤ
guaranteed_number_of_video_encoder_instances c =
    if ltb_ℤ (pos 0) c.media.max_video_encoder_instances
    then c.media.max_video_encoder_instances
    else pos 1

-- A metadata configuration of the service is that of the file.
unfoldable pub metadata_configuration : String → List MetadataConfig → Option MetadataConfig
metadata_configuration token [] = none
metadata_configuration token (m ∷ ms) =
    let rest = metadata_configuration token ms in if str_eq m.token token then some m else rest
