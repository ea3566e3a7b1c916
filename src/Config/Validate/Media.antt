-- ===== src/Config/Validate/Media.antt =====
-- validateMedia and the checks of profiles and metadata configurations. A Go map of keys already
-- seen is the list of these keys.
use onvif_simulator.Prelude.{
  Bool, true, false, ◌&&◌, ◌||◌, not, Option, none, some, String, List, [], ◌∷◌, if◌then◌else◌,
  str_eq, mem_str,
}
use onvif_simulator.Prelude.Int.{ℤ, pos, ltb_ℤ, eq_ℤ}
use onvif_simulator.Text.{codes, is_blank, same_text, has_ascii_space}
use onvif_simulator.Config.Types.{RpiCamConfig, ProfileConfig, MetadataConfig, MediaConfig}
use onvif_simulator.Config.Platform.{Platform, Url}
use onvif_simulator.Config.Errors.{
  ConfigError, check, ◌⨾◌, profile_field_required, profile_token_duplicate,
  profile_encoding_invalid, profile_kind_invalid, profile_kind_file_with_rpicam,
  profile_kind_rpicam_with_file, profile_rpicam_required, profile_rpicam_field_range,
  profile_rpicam_extra_args, profile_rpicam_duplicate_camera_id, profile_media_file_path_blank,
  profile_bitrate_negative, profile_gop_negative, profile_snapshot_uri_invalid,
  profile_video_source_token_ws, profile_video_source_token_len, metadata_token_required,
  metadata_token_duplicate,
}

abbrev is_nil {ℓ} : {A : Type ℓ} → List A → Bool
is_nil [] = true
is_nil (x ∷ xs) = false

abbrev pub is_some {ℓ} : {A : Type ℓ} → Option A → Bool
is_some none = false
is_some (some a) = true

abbrev negative : ℤ → Bool
negative n = ltb_ℤ n (pos 0)

abbrev outside : ℤ → ℤ → Bool
outside n top = ltb_ℤ n (pos 0) || ltb_ℤ top n

unfoldable pub validate_rpicam : RpiCamConfig → Option ConfigError
validate_rpicam r =
    check (negative r.camera_id) profile_rpicam_field_range
    ⨾ check (outside r.width (pos 4096)) profile_rpicam_field_range
    ⨾ check (outside r.height (pos 4096)) profile_rpicam_field_range
    ⨾ check (outside r.fps (pos 120)) profile_rpicam_field_range
    ⨾ check (negative r.bitrate) profile_rpicam_field_range
    ⨾ check (negative r.idr_period) profile_rpicam_field_range
    ⨾ check (not (is_nil r.extra_args)) profile_rpicam_extra_args

unfoldable pub validate_media_file_path : String → Option ConfigError
validate_media_file_path raw =
    check (not (str_eq raw "") && is_blank raw) profile_media_file_path_blank

-- The source variants that `kind` names: `file`, also for the empty text, and `rpicam`.
pub data SourceKind : Type 0 where
  file rpicam unknown : SourceKind

unfoldable pub source_kind : String → SourceKind
source_kind k =
    if str_eq k "" || str_eq k "file" then file else if str_eq k "rpicam" then rpicam else unknown

validate_rpicam_source : Option RpiCamConfig → Option ConfigError
unfolding validate_rpicam
validate_rpicam_source none = some profile_rpicam_required
validate_rpicam_source (some r) = validate_rpicam r

unfoldable pub validate_profile_source : ProfileConfig → Option ConfigError
unfolding validate_rpicam_source validate_media_file_path source_kind
validate_profile_source p = elim (source_kind p.kind) [
  | file ↦
      check (is_some p.rpicam) profile_kind_file_with_rpicam
      ⨾ validate_media_file_path p.media_file_path
  | rpicam ↦
      check (not (str_eq p.media_file_path "")) profile_kind_rpicam_with_file
      ⨾ validate_rpicam_source p.rpicam
  | unknown ↦ some profile_kind_invalid
]

unfoldable pub validate_profile_encoding : String → Option ConfigError
validate_profile_encoding raw =
    check (not (str_eq raw "" || str_eq raw "H264" || str_eq raw "H265" || str_eq raw "MJPEG"))
      profile_encoding_invalid

unfoldable pub validate_video_source_token : String → Option ConfigError
validate_video_source_token raw =
    if str_eq raw ""
    then none
    else check (is_blank raw) profile_video_source_token_len
      ⨾ check (has_ascii_space (codes raw)) profile_video_source_token_ws

-- Whether a camera identifier was seen before.
unfoldable pub mem_int : ℤ → List ℤ → Bool
mem_int n [] = false
mem_int n (m ∷ ms) = eq_ℤ m n || mem_int n ms

-- The identifier that the loop over the profiles records for a profile.
unfoldable pub camera_of : ProfileConfig → Option ℤ
unfolding source_kind
camera_of p = elim (source_kind p.kind) [
  | rpicam ↦ elim p.rpicam [ none ↦ none | some r ↦ some r.camera_id ]
  | file ↦ none
  | unknown ↦ none
]

unfoldable pub seen_camera : Option ℤ → List ℤ → List ℤ
seen_camera none ids = ids
seen_camera (some id) ids = id ∷ ids

unfoldable pub validate_camera : Option ℤ → List ℤ → Option ConfigError
unfolding mem_int
validate_camera none ids = none
validate_camera (some id) ids = check (mem_int id ids) profile_rpicam_duplicate_camera_id

unfoldable pub validate_metadata_configs : List String → List MetadataConfig → Option ConfigError
validate_metadata_configs seen [] = none
validate_metadata_configs seen (m ∷ ms) =
    let rest = validate_metadata_configs (m.token ∷ seen) ms in
    check (is_blank m.token) metadata_token_required
    ⨾ check (mem_str m.token seen) metadata_token_duplicate
    ⨾ rest

module _ (go : Platform) where
  unfoldable pub snapshot_uri_accepted : Option Url → Bool
  snapshot_uri_accepted none = false
  snapshot_uri_accepted (some u) =
      (same_text u.scheme (codes "http") || same_text u.scheme (codes "https"))
      && not (is_nil u.host)

  unfoldable pub validate_snapshot_uri : String → Option ConfigError
  unfolding snapshot_uri_accepted
  validate_snapshot_uri raw =
      if str_eq raw ""
      then none
      else check (not (snapshot_uri_accepted (go.parse_url (codes raw))))
          profile_snapshot_uri_invalid

  -- validateProfile, with the tokens of the profiles before it.
  unfoldable pub validate_profile : List String → ProfileConfig → Option ConfigError
  unfolding validate_profile_source validate_profile_encoding validate_snapshot_uri
      validate_video_source_token
  validate_profile seen p =
      check (is_blank p.name) profile_field_required
      ⨾ check (is_blank p.token) profile_field_required
      ⨾ check (mem_str p.token seen) profile_token_duplicate
      ⨾ validate_profile_source p
      ⨾ validate_profile_encoding p.encoding
      ⨾ check (negative p.bitrate) profile_bitrate_negative
      ⨾ check (negative p.gop_length) profile_gop_negative
      ⨾ validate_snapshot_uri p.snapshot_uri
      ⨾ validate_video_source_token p.video_source_token

  unfoldable pub validate_profiles : List String → List ℤ → List ProfileConfig → Option ConfigError
  unfolding validate_profile validate_camera seen_camera camera_of
  validate_profiles seen ids [] = none
  validate_profiles seen ids (p ∷ ps) =
      let rest = validate_profiles (p.token ∷ seen) (seen_camera (camera_of p) ids) ps in
      validate_profile seen p ⨾ validate_camera (camera_of p) ids ⨾ rest

  unfoldable pub validate_media : MediaConfig → Option ConfigError
  unfolding validate_profiles validate_metadata_configs
  validate_media m =
      validate_profiles [] [] m.profiles ⨾ validate_metadata_configs [] m.metadata_configurations
