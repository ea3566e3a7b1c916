-- ===== src/Simulator/Lifecycle/Tests.antt =====
-- Starts, triggers and tokens at a concrete simulator.
use Prim.Native.String.{◌++◌}
use onvif_simulator.Prelude.{
  ℕ, zero, suc, String, map, true, false, some, [], ◌∷◌, ◌≡◌, refl, sym, ◌∙◌, ap, str_dec, mem_str,
}
use onvif_simulator.Prelude.Int.{pos}
use onvif_simulator.Text.{is_blank, is_digit, begins_with, same_text, to_lower, has_ascii_space}
use onvif_simulator.Config.Errors.{◌⨾◌}
use onvif_simulator.Config.Samples.{toy_platform, full_config}
use onvif_simulator.Config.Types.{Config}
use onvif_simulator.Config.Validate.{validate}
use onvif_simulator.Config.Validate.Device.{validate_device, validate_network, fits_char}
use onvif_simulator.Config.Validate.Media.{validate_media}
use onvif_simulator.Config.Validate.Auth.{validate_auth}
use onvif_simulator.Config.Validate.Runtime.{validate_runtime, validate_events, validate_logging}
use onvif_simulator.Simulator.Media.{VideoSource, Profile, video_sources, profiles}
use onvif_simulator.Simulator.Media.References.{video_sources_complete}
use onvif_simulator.Config.Validate.Uniqueness.{IsDistinct}
use onvif_simulator.Simulator.Samples.{toy_keys, ready}
use onvif_simulator.Simulator.Triggers.{Markup, Clock, motion, trigger}
use onvif_simulator.Simulator.Triggers.Laws.{
  video_event, motion_alarm, published_event, trigger-publishes,
}
use onvif_simulator.Simulator.Profiles.{
  generate_profile_token, effective_profiles, derive_mjpeg_siblings,
}
use onvif_simulator.Simulator.Profiles.Tokens.{generate_profile_token-free}
use onvif_simulator.Simulator.Lifecycle.{Machine, Addresses}
use onvif_simulator.Simulator.Lifecycle.Sources.{StartEnv, start_rtsp_server}
use onvif_simulator.Simulator.Lifecycle.Laws.{IsUnambiguous, start_rtsp_server-IsUnambiguous}
use onvif_simulator.Simulator.State.{assembled}

abbrev plain_markup : Markup
plain_markup = record { escape_string = λ s. s; format_time = λ t. "now" }

abbrev ticking : Clock
ticking = record { built_at = 1; published_at = 2; recorded_at = 3 }

trigger-publishes_example :
    trigger plain_markup ticking (motion "vs0" true) ready
    ≡ published_event ticking
        (video_event plain_markup 1 "tns1:VideoSource/MotionAlarm" "vs0" true)
        ready
unfolding assembled
trigger-publishes_example =
    trigger-publishes plain_markup ticking (motion "vs0" true)
      (video_event plain_markup 1 "tns1:VideoSource/MotionAlarm" "vs0" true) ready refl
      (motion_alarm "vs0" true)

-- A number as that many strokes.
abbrev strokes : ℕ → String
strokes zero = ""
strokes (suc n) = String.◌∷◌ "I" (strokes n)

-- How many strokes there are.
abbrev count_strokes : String → ℕ
count_strokes String.[] = 0
count_strokes (String.◌∷◌ c s) = suc (count_strokes s)

count-strokes : (n : ℕ) → count_strokes (strokes n) ≡ n
count-strokes zero = refl
count-strokes (suc n) = ap suc (count-strokes n)

strokes-injective : (a b : ℕ) → strokes a ≡ strokes b → a ≡ b
strokes-injective a b e = sym (count-strokes a) ∙ ap count_strokes e ∙ count-strokes b

generate_profile_token-free_example :
    (t : String) × (generate_profile_token strokes ("profile_a" ∷ "profile_a_II" ∷ []) "a" ≡ some t)
    × (mem_str t ("profile_a" ∷ "profile_a_II" ∷ []) ≡ false)
generate_profile_token-free_example =
    generate_profile_token-free strokes strokes-injective ("profile_a" ∷ "profile_a_II" ∷ []) "a"

-- The network works, and a source can be probed.
abbrev good_start : StartEnv
good_start = record {
  listen = some "[::]:8080";
  rtsp_start = true;
  register_source =
      λ p. some (record { codec = "H264"; width = pos 640; height = pos 480; fps = pos 25 });
  build_sibling = λ p. true;
  add_sibling = λ p. true;
  local_addr = "10.0.0.2";
}

abbrev toy_net : Addresses
toy_net = record {
  split_port = λ s. some "8080";
  atoi = λ s. some (pos 8080);
  itoa = λ n. "8080";
  join_host_port = λ h p. h ++ (":" ++ p);
}

abbrev idle : Machine Config toy_keys
idle = record {
  sim = ready;
  running = false;
  listen_addr = "";
  http_open = false;
  rtsp_open = false;
  discovery_open = false;
}

start_rtsp_server-IsUnambiguous_example : IsUnambiguous (start_rtsp_server good_start full_config)
unfolding validate ◌⨾◌ validate_device is_blank fits_char is_digit begins_with same_text to_lower
    validate_network validate_media mem_str str_dec validate_auth has_ascii_space validate_runtime
    validate_events validate_logging
start_rtsp_server-IsUnambiguous_example =
    start_rtsp_server-IsUnambiguous toy_platform good_start full_config refl

video_sources_complete_example :
    IsDistinct (map (λ (v : VideoSource). v.token) (video_sources full_config.media.profiles))
    × (mem_str "VS_DEFAULT"
          (map (λ (v : VideoSource). v.token) (video_sources full_config.media.profiles))
        ≡ mem_str "VS_DEFAULT" (
            map
              (λ (q : Profile). q.video_source.source_token)
              (profiles (
                effective_profiles full_config.media.profiles
                  (derive_mjpeg_siblings full_config.media.profiles)))))
video_sources_complete_example = video_sources_complete full_config.media.profiles "VS_DEFAULT"
