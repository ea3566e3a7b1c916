-- ===== src/Simulator/Tests.antt =====
-- The broker's configuration at a concrete configuration of the simulator.
use onvif_simulator.Prelude.{ℕ, true, false, [], ◌∷◌, take, ◌≡◌, refl, str_dec, mem_str, arith}
use onvif_simulator.Prelude.Int.{pos}
use onvif_simulator.Config.Errors.{◌⨾◌}
use onvif_simulator.Config.Validate.{validate}
use onvif_simulator.Config.Validate.Device.{validate_device, validate_network, fits_char}
use onvif_simulator.Config.Validate.Media.{validate_media}
use onvif_simulator.Config.Validate.Auth.{validate_auth}
use onvif_simulator.Config.Validate.Runtime.{validate_runtime, validate_events, validate_logging}
use onvif_simulator.Text.{
  is_blank, begins_with, same_text, to_lower, has_ascii_space, to_upper, is_digit,
}
use onvif_simulator.Config.Samples.{
  toy_platform, toy_codec, toy_law, no_faults, full_disk, full_config, admin,
}
use onvif_simulator.Config.Store.{load}
use onvif_simulator.Config.Types.{Config}
use onvif_simulator.Config.Validate.Runtime.{is_valid_subscription_timeout}
use onvif_simulator.Config.Update.Runtime.{set_topic_enabled}
use onvif_simulator.Simulator.{broker_config_from_config}
use onvif_simulator.Simulator.Laws.{IsSeen, set_topic_enabled-IsSeen}
use onvif_simulator.Simulator.Ring.{EventRecord, new_event_ring, snapshot}
use onvif_simulator.Simulator.Ring.Laws.{push_all, newest_first, snapshot-push_all-new}
use onvif_simulator.Simulator.AuthChain.{build_auth_chain}
use onvif_simulator.Simulator.State.{new_simulator, new_of, assembled}
use onvif_simulator.Simulator.State.Laws.{IsInStep}
use onvif_simulator.Simulator.Samples.{toy_keys, calm, full_disk_env, ready}
use onvif_simulator.Simulator.Mutators.{
  planned, run_command, upserts_user, sets_hostname, removes_user,
}
use onvif_simulator.Simulator.Mutators.Changes.{IsOutcome}
use onvif_simulator.Simulator.Mutators.Outcome.{run_command-IsOutcome}
use onvif_simulator.Simulator.Mutators.History.{run_all, run_all-new_simulator-IsInStep}

abbrev iso_config : Config
iso_config = record full_config {
  events = record full_config.events { subscription_timeout = "PT30M" };
}

-- Half an hour in ISO form passes the validation and becomes the default hour.
half_an_hour_accepted : is_valid_subscription_timeout toy_platform "PT30M" ≡ true
unfolding is_valid_subscription_timeout str_dec to_upper is_digit
half_an_hour_accepted = refl

half_an_hour_ignored :
    (broker_config_from_config toy_platform iso_config).subscription_timeout ≡ pos 3600000000000
unfolding broker_config_from_config str_dec
half_an_hour_ignored = refl

set_topic_enabled-IsSeen_example :
    IsSeen toy_platform full_config "tns1:VideoSource/MotionAlarm" false
      "tns1:Device/Trigger/DigitalInput"
      (set_topic_enabled "tns1:VideoSource/MotionAlarm" false full_config)
set_topic_enabled-IsSeen_example =
    set_topic_enabled-IsSeen toy_platform full_config "tns1:VideoSource/MotionAlarm" false
      "tns1:Device/Trigger/DigitalInput"

abbrev event : ℕ → EventRecord
event n = record { time = n; topic = "t"; source = ""; payload = "" }

-- Three events into a ring of two.
snapshot-push_all-new_example :
    snapshot (push_all (event 1 ∷ event 2 ∷ event 3 ∷ []) (new_event_ring 2))
    ≡ take 2 (newest_first (event 1 ∷ event 2 ∷ event 3 ∷ []) [])
snapshot-push_all-new_example =
    snapshot-push_all-new 2 (event 1 ∷ event 2 ∷ event 3 ∷ []) (omega arith)

run_command-IsOutcome_example :
    IsOutcome toy_platform toy_codec no_faults
      (planned (sets_hostname "cam"))
      (load toy_platform toy_codec no_faults full_disk)
      ready
      (run_command toy_platform toy_codec toy_keys (λ n. "7") (calm 1) (sets_hostname "cam") ready)
unfolding assembled
run_command-IsOutcome_example =
    run_command-IsOutcome toy_platform toy_codec toy_law (λ n. "7") (calm 1) (sets_hostname "cam")
      ready

run_all-new_simulator-IsInStep_example : IsInStep toy_platform toy_codec (
    run_all toy_platform toy_codec
      (λ n. "7")
      ((calm 1, upserts_user (record admin { role = "User" }))
        ∷ (full_disk_env, sets_hostname "cam")
        ∷ (calm 3, removes_user "nobody")
        ∷ [])
      ready)
unfolding new_simulator new_of load validate ◌⨾◌ validate_device is_blank fits_char is_digit
    begins_with same_text to_lower validate_network validate_media mem_str str_dec validate_auth
    has_ascii_space validate_runtime validate_events validate_logging build_auth_chain
run_all-new_simulator-IsInStep_example =
    run_all-new_simulator-IsInStep toy_platform toy_codec toy_law (λ n. "7") (pos 0) no_faults
      full_disk ready
      ((calm 1, upserts_user (record admin { role = "User" }))
        ∷ (full_disk_env, sets_hostname "cam")
        ∷ (calm 3, removes_user "nobody")
        ∷ [])
      refl (refl, (refl, (refl, tt)))
