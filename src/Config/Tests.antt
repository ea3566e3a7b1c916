-- ===== src/Config/Tests.antt =====
-- Tests of the configuration on concrete inputs, and the theorems at these inputs.
use onvif_simulator.Prelude.{
  true, false, none, some, [], ◌∷◌, ◌≡◌, ◌≢◌, refl, map, mem_str, str_dec, if◌then◌else◌, ◌⊎◌, inl,
  ◌↔◌, All,
}
use onvif_simulator.Prelude.Int.{pos, ◌≤ℤ◌}
use onvif_simulator.Text.{
  codes, trim_space, is_blank, is_digit, begins_with, same_text, to_lower, has_ascii_space,
}
use onvif_simulator.Config.Errors.{◌⨾◌}
use onvif_simulator.Config.Validate.{validate}
use onvif_simulator.Config.Validate.Device.{
  validate_device, validate_network, validate_xaddr, fits_char,
}
use onvif_simulator.Config.Validate.Media.{validate_media}
use onvif_simulator.Config.Validate.Auth.{validate_auth}
use onvif_simulator.Config.Validate.Runtime.{validate_runtime, validate_events, validate_logging}
use onvif_simulator.Config.Validate.Ports.{validate_network_iff}
use onvif_simulator.Config.Validate.Uniqueness.{IsDistinct, validate-IsDistinct}
use onvif_simulator.Config.Update.{
  changed, refused, user_already_exists, profile_already_exists, metadata_already_exists, user_key,
  profile_key, metadata_key, add_user, remove_user, add_profile, remove_profile,
}
use onvif_simulator.Config.Update.Keyed.{has_key}
use onvif_simulator.Config.Update.Runtime.{
  add_metadata_config, remove_metadata_config, set_topic_enabled, set_hostname, set_dns,
  set_default_gateway,
}
use onvif_simulator.Config.Update.Safety.{IsSafe, changes-AreSafe}
use onvif_simulator.Config.Update.RoundTrip.{and_then, add-remove}
use onvif_simulator.Config.Store.{load, update}
use onvif_simulator.Config.Store.Cases.{Kept, whole}
use onvif_simulator.Config.Store.Success.{all_work, update_succeeds}
use onvif_simulator.Config.Store.Laws.{Committed, update_atomic}
use onvif_simulator.Config.Store.History.{
  IsLoadable, IsFair, run, saves, updates, first_runs, run-IsLoadable,
}
use onvif_simulator.Config.Samples.{
  toy_platform, toy_codec, fresh_config, full_config, admin, main_profile, analytics, no_faults,
  full_disk, toy_law,
}

fresh_config-valid : validate toy_platform fresh_config ≡ none
unfolding validate ◌⨾◌ validate_device is_blank fits_char is_digit begins_with same_text to_lower
    validate_network validate_media validate_auth validate_runtime str_dec mem_str validate_events
    validate_logging
fresh_config-valid = refl

full_config-valid : validate toy_platform full_config ≡ none
unfolding validate ◌⨾◌ validate_device is_blank fits_char is_digit begins_with same_text to_lower
    validate_network validate_media mem_str str_dec validate_auth has_ascii_space validate_runtime
    validate_events validate_logging
full_config-valid = refl

validate_network_iff_example : (validate_network toy_platform fresh_config.network ≡ none) ↔ (
    (pos 1 ≤ℤ pos 8080)
    × (pos 8080 ≤ℤ pos 65535)
    × (pos 0 ≤ℤ pos 8554)
    × (pos 8554 ≤ℤ pos 65535)
    × (pos 8554 ≢ pos 8080)
    × All (λ x. validate_xaddr toy_platform (trim_space (codes x)) ≡ none) [])
validate_network_iff_example = validate_network_iff toy_platform fresh_config.network

validate-IsDistinct_example :
    IsDistinct ("admin" ∷ [])
    × IsDistinct ("p0" ∷ "p1" ∷ [])
    × IsDistinct ("m0" ∷ [])
    × IsDistinct []
    × IsDistinct (map (λ t. t.name) full_config.events.topics)
validate-IsDistinct_example = validate-IsDistinct toy_platform full_config full_config-valid

changes-AreSafe_example :
    IsSafe toy_platform (remove_profile "p0" full_config)
    × IsSafe toy_platform (remove_metadata_config "p0" full_config)
    × IsSafe toy_platform (set_topic_enabled "p0" false full_config)
    × IsSafe toy_platform (set_hostname "p0" full_config)
    × IsSafe toy_platform (set_dns full_config.runtime.dns full_config)
    × IsSafe toy_platform (set_default_gateway full_config.runtime.default_gateway full_config)
changes-AreSafe_example =
    changes-AreSafe toy_platform full_config full_config-valid "p0" false full_config.runtime.dns
      full_config.runtime.default_gateway

add-remove_example :
    (and_then (add_user admin fresh_config) (remove_user "admin")
      ≡ (if has_key user_key "admin" [] then refused user_already_exists else changed fresh_config))
    × (and_then (add_profile main_profile fresh_config) (remove_profile "p0") ≡ (
        if has_key profile_key "p0" []
        then refused profile_already_exists
        else changed fresh_config))
    × (and_then (add_metadata_config analytics fresh_config) (remove_metadata_config "m0") ≡ (
        if has_key metadata_key "m0" []
        then refused metadata_already_exists
        else changed fresh_config))
add-remove_example = add-remove fresh_config admin main_profile analytics

update_atomic_example :
    Kept full_disk (update toy_platform toy_codec no_faults (some (remove_profile "p1")) full_disk)
    ⊎ Committed toy_platform toy_codec
        (remove_profile "p1")
        (load toy_platform toy_codec no_faults full_disk)
        full_disk
        (update toy_platform toy_codec no_faults (some (remove_profile "p1")) full_disk)
update_atomic_example =
    update_atomic toy_platform toy_codec toy_law no_faults (remove_profile "p1") full_disk

run-IsLoadable_example :
    IsLoadable toy_platform toy_codec
      (run toy_platform toy_codec
        (first_runs no_faults (record {
          uuid = "0a1b2c3d-0000-4000-8000-00000000000f";
          stat_works = true;
          rival = none;
          link_works = true;
        })
          ∷ updates no_faults (some (add_profile main_profile))
          ∷ saves no_faults none
          ∷ [])
        (record { config_file = none; temp_files = [] })).config_file
unfolding IsFair IsLoadable
run-IsLoadable_example =
    run-IsLoadable toy_platform toy_codec toy_law
      (first_runs no_faults (record {
        uuid = "0a1b2c3d-0000-4000-8000-00000000000f";
        stat_works = true;
        rival = none;
        link_works = true;
      })
        ∷ updates no_faults (some (add_profile main_profile))
        ∷ saves no_faults none
        ∷ [])
      (record { config_file = none; temp_files = [] }) (inl refl, (tt, (tt, tt))) (inl refl)

update_succeeds_example :
    update toy_platform toy_codec no_faults (some (set_hostname "cam")) full_disk ≡ (
      whole
          (record full_config { runtime = record full_config.runtime { hostname = "cam" } })
          full_disk,
      none,
    )
unfolding all_work load set_hostname validate ◌⨾◌ validate_device is_blank fits_char is_digit
    begins_with same_text to_lower validate_network validate_media mem_str str_dec validate_auth
    has_ascii_space validate_runtime validate_events validate_logging
update_succeeds_example =
    update_succeeds toy_platform toy_codec no_faults refl (set_hostname "cam") full_disk full_config
      (record full_config { runtime = record full_config.runtime { hostname = "cam" } })
      (record full_config { runtime = record full_config.runtime { hostname = "cam" } }) refl refl
      refl refl
