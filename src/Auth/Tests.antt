-- ===== src/Auth/Tests.antt =====
-- Tests of the policy and of the cache on concrete inputs, and the theorems at these inputs.
use onvif_simulator.Prelude.{
  ℕ, suc, ◌+◌, ◌≤◌, ◌⊎◌, ◌↔◌, String, none, true, false, not, ◌||◌, some, [], ◌∷◌, ◌≡◌, refl, subst,
  str_dec, mem_str, arith,
}
use onvif_simulator.Prelude.Int.{pos}
use onvif_simulator.Prelude.Dict.{lookup, insert, retain, count_if}
use onvif_simulator.Config.Types.{Config}
use onvif_simulator.Config.Store.{ok, load}
use onvif_simulator.Config.Samples.{
  toy_platform, toy_codec, toy_law, no_faults, full_disk, full_config, admin,
}
use onvif_simulator.Config.Errors.{◌⨾◌}
use onvif_simulator.Config.Validate.{validate}
use onvif_simulator.Config.Validate.Uniqueness.{IsDistinct}
use onvif_simulator.Auth.UserStore.{UserStore, upsert, sync_from_config, controller_call}
use onvif_simulator.Auth.UserStore.Laws.{IsMirror, sync_from_config-IsMirror}
use onvif_simulator.Auth.UserStore.Controller.{OfOutcome, IsInStep, controller_call-IsInStep}
use onvif_simulator.Config.Validate.Device.{validate_device, validate_network, fits_char}
use onvif_simulator.Config.Validate.Media.{validate_media}
use onvif_simulator.Config.Validate.Auth.{validate_auth}
use onvif_simulator.Config.Validate.Runtime.{validate_runtime, validate_events, validate_logging}
use onvif_simulator.Text.{
  trim_space, same_text, is_blank, is_digit, begins_with, to_lower, has_ascii_space,
}
use onvif_simulator.Auth.Access.{actuate, Principal, allow, role_level, is_pre_auth}
use onvif_simulator.Auth.Access.Classes.{
  class_in, device_operation_classes, media_operation_class, device_operation_class,
}
use onvif_simulator.Auth.Access.Laws.{
  some_role_grants, allow-some_role_grants, has_administrator, unlisted-has_administrator,
}
use onvif_simulator.Auth.Chain.{
  Authenticator, passed, failed, challenge, plain, no_credentials, invalid_credentials,
  authenticate, ask, authorize,
}
use onvif_simulator.Auth.Chain.Laws.{
  is_allowed, grants, verdict, attempts, authorize-grants, accepted,
}
use onvif_simulator.Auth.UsernameToken.{
  Library, UsernameToken, UsernameTokenAuth, TokenRequest, token, authenticate_token, check_created,
  max_duration, parse_ws_timestamp, is_digest,
}
use onvif_simulator.Auth.UsernameToken.Laws.{IsRefused, authenticate_token-refuses_replay}
use onvif_simulator.Auth.UsernameToken.Skew.{check_created_iff}
use onvif_simulator.Auth.NonceCache.{
  new_nonce_cache, add, add_pruned, size, prune, make_room, record_nonce,
}
use onvif_simulator.Auth.NonceCache.Laws.{IsSound, add_all, add_all-new_nonce_cache-IsSound}
use onvif_simulator.Auth.NonceCache.Replay.{add-refuses_replay}

-- A store that was filled from the configuration on disk.
abbrev live : UserStore
live = sync_from_config (some full_config) []

live-IsMirror :
    (c : Config)
    → load toy_platform toy_codec no_faults full_disk ≡ ok c
    → IsMirror live c.auth.users
unfolding OfOutcome load sync_from_config IsMirror IsDistinct mem_str validate ◌⨾◌ validate_device
    is_blank fits_char is_digit begins_with same_text to_lower validate_network validate_media
    str_dec validate_auth has_ascii_space validate_runtime validate_events validate_logging
live-IsMirror c l =
    subst (OfOutcome (λ y. IsMirror live y.auth.users)) l
      (sync_from_config-IsMirror full_config [] (refl, tt))

controller_call-IsInStep_example : IsInStep toy_platform toy_codec full_disk live (
    controller_call toy_platform toy_codec no_faults
      (upsert (record admin { role = "User" }))
      full_disk
      live)
controller_call-IsInStep_example =
    controller_call-IsInStep toy_platform toy_codec toy_law no_faults
      (upsert (record admin { role = "User" })) full_disk live live-IsMirror

abbrev operator : Principal
operator = record { username = "op"; roles = "Viewer" ∷ " onvif:Operator" ∷ [] }

-- A chain of two schemes: the first offers a challenge, the second passes an operator.
abbrev offers : Authenticator ℕ ℕ
offers r s = (
  s,
  failed (
      challenge (record {
        cause = no_credentials;
        status = 401;
        headers = ("Www-Authenticate", "Digest" ∷ []) ∷ [];
        subcode = "";
      })),
)

abbrev lets_in : Authenticator ℕ ℕ
lets_in r s = (suc s, passed operator)

abbrev refuses : Authenticator ℕ ℕ
refuses r s = (suc s, failed (plain invalid_credentials))

-- A hard error behind a challenge carries it, and stops the chain.
hard_error_after_challenge : authenticate (λ k. k) (offers ∷ refuses ∷ lets_in ∷ []) 0 7 ≡ (
  8,
  failed (
      challenge (record {
        cause = invalid_credentials;
        status = 401;
        headers = ("Www-Authenticate", "Digest" ∷ []) ∷ [];
        subcode = "ter:NotAuthorized";
      })),
)
unfolding authenticate ask
hard_error_after_challenge = refl

authorize-grants_example :
    is_allowed (authorize (authenticate (λ k. k) (offers ∷ lets_in ∷ [])) true 0 actuate 7).1 ≡ (
      not true
      || is_pre_auth actuate
      || grants actuate (verdict (attempts (offers ∷ lets_in ∷ []) 0 7)))
authorize-grants_example = authorize-grants (λ k. k) (offers ∷ lets_in ∷ []) true 0 actuate 7

-- Every time is 100, Base64 is the text itself, and a digest is the password.
abbrev toy_library : Library
toy_library = record {
  Bytes = String;
  parse_time = λ l s. some 100;
  base64_decode = some;
  sha1_base64 = λ n c p. p;
}

abbrev digest_token : UsernameToken
digest_token = record {
  username = "admin";
  password = "secret";
  password_type = "";
  nonce = "n1";
  created = "now";
}

abbrev gate : UsernameTokenAuth
gate = record { skew = 10; allow_text = false; cache = new_nonce_cache (pos 20) }

abbrev at : ℕ → TokenRequest
at n = record { read = token digest_token; checked_at = n; cached_at = n }

authenticate_token-refuses_replay_example : IsRefused 100 gate (at 99) (at 106) (
    accepted
      (authenticate_token toy_library live
        (at 106)
        (authenticate_token toy_library live (at 99) gate).0).1)
unfolding parse_ws_timestamp is_digest new_nonce_cache add_all accepted authenticate_token str_dec
    sync_from_config
authenticate_token-refuses_replay_example =
    authenticate_token-refuses_replay toy_library digest_token 100 refl refl live live (at 99)
      (at 106) gate (record { username = "admin"; roles = "onvif:Administrator" ∷ [] }) refl refl
      (add_all-new_nonce_cache-IsSound (pos 20) []) refl (omega arith) refl

check_created_iff_example :
    check_created toy_library 10 5 (some 100) ≡ none
    ↔ ((5 ≤ 100 + 10) × (100 ≤ 5 + 10)) ⊎ (5 + suc max_duration ≤ 100)
check_created_iff_example = check_created_iff toy_library 10 5 100 (omega arith)

-- An operator, whose role is written with a blank before it, may create a profile and may not
-- reboot the device.
operator_creates :
    (allow (some operator) (media_operation_class "CreateProfile") ≡ true)
    × (allow (some operator) (device_operation_class "SystemReboot") ≡ false)
unfolding allow role_level trim_space same_text str_dec media_operation_class device_operation_class
operator_creates = (refl, refl)

allow-some_role_grants_example :
    allow (some operator) actuate ≡ (is_pre_auth actuate || some_role_grants actuate operator.roles)
allow-some_role_grants_example = allow-some_role_grants (some operator) actuate

unlisted-has_administrator_example :
    allow (some operator) (class_in device_operation_classes "GetStorage")
    ≡ has_administrator operator.roles
unfolding lookup str_dec device_operation_classes
unlisted-has_administrator_example =
    unlisted-has_administrator device_operation_classes "GetStorage" operator refl

add_all-new_nonce_cache-IsSound_example :
    IsSound (add_all (("n1", 5) ∷ ("n2", 6) ∷ ("n1", 7) ∷ []) (new_nonce_cache (pos 10)))
add_all-new_nonce_cache-IsSound_example =
    add_all-new_nonce_cache-IsSound (pos 10) (("n1", 5) ∷ ("n2", 6) ∷ ("n1", 7) ∷ [])

add-refuses_replay_example :
    (add "n1" 15 (
      add_all
        (("n3", 9) ∷ ("n1", 12) ∷ [])
        (add "n1" 5 (add_all (("n2", 4) ∷ []) (new_nonce_cache (pos 10)))).0)).1
    ≡ false
unfolding add add_pruned prune new_nonce_cache lookup insert retain str_dec size count_if make_room
    record_nonce add_all
add-refuses_replay_example =
    add-refuses_replay "n1" 5 15 (("n3", 9) ∷ ("n1", 12) ∷ [])
      (add_all (("n2", 4) ∷ []) (new_nonce_cache (pos 10)))
      (add_all-new_nonce_cache-IsSound (pos 10) (("n2", 4) ∷ [])) refl (omega arith)
      (omega arith, (omega arith, tt)) (omega arith)
