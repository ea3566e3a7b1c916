-- ===== src/Config/Errors.antt =====
-- The sentinel errors of internal/config, and the chains of checks that return the first error.
use onvif_simulator.Prelude.{Bool, true, false, Option, none, some, ◌≡◌, refl, arith, List, [], ◌∷◌}

pub data ConfigError : Type 0 where
  invalid_version nil_config : ConfigError
  device_uuid_required device_uuid_invalid device_field_required : ConfigError
  scope_entry_empty scope_unparsable scope_not_absolute scope_onvif_prefix scope_http_host :
      ConfigError
  network_port_invalid network_rtsp_port_invalid network_port_conflict : ConfigError
  xaddr_field_empty xaddr_invalid xaddr_scheme xaddr_host : ConfigError
  profile_field_required profile_token_duplicate profile_encoding_invalid : ConfigError
  profile_kind_invalid profile_kind_file_with_rpicam profile_kind_rpicam_with_file : ConfigError
  profile_rpicam_required profile_rpicam_field_range profile_rpicam_extra_args : ConfigError
  profile_rpicam_duplicate_camera_id profile_media_file_path_blank : ConfigError
  profile_bitrate_negative profile_gop_negative profile_snapshot_uri_invalid : ConfigError
  profile_video_source_token_ws profile_video_source_token_len : ConfigError
  metadata_token_required metadata_token_duplicate : ConfigError
  auth_users_required auth_user_incomplete auth_role_reserved auth_role_whitespace : ConfigError
  auth_username_duplicate auth_digest_algorithm auth_digest_nonce_ttl : ConfigError
  auth_jwt_algorithm auth_jwt_clock_skew auth_jwt_key_material : ConfigError
  discovery_mode_invalid network_protocol_name_empty : ConfigError
  network_interface_token_required network_interface_token_duplicate : ConfigError
  network_interface_mtu network_interface_hw_address network_interface_cidr : ConfigError
  manual_date_time_invalid : ConfigError
  events_subscription_timeout_invalid events_topic_name_empty events_topic_name_duplicate :
      ConfigError
  logging_level_invalid : ConfigError

-- if bad { return e }
abbrev pub check : Bool → ConfigError → Option ConfigError
check true e = some e
check false e = none

-- if err := first; err != nil { return err }; return second
infixr 20 ◌⨾◌
unfoldable pub ◌⨾◌ : Option ConfigError → Option ConfigError → Option ConfigError
some e ⨾ r = some e
none ⨾ r = r

-- The first error of a loop over a slice.
abbrev pub check_all {ℓ} : {A : Type ℓ} → (A → Option ConfigError) → List A → Option ConfigError
check_all f [] = none
check_all f (x ∷ xs) = let rest = check_all f xs in f x ⨾ rest

pub check-none : (b : Bool) (e : ConfigError) → check b e ≡ none → b ≡ false
check-none true e h = absurd (ground (arith, h))
check-none false e h = refl

-- Two chains, each as strict as the other in every place.
pub check_mono :
    (a b : Bool) (e d : ConfigError) → (b ≡ true → a ≡ true) → check a e ≡ none → check b d ≡ none
check_mono a true e d h k = absurd (ground (arith, h refl, k))
check_mono a false e d h k = refl

pub seq-none : (a b : Option ConfigError) → a ⨾ b ≡ none → (a ≡ none) × (b ≡ none)
unfolding ◌⨾◌
seq-none none b h = (refl, h)
seq-none (some e) b h = absurd (ground (arith, h))

pub seq_mono :
    (a b c d : Option ConfigError)
    → (a ≡ none → c ≡ none)
    → (b ≡ none → d ≡ none)
    → a ⨾ b ≡ none
    → c ⨾ d ≡ none
unfolding ◌⨾◌
seq_mono none b none d f g h = g h
seq_mono none b (some e) d f g h = absurd (ground (arith, f refl))
seq_mono (some e) b c d f g h = absurd (ground (arith, h))

pub seq-first : (a b : Option ConfigError) → a ≡ none → a ⨾ b ≡ b
unfolding ◌⨾◌
seq-first none b h = refl
seq-first (some e) b h = absurd (ground (arith, h))

pub seq-last : (a b : Option ConfigError) → b ≡ none → a ⨾ b ≡ a
unfolding ◌⨾◌
seq-last none b h = h
seq-last (some e) b h = refl
