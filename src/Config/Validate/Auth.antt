-- ===== src/Config/Validate/Auth.antt =====
-- validateAuth, validateUser, validateDigest and validateJWT.
use onvif_simulator.Prelude.{
  Bool, true, false, ◌&&◌, ◌||◌, not, Option, none, some, String, List, [], ◌∷◌, map, if◌then◌else◌,
  str_eq, mem_str,
}
use onvif_simulator.Text.{codes, trim_space, is_blank, to_lower, begins_with, has_ascii_space}
use onvif_simulator.Config.Types.{UserConfig, DigestConfig, JwtConfig, AuthConfig}
use onvif_simulator.Config.Platform.{Platform}
use onvif_simulator.Config.Errors.{
  ConfigError, check, ◌⨾◌, check_all, auth_users_required, auth_user_incomplete, auth_role_reserved,
  auth_role_whitespace, auth_username_duplicate, auth_digest_algorithm, auth_digest_nonce_ttl,
  auth_jwt_algorithm, auth_jwt_clock_skew, auth_jwt_key_material,
}
use onvif_simulator.Config.Validate.Media.{is_some}

abbrev pub is_nil {ℓ} : {A : Type ℓ} → List A → Bool
is_nil [] = true
is_nil (x ∷ xs) = false

-- validateUser, with the user names seen before.
unfoldable pub validate_user : List String → UserConfig → Option ConfigError
validate_user seen u =
    check (is_blank u.username || is_blank u.password || is_blank u.role) auth_user_incomplete
    ⨾ check (begins_with (map to_lower (trim_space (codes u.role))) (codes "onvif:"))
        auth_role_reserved
    ⨾ check (has_ascii_space (codes u.role)) auth_role_whitespace
    ⨾ check (mem_str u.username seen) auth_username_duplicate

unfoldable pub validate_users : List String → List UserConfig → Option ConfigError
unfolding validate_user
validate_users seen [] = none
validate_users seen (u ∷ us) =
    let rest = validate_users (u.username ∷ seen) us in validate_user seen u ⨾ rest

abbrev valid_digest_algs : List String
valid_digest_algs = "MD5" ∷ "SHA-256" ∷ []

abbrev valid_jwt_algs : List String
valid_jwt_algs = "RS256" ∷ "RS384" ∷ "RS512" ∷ "ES256" ∷ "ES384" ∷ "ES512" ∷ []

module _ (go : Platform) where
  -- A duration that is empty or that time.ParseDuration takes.
  unfoldable pub duration_or_empty : String → Bool
  duration_or_empty s = str_eq s "" || is_some (go.parse_duration s)

  unfoldable pub validate_digest : DigestConfig → Option ConfigError
  unfolding duration_or_empty
  validate_digest d =
      check_all (λ alg. check (not (mem_str alg valid_digest_algs)) auth_digest_algorithm)
        d.algorithms
      ⨾ check (not (duration_or_empty d.nonce_ttl)) auth_digest_nonce_ttl

  unfoldable pub validate_jwt : JwtConfig → Option ConfigError
  unfolding duration_or_empty
  validate_jwt j =
      check_all (λ alg. check (not (mem_str alg valid_jwt_algs)) auth_jwt_algorithm) j.algorithms
      ⨾ check (not (duration_or_empty j.clock_skew)) auth_jwt_clock_skew
      ⨾ check (j.enabled && str_eq j.jwks_url "" && is_nil j.public_key_pem) auth_jwt_key_material

  unfoldable pub validate_auth : AuthConfig → Option ConfigError
  unfolding validate_users validate_digest validate_jwt
  validate_auth a =
      if not a.enabled && is_nil a.users && not a.jwt.enabled
      then none
      else if a.enabled && is_nil a.users && not a.jwt.enabled
      then some auth_users_required
      else validate_users [] a.users ⨾ validate_digest a.digest ⨾ validate_jwt a.jwt
