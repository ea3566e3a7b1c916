-- ===== src/Auth/UsernameToken.antt =====
-- username_token.go: the checks on a WS-Security UsernameToken. The token that was read off the
-- request, if any, is an input; a time is a number of nanoseconds since the zero time.
pub mod Skew
pub mod Accepted
pub mod Laws
use Prim.Native.String.{◌++◌}
use onvif_simulator.Prelude.{
  ℕ, suc, ◌+◌, ◌-◌, ◌*◌, Bool, true, false, ◌||◌, not, Option, none, some, String, List, [], ◌∷◌,
  ltb, leb, ◌==◌, if◌then◌else◌, str_eq,
}
use onvif_simulator.Prelude.Int.{ℤ, pos, negsuc, leb_ℤ, ltb_ℤ, pos_part}
use onvif_simulator.Text.{codes, trim_space, same_text}
use onvif_simulator.Auth.Access.{Principal}
use onvif_simulator.Auth.UserStore.{UserRecord, UserStore, find_user}
use onvif_simulator.Auth.NonceCache.{NonceCache, new_nonce_cache, add, five_minutes}
use onvif_simulator.Auth.Chain.{
  Sentinel, no_credentials, invalid_credentials, replayed_nonce, clock_skew, AuthError, plain,
  Attempt, passed, failed, challenge, is_authenticator_client_failure, new_challenge_error,
  status_unauthorized, fault_not_authorized,
}

-- What the package calls: time.Parse with a layout, the decoding of Base64, and
-- Base64(SHA1(nonce + created + password)).
pub record Library : Type 1 where
  pub Bytes : Type 0
  pub parse_time : String → String → Option ℕ
  pub base64_decode : String → Option Bytes
  pub sha1_base64 : Bytes → String → String → String

pub record UsernameToken : Type 0 where
  pub username : String
  pub password : String
  pub password_type : String
  pub nonce : String
  pub created : String

-- The outcome of readToken.
pub data ReadToken : Type 0 where
  token : UsernameToken → ReadToken
  unread : Sentinel → ReadToken

-- A request with the two readings of the clock that its checks make.
pub record TokenRequest : Type 0 where
  pub read : ReadToken
  pub checked_at : ℕ
  pub cached_at : ℕ

pub record UsernameTokenAuth : Type 0 where
  pub skew : ℕ
  pub allow_text : Bool
  pub cache : NonceCache

pub record UsernameTokenOptions : Type 0 where
  pub max_clock_skew : ℤ
  pub nonce_cache : Option NonceCache
  pub allow_password_text : Bool

unfoldable pub default_skew : ℤ → ℕ
default_skew d = if leb_ℤ d (pos 0) then five_minutes else pos_part d

unfoldable pub default_cache : ℕ → Option NonceCache → NonceCache
unfolding new_nonce_cache
default_cache skew none = new_nonce_cache (pos (2 * skew))
default_cache skew (some c) = c

unfoldable pub new_username_token_authenticator : UsernameTokenOptions → UsernameTokenAuth
unfolding default_skew default_cache
new_username_token_authenticator o = record {
  skew = default_skew o.max_clock_skew;
  allow_text = o.allow_password_text;
  cache = default_cache (default_skew o.max_clock_skew) o.nonce_cache;
}

abbrev pub max_duration : ℕ
max_duration = 9223372036854775807

-- time.Time.Sub: a difference that is no int64 becomes the nearest one.
unfoldable pub sub_time : ℕ → ℕ → ℤ
sub_time t u =
    if leb u t
    then pos (if ltb max_duration (t - u) then max_duration else t - u)
    else negsuc (if ltb max_duration (u - t - 1) then max_duration else u - t - 1)

-- The negation of the least int64 is itself.
unfoldable pub abs_duration : ℤ → ℤ
abs_duration (pos n) = pos n
abs_duration (negsuc n) = if n == max_duration then negsuc n else pos (suc n)

abbrev wss_username_token_profile : String
wss_username_token_profile =
    "http://docs.oasis-open.org/wss/2004/01/oasis-200401-wss-username-token-profile-1.0"

abbrev pub password_digest : String
password_digest = wss_username_token_profile ++ "#PasswordDigest"

abbrev pub password_text : String
password_text = wss_username_token_profile ++ "#PasswordText"

module _ (lib : Library) where
  unfoldable pub parse_ws_timestamp : String → Option ℕ
  parse_ws_timestamp s = elim (lib.parse_time "2006-01-02T15:04:05.999999999Z07:00" s) [
    | some t ↦ some t
    | none ↦ lib.parse_time "2006-01-02T15:04:05Z07:00" s
  ]

  unfoldable pub check_created : ℕ → ℕ → Option ℕ → Option Sentinel
  unfolding sub_time abs_duration
  check_created skew now none = some invalid_credentials
  check_created skew now (some created) =
      if ltb_ℤ (pos skew) (abs_duration (sub_time now created)) then some clock_skew else none

  unfoldable pub verify_timestamp : UsernameTokenAuth → ℕ → UsernameToken → Option Sentinel
  unfolding check_created parse_ws_timestamp
  verify_timestamp u now t =
      if str_eq t.created "" then none else check_created u.skew now (parse_ws_timestamp t.created)

  unfoldable pub verify_password_digest : String → String → String → String → Bool
  verify_password_digest given nonce created password = elim (lib.base64_decode nonce) [
    | none ↦ false
    | some n ↦ str_eq given (lib.sha1_base64 n created password)
  ]

  -- What the cache remembers of a token.
  abbrev pub nonce_key : UsernameToken → String
  nonce_key t = t.nonce ++ ("|" ++ t.created)

  unfoldable pub after_add :
      UsernameToken → UserRecord → NonceCache × Bool → NonceCache × Option Sentinel
  unfolding verify_password_digest
  after_add t r (c, false) = (c, some replayed_nonce)
  after_add t r (c, true) =
      if verify_password_digest t.password t.nonce t.created r.password
      then (c, none)
      else (c, some invalid_credentials)

  unfoldable pub verify_digest :
      UsernameToken → UserRecord → ℕ → NonceCache → NonceCache × Option Sentinel
  unfolding after_add add
  verify_digest t r now c =
      if str_eq t.nonce "" || str_eq t.created ""
      then (c, some invalid_credentials)
      else after_add t r (add (nonce_key t) now c)

  unfoldable pub is_digest : UsernameToken → Bool
  unfolding trim_space same_text
  is_digest t =
      same_text (trim_space (codes t.password_type)) []
      || same_text (trim_space (codes t.password_type)) (codes password_digest)

  -- The comparison takes constant time in the source.
  unfoldable pub verify_text : Bool → UsernameToken → UserRecord → Option Sentinel
  verify_text allow t r =
      if not allow
      then some invalid_credentials
      else if str_eq t.password r.password
      then none
      else some invalid_credentials

  unfoldable pub verify_password :
      UsernameTokenAuth → ℕ → UsernameToken → UserRecord → NonceCache × Option Sentinel
  unfolding is_digest verify_digest verify_text trim_space same_text
  verify_password u now t r =
      if is_digest t
      then verify_digest t r now u.cache
      else if same_text (trim_space (codes t.password_type)) (codes password_text)
      then (u.cache, verify_text u.allow_text t r)
      else (u.cache, some invalid_credentials)

  unfoldable pub after_password :
      UsernameTokenAuth → UserRecord → NonceCache × Option Sentinel → UsernameTokenAuth × Attempt
  after_password u r (c, some e) = (record u { cache = c }, failed (plain e))
  after_password u r (c, none) =
      (record u { cache = c }, passed (record { username = r.username; roles = r.roles }))

  unfoldable pub check_user :
      UsernameTokenAuth → ℕ → UsernameToken → Option UserRecord → UsernameTokenAuth × Attempt
  unfolding after_password verify_password
  check_user u now t none = (u, failed (plain invalid_credentials))
  check_user u now t (some r) = after_password u r (verify_password u now t r)

  unfoldable pub after_timestamp :
      UserStore
      → UsernameTokenAuth
      → ℕ
      → UsernameToken
      → Option Sentinel
      → UsernameTokenAuth × Attempt
  unfolding check_user find_user
  after_timestamp users u now t (some e) = (u, failed (plain e))
  after_timestamp users u now t none = check_user u now t (find_user t.username users)

  unfoldable pub check_token :
      UserStore → TokenRequest → UsernameTokenAuth → ReadToken → UsernameTokenAuth × Attempt
  unfolding after_timestamp verify_timestamp
  check_token users r u (unread e) = (u, failed (plain e))
  check_token users r u (token t) =
      after_timestamp users u r.cached_at t (verify_timestamp u r.checked_at t)

  -- What Authenticate makes of the outcome of authenticate.
  unfoldable pub wrap : UsernameTokenAuth × Attempt → UsernameTokenAuth × Attempt
  unfolding is_authenticator_client_failure new_challenge_error
  wrap (u, passed p) = (u, passed p)
  wrap (u, failed (plain e)) =
      if is_authenticator_client_failure e
      then (u, failed (new_challenge_error e status_unauthorized [] fault_not_authorized))
      else (u, failed (plain e))
  wrap (u, failed (challenge c)) = (u, failed (challenge c))

  -- usernameTokenAuth.Authenticate, on the users that the store holds at the time.
  unfoldable pub authenticate_token :
      UserStore → TokenRequest → UsernameTokenAuth → UsernameTokenAuth × Attempt
  unfolding check_token wrap
  authenticate_token users r u = wrap (check_token users r u r.read)
