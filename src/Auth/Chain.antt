-- ===== src/Auth/Chain.antt =====
-- auth.go: the errors of authentication, the challenge that wraps one, and the chain that asks the
-- authenticators in turn; adapter.go and simulator/auth.go: the hooks that put the policy behind it.
pub mod Laws
use onvif_simulator.Prelude.{
  ℕ, Bool, true, false, not, ◌||◌, Option, none, some, String, List, [], ◌∷◌, ◌++◌, ◌==◌,
  if◌then◌else◌,
}
use onvif_simulator.Prelude.Dict.{Dict, lookup, insert}
use onvif_simulator.Auth.Access.{Principal, AccessClass, allow, is_pre_auth}

pub data Sentinel : Type 0 where
  no_credentials invalid_credentials stale_nonce replayed_nonce clock_skew : Sentinel
  token_malformed token_expired token_signature audience_mismatch issuer_mismatch : Sentinel
  insecure_transport forbidden : Sentinel
  other : String → Sentinel

-- http.Header. Its order over the keys is not observed.
abbrev pub Headers : Type 0
Headers = Dict (List String)

pub record Challenge : Type 0 where
  pub cause : Sentinel
  pub status : ℕ
  pub headers : Headers
  pub subcode : String

-- An error that is a *ChallengeError, or one that is not.
pub data AuthError : Type 0 where
  plain : Sentinel → AuthError
  challenge : Challenge → AuthError

pub data Attempt : Type 0 where
  passed : Principal → Attempt
  failed : AuthError → Attempt

-- An authenticator reads a request and may keep a state, as the ones with a cache of nonces do.
abbrev pub Authenticator : Type 0 → Type 0 → Type 0
Authenticator Request State = Request → State → State × Attempt

-- errors.Is looks through a challenge.
unfoldable pub cause_of : AuthError → Sentinel
cause_of (plain s) = s
cause_of (challenge c) = c.cause

abbrev pub status_unauthorized : ℕ
status_unauthorized = 401

abbrev pub status_forbidden : ℕ
status_forbidden = 403

abbrev pub fault_not_authorized : String
fault_not_authorized = "ter:NotAuthorized"

abbrev pub fault_operation_prohibited : String
fault_operation_prohibited = "ter:OperationProhibited"

unfoldable pub new_challenge_error : Sentinel → ℕ → Headers → String → AuthError
new_challenge_error cause status h subcode = challenge (record {
  cause = cause;
  status = if status == 0 then status_unauthorized else status;
  headers = h;
  subcode = subcode;
})

unfoldable pub is_no_credentials : Sentinel → Bool
is_no_credentials no_credentials = true
is_no_credentials invalid_credentials = false
is_no_credentials stale_nonce = false
is_no_credentials replayed_nonce = false
is_no_credentials clock_skew = false
is_no_credentials token_malformed = false
is_no_credentials token_expired = false
is_no_credentials token_signature = false
is_no_credentials audience_mismatch = false
is_no_credentials issuer_mismatch = false
is_no_credentials insecure_transport = false
is_no_credentials forbidden = false
is_no_credentials (other s) = false

unfoldable pub is_authenticator_client_failure : Sentinel → Bool
is_authenticator_client_failure no_credentials = false
is_authenticator_client_failure invalid_credentials = true
is_authenticator_client_failure stale_nonce = true
is_authenticator_client_failure replayed_nonce = true
is_authenticator_client_failure clock_skew = true
is_authenticator_client_failure token_malformed = true
is_authenticator_client_failure token_expired = true
is_authenticator_client_failure token_signature = true
is_authenticator_client_failure audience_mismatch = true
is_authenticator_client_failure issuer_mismatch = true
is_authenticator_client_failure insecure_transport = true
is_authenticator_client_failure forbidden = false
is_authenticator_client_failure (other s) = false

-- len(h) > 0
unfoldable pub has_headers : Headers → Bool
has_headers [] = false
has_headers (h ∷ hs) = true

unfoldable pub values : String → Headers → List String
unfolding lookup
values k h = elim (lookup k h) [ none ↦ [] | some vs ↦ vs ]

unfoldable pub first_winner : Option Principal → Principal → Option Principal
first_winner none p = some p
first_winner (some w) p = some w

-- What follows the loop.
unfoldable pub conclude : Option Principal → Headers → Attempt
unfolding has_headers new_challenge_error
conclude (some w) combined = passed w
conclude none combined =
    if has_headers combined
    then failed
        (new_challenge_error no_credentials status_unauthorized combined fault_not_authorized)
    else failed (plain no_credentials)

module _ (canonical_key : String → String) where
  -- http.Header.Add
  unfoldable pub add_header : String → String → Headers → Headers
  unfolding insert values
  add_header k v h = insert (canonical_key k) (values (canonical_key k) h ++ (v ∷ [])) h

  unfoldable pub add_values : String → List String → Headers → Headers
  unfolding add_header
  add_values k [] h = h
  add_values k (v ∷ vs) h = add_values k vs (add_header k v h)

  -- The copies that mergeHeaders and cloneHeaders make are the values themselves.
  unfoldable pub merge_headers : Headers → Headers → Headers
  unfolding add_values
  merge_headers dst [] = dst
  merge_headers dst ((k, vs) ∷ src) = merge_headers (add_values k vs dst) src

  -- What a missing credential adds to the headers of the final answer.
  unfoldable pub remember : AuthError → Headers → Headers
  unfolding merge_headers
  remember (plain s) combined = combined
  remember (challenge c) combined = merge_headers combined c.headers

  -- A hard error, with the challenges of the schemes asked before it.
  unfoldable pub with_challenges : Headers → AuthError → AuthError
  unfolding merge_headers is_authenticator_client_failure new_challenge_error
  with_challenges combined (challenge c) =
      challenge (record c { headers = merge_headers combined c.headers })
  with_challenges combined (plain s) =
      if is_authenticator_client_failure s
      then new_challenge_error s status_unauthorized combined fault_not_authorized
      else plain s

  unfoldable pub hard_error : Headers → AuthError → AuthError
  unfolding has_headers with_challenges
  hard_error combined e = if has_headers combined then with_challenges combined e else e

  module _ {State : Type 0} where
    -- One turn of the loop, given the turns behind it.
    unfoldable pub after_attempt :
        (Option Principal → Headers → State → State × Attempt)
        → Option Principal
        → Headers
        → State × Attempt
        → State × Attempt
    unfolding first_winner is_no_credentials cause_of remember hard_error
    after_attempt rest winner combined (s, passed p) = rest (first_winner winner p) combined s
    after_attempt rest winner combined (s, failed e) =
        let next = rest winner (remember e combined) s in
        if is_no_credentials (cause_of e) then next else (s, failed (hard_error combined e))

  module _ {Request : Type 0} {State : Type 0} where
    unfoldable pub ask :
        List (Authenticator Request State)
        → Request
        → Option Principal
        → Headers
        → State
        → State × Attempt
    unfolding conclude after_attempt
    ask [] r winner combined s = (s, conclude winner combined)
    ask (a ∷ rest) r winner combined s = after_attempt (ask rest r) winner combined (a r s)

    -- chain.Authenticate
    unfoldable pub authenticate : List (Authenticator Request State) → Authenticator Request State
    unfolding ask
    authenticate chain r s = ask chain r none [] s

-- The policy behind an attempt.
unfoldable pub check_policy :
    {State : Type 0} → AccessClass → State × Attempt → State × Option AuthError
unfolding allow new_challenge_error
check_policy class (s, failed e) = (s, some e)
check_policy class (s, passed p) =
    if allow (some p) class
    then (s, none)
    else (s, some (new_challenge_error forbidden status_forbidden [] fault_operation_prohibited))

module _ {Request : Type 0} {State : Type 0} where
  -- NewOperationAuthorizer, with the default policy.
  unfoldable pub operation_authorizer :
      Authenticator Request State
      → (String → AccessClass)
      → String
      → Request
      → State
      → State × Option AuthError
  unfolding check_policy is_pre_auth
  operation_authorizer auth classify op r s =
      let checked = check_policy (classify op) (auth r s) in
      if is_pre_auth (classify op) then (s, none) else checked

  -- Simulator.authorize; the chain and the flag are read together.
  unfoldable pub authorize :
      Authenticator Request State → Bool → Request → AccessClass → State → State × Option AuthError
  unfolding check_policy is_pre_auth
  authorize chain enabled r class s =
      let checked = check_policy class (chain r s) in
      if not enabled then (s, none) else if is_pre_auth class then (s, none) else checked
