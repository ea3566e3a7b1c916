-- ===== src/Auth/Chain/Laws.antt =====
-- Which requests the chain and the hook behind it let through.
use onvif_simulator.Prelude.{
  Bool, true, false, not, ◌||◌, ◌&&◌, Option, none, some, String, List, [], ◌∷◌, if◌then◌else◌, ◌≡◌,
  refl, ap, ◌∙◌, arith,
}
use onvif_simulator.Auth.Access.{Principal, AccessClass, allow, is_pre_auth}
use onvif_simulator.Auth.Chain.{
  Attempt, passed, failed, Authenticator, cause_of, is_no_credentials, Headers, first_winner,
  conclude, after_attempt, ask, authenticate, check_policy, authorize, AuthError, has_headers,
  remember,
}

-- The attempts of all authenticators on a request, as if none stopped the chain.
unfoldable pub attempts :
    {Request State : Type 0} → List (Authenticator Request State) → Request → State → List Attempt
attempts [] r s = []
attempts (a ∷ rest) r s = (a r s).1 ∷ attempts rest r (a r s).0

-- An attempt that does not stop the chain: it passed, or there was nothing to check.
unfoldable pub is_soft : Attempt → Bool
unfolding is_no_credentials cause_of
is_soft (passed p) = true
is_soft (failed e) = is_no_credentials (cause_of e)

unfoldable pub all_soft : List Attempt → Bool
unfolding is_soft
all_soft [] = true
all_soft (x ∷ xs) = is_soft x && all_soft xs

unfoldable pub first_passed : List Attempt → Option Principal
first_passed [] = none
first_passed (passed p ∷ xs) = some p
first_passed (failed e ∷ xs) = first_passed xs

-- The principal that the attempts of a chain speak for.
unfoldable pub verdict : List Attempt → Option Principal
unfolding all_soft first_passed
verdict xs = if all_soft xs then first_passed xs else none

unfoldable pub accepted : Attempt → Option Principal
accepted (passed p) = some p
accepted (failed e) = none

-- The hook returned no error.
unfoldable pub is_allowed : Option AuthError → Bool
is_allowed none = true
is_allowed (some e) = false

unfoldable pub grants : AccessClass → Option Principal → Bool
unfolding allow
grants class none = false
grants class (some p) = allow (some p) class

or_else : Option Principal → Option Principal → Option Principal
or_else none b = b
or_else (some a) b = some a

conclude-verdict :
    (w : Option Principal) (h : Headers)
    → accepted (conclude w h) ≡ (if all_soft [] then or_else w (first_passed []) else none)
unfolding conclude has_headers accepted all_soft first_passed or_else
conclude-verdict none h = ground arith
conclude-verdict (some w) h = refl

checked-grants :
    {State : Type 0} (class : AccessClass) (out : State × Attempt)
    → is_allowed (check_policy class out).1 ≡ grants class (accepted out.1)
unfolding check_policy is_allowed grants accepted
checked-grants class (s, passed p) = ground arith
checked-grants class (s, failed e) = refl

module _ (canonical_key : String → String) {State : Type 0} where
  -- The verdict of the attempts from here on, when `w` has won so far.
  abbrev Decides :
      (Option Principal → Headers → State → State × Attempt) → (State → List Attempt) → Type 0
  Decides rest xs =
      (w : Option Principal) (h : Headers) (s : State)
      → accepted (rest w h s).1
        ≡ (if all_soft (xs s) then or_else w (first_passed (xs s)) else none)

  turn :
      (rest : Option Principal → Headers → State → State × Attempt) (xs : State → List Attempt)
      → Decides rest xs
      → (w : Option Principal) (h : Headers) (out : State × Attempt)
      → accepted (after_attempt canonical_key rest w h out).1 ≡ (
          if all_soft (out.1 ∷ xs out.0) then or_else w (first_passed (out.1 ∷ xs out.0)) else none)
  unfolding accepted after_attempt all_soft is_soft first_passed first_winner or_else
  turn rest xs d none h (s, passed p) = d (some p) h s
  turn rest xs d (some w) h (s, passed p) = d (some w) h s
  turn rest xs d w h (s, failed e) = ground (arith, d w (remember canonical_key e h) s)

module _ (canonical_key : String → String) {Request : Type 0} {State : Type 0} where
  ask-verdict :
      (chain : List (Authenticator Request State)) (r : Request)
      → Decides canonical_key (ask canonical_key chain r) (attempts chain r)
  unfolding ask attempts
  ask-verdict [] r w h s = conclude-verdict w h
  ask-verdict (a ∷ rest) r w h s =
      turn canonical_key (ask canonical_key rest r) (attempts rest r) (ask-verdict rest r) w h
        (a r s)

  -- The chain lets a request through exactly if each of its authenticators accepts it or finds no
  -- credentials, and one accepts it; the principal is that of the first that does.
  pub authenticate-verdict :
      (chain : List (Authenticator Request State)) (r : Request) (s : State)
      → accepted (authenticate canonical_key chain r s).1 ≡ verdict (attempts chain r s)
  unfolding authenticate verdict or_else
  authenticate-verdict chain r s = ask-verdict chain r none [] s

  hook :
      (chain : List (Authenticator Request State)) (enabled : Bool) (r : Request)
      (class : AccessClass) (s : State)
      → is_allowed (authorize (authenticate canonical_key chain) enabled r class s).1 ≡ (
          not enabled
          || is_pre_auth class
          || grants class (accepted (authenticate canonical_key chain r s).1))
  unfolding authorize is_allowed
  hook chain enabled r class s =
      ground (arith, checked-grants class (authenticate canonical_key chain r s))

  -- A request for an operation of a class passes the hook of the services exactly if authentication
  -- is switched off, or the class needs none, or each authenticator accepts the request or finds no
  -- credentials, one accepts it, and the policy grants the class to the principal of the first that
  -- does.
  pub authorize-grants :
      (chain : List (Authenticator Request State)) (enabled : Bool) (r : Request)
      (class : AccessClass) (s : State)
      → is_allowed (authorize (authenticate canonical_key chain) enabled r class s).1
        ≡ (not enabled || is_pre_auth class || grants class (verdict (attempts chain r s)))
  authorize-grants chain enabled r class s =
      hook chain enabled r class s
      ∙ ap (λ v. not enabled || is_pre_auth class || grants class v)
          (authenticate-verdict chain r s)
