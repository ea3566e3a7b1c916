-- ===== src/Auth/UsernameToken/Laws.antt =====
-- A digest that was accepted is accepted once, but for two cases at the edges of the clock.
use onvif_simulator.Prelude.{
  ℕ, ◌+◌, ◌*◌, ◌≤◌, ◌<◌, true, false, Option, none, some, ◌≡◌, sym, ap, subst, ◌∙◌, arith,
  Option-cases, inl, inr, ◌⊎◌, suc,
}
use onvif_simulator.Auth.Access.{Principal}
use onvif_simulator.Auth.UserStore.{UserStore}
use onvif_simulator.Auth.NonceCache.{add}
use onvif_simulator.Auth.NonceCache.Laws.{IsSound}
use onvif_simulator.Auth.NonceCache.Replay.{add-refuses_again}
use onvif_simulator.Auth.Chain.{Attempt}
use onvif_simulator.Auth.Chain.Laws.{accepted}
use onvif_simulator.Auth.UsernameToken.{
  Library, UsernameToken, ReadToken, token, TokenRequest, UsernameTokenAuth, max_duration,
  parse_ws_timestamp, verify_timestamp, nonce_key, is_digest, check_token, wrap, authenticate_token,
}
use onvif_simulator.Auth.UsernameToken.Skew.{check_created-recent, check_created-near}
use onvif_simulator.Auth.UsernameToken.Accepted.{
  Took, after_timestamp-Took, wrap-same, refused_timestamp, verify_timestamp-parsed,
}

le_or_gt : (a b : ℕ) → (a ≤ b) ⊎ (b < a)
le_or_gt a b = ground arith

-- A replay is refused, or its token is 2^63 nanoseconds or more ahead of the clock, or the cache
-- was asked after the nonce had ended there although the check of the time had come before.
abbrev pub IsRefused :
    ℕ → UsernameTokenAuth → TokenRequest → TokenRequest → Option Principal → Type 0
IsRefused created u r r' a =
    (a ≡ none)
    ⊎ ((r.checked_at + suc max_duration ≤ created)
        ⊎ ((r.cached_at + u.cache.ttl < r'.cached_at)
            × (r'.checked_at ≤ r.checked_at + u.cache.ttl)))

module _ (lib : Library) where
  module _ (t : UsernameToken) (created : ℕ)
      (parsed : parse_ws_timestamp lib t.created ≡ some created)
      (digest : is_digest lib t ≡ true) where
    seen_again :
        (u : UsernameTokenAuth) (cached cached' : ℕ)
        → IsSound u.cache
        → cached' ≤ cached + u.cache.ttl
        → (o : UsernameTokenAuth × Attempt) → Took lib t cached u o
        → (add (nonce_key lib t) cached' o.0.cache).1 ≡ false
    seen_again u cached cached' sound soon o (ne, took, state) =
        subst (λ (q : UsernameTokenAuth). (add (nonce_key lib t) cached' q.cache).1 ≡ false)
          (sym state) (add-refuses_again (nonce_key lib t) cached cached' u.cache sound took soon)

    -- Two times at which the token passes the check are at most two skews apart.
    checked_within :
        (u : UsernameTokenAuth) (checked cached checked' : ℕ)
        → u.cache.ttl ≡ 2 * u.skew
        → u.skew < max_duration
        → created ≤ checked + max_duration
        → verify_timestamp lib u checked t ≡ none
        → (o : UsernameTokenAuth × Attempt) → Took lib t cached u o
        → verify_timestamp lib o.0 checked' t ≡ none
        → checked' ≤ checked + u.cache.ttl
    unfolding verify_timestamp
    checked_within u checked cached checked' ttl small near v o (ne, took, state) v' =
        let early =
          check_created-near lib u.skew checked created near
            (sym (verify_timestamp-parsed lib u checked t created ne parsed) ∙ v) in
        let late = check_created-recent lib u.skew checked' created small (
          sym (verify_timestamp-parsed lib u checked' t created ne parsed)
          ∙ subst (λ q. verify_timestamp lib q checked' t ≡ none) state v') in
        omega (arith, early, late, ttl)

    check_token-again :
        (users users' : UserStore) (r r' : TokenRequest) (u : UsernameTokenAuth) (p : Principal)
        → IsSound u.cache
        → u.cache.ttl ≡ 2 * u.skew
        → u.skew < max_duration
        → accepted (check_token lib users r u (token t)).1 ≡ some p
        → IsRefused created u r r' (
            accepted
              (check_token lib users' r' (check_token lib users r u (token t)).0 (token t)).1)
    unfolding check_token
    check_token-again users users' r r' u p sound ttl small h =
        let o = check_token lib users r u (token t) in
        let (v, took) =
          after_timestamp-Took lib users u r.cached_at t (verify_timestamp lib u r.checked_at t) p
            digest h in
        let v' = verify_timestamp lib o.0 r'.checked_at t in
        elim (le_or_gt r'.cached_at (r.cached_at + u.cache.ttl)) [
          | inl soon ↦ inl (
              refused_timestamp lib users' o.0 r'.cached_at t v' digest
                (λ w. seen_again u r.cached_at r'.cached_at sound soon o took))
          | inr past ↦ elim (le_or_gt created (r.checked_at + max_duration)) [
            | inr far ↦ inr (inl (omega (arith, far)))
            | inl near ↦ elim (Option-cases v') [
              | inl w ↦ inr (
                  inr (
                    past,
                    checked_within u r.checked_at r.cached_at r'.checked_at ttl small near v o took
                        w,
                  ))
              | inr (e, w) ↦ inl (
                  refused_timestamp lib users' o.0 r'.cached_at t v' digest
                    (λ w'. absurd (ground (arith, w, w'))))
            ]
          ]
        ]

    -- Suppose a digest token was accepted, by an authenticator with a sound cache that lives for two
    -- clock skews, and is presented again as the next token. Whatever the users and the clock are
    -- then, it is refused, but in two cases: its Created time was 2^63 nanoseconds or more ahead of
    -- the clock at the first request; or the second request read the clock for the check of the
    -- time within two skews of the first one's reading, and for the cache more than two skews after
    -- the first one's reading for the cache.
    pub authenticate_token-refuses_replay :
        (users users' : UserStore) (r r' : TokenRequest) (u : UsernameTokenAuth) (p : Principal)
        → r.read ≡ token t
        → r'.read ≡ token t
        → IsSound u.cache
        → u.cache.ttl ≡ 2 * u.skew
        → u.skew < max_duration
        → accepted (authenticate_token lib users r u).1 ≡ some p
        → IsRefused created u r r'
            (accepted (authenticate_token lib users' r' (authenticate_token lib users r u).0).1)
    unfolding authenticate_token
    authenticate_token-refuses_replay users users' r r' u p e e' sound ttl small h =
        let now = λ (x : ReadToken). check_token lib users r u x in
        let again =
          λ (q : UsernameTokenAuth) (y : ReadToken). accepted (check_token lib users' r' q y).1 in
        let same =
          (wrap-same lib (check_token lib users' r' (wrap lib (now r.read)).0 r'.read)).0
          ∙ ap (λ q. again q r'.read) ((wrap-same lib (now r.read)).1 ∙ ap (λ x. (now x).0) e)
          ∙ ap (again (now (token t)).0) e' in
        subst (IsRefused created u r r') (sym same) (
          check_token-again users users' r r' u p sound ttl small
            (subst (λ x. accepted (now x).1 ≡ some p) e (sym (wrap-same lib (now r.read)).0 ∙ h)))
