-- ===== src/Auth/UsernameToken/Accepted.antt =====
-- What an accepted digest leaves behind, and when a token is not accepted.
use onvif_simulator.Prelude.{
  ℕ, Bool, true, false, Option, none, some, str_eq, ◌≡◌, refl, ap, subst, ◌∙◌, arith, Option-cases,
  inl, inr,
}
use onvif_simulator.Auth.Access.{Principal}
use onvif_simulator.Auth.UserStore.{UserRecord, UserStore, find_user}
use onvif_simulator.Auth.NonceCache.{NonceCache, add}
use onvif_simulator.Auth.Chain.{Sentinel, Attempt, passed, failed, plain, challenge}
use onvif_simulator.Auth.Chain.Laws.{accepted}
use onvif_simulator.Auth.UsernameToken.{
  Library, UsernameToken, UsernameTokenAuth, check_created, parse_ws_timestamp, verify_timestamp,
  nonce_key, after_add, verify_digest, is_digest, verify_password, after_password, check_user,
  after_timestamp, wrap,
}

module _ (lib : Library) where
  -- What an accepted digest left behind.
  abbrev pub Took : UsernameToken → ℕ → UsernameTokenAuth → UsernameTokenAuth × Attempt → Type 0
  Took t now u o =
      (str_eq t.created "" ≡ false)
      × ((add (nonce_key lib t) now u.cache).1 ≡ true)
      × (o.0 ≡ record u { cache = (add (nonce_key lib t) now u.cache).0 })

  pub after_add-accepted :
      (t : UsernameToken) (r : UserRecord) (o : NonceCache × Bool)
      → (after_add lib t r o).1 ≡ none
      → (o.1 ≡ true) × ((after_add lib t r o).0 ≡ o.0)
  unfolding after_add
  after_add-accepted t r (c, b) h = ground (arith, h)

  pub verify_digest-accepted :
      (t : UsernameToken) (r : UserRecord) (now : ℕ) (c : NonceCache)
      → (verify_digest lib t r now c).1 ≡ none
      → (str_eq t.created "" ≡ false)
        × ((add (nonce_key lib t) now c).1 ≡ true)
        × ((verify_digest lib t r now c).0 ≡ (add (nonce_key lib t) now c).0)
  unfolding verify_digest
  verify_digest-accepted t r now c h =
      ground (arith, h, after_add-accepted t r (add (nonce_key lib t) now c))

  pub after_password-accepted :
      (u : UsernameTokenAuth) (r : UserRecord) (o : NonceCache × Option Sentinel) (p : Principal)
      → accepted (after_password lib u r o).1 ≡ some p
      → (o.1 ≡ none) × ((after_password lib u r o).0 ≡ record u { cache = o.0 })
  unfolding after_password accepted
  after_password-accepted u r (c, none) p h = (refl, refl)
  after_password-accepted u r (c, some e) p h = absurd (ground (arith, h))

  pub verify_password-digest :
      (u : UsernameTokenAuth) (now : ℕ) (t : UsernameToken) (r : UserRecord)
      → is_digest lib t ≡ true
      → verify_password lib u now t r ≡ verify_digest lib t r now u.cache
  unfolding verify_password
  verify_password-digest u now t r d = ground (arith, d)

  pub check_user-Took :
      (u : UsernameTokenAuth) (now : ℕ) (t : UsernameToken) (m : Option UserRecord) (p : Principal)
      → is_digest lib t ≡ true
      → accepted (check_user lib u now t m).1 ≡ some p
      → Took t now u (check_user lib u now t m)
  unfolding check_user accepted
  check_user-Took u now t none p d h = absurd (ground (arith, h))
  check_user-Took u now t (some r) p d h =
      let (n, s) = after_password-accepted u r (verify_password lib u now t r) p h in
      let e = verify_password-digest u now t r d in
      let (c, a, q) = verify_digest-accepted t r now u.cache (subst (λ o. o.1 ≡ none) e n) in
      (
        c,
        a,
        s
            ∙ ap (λ (o : NonceCache × Option Sentinel). record u { cache = o.0 }) e
            ∙ ap (λ k. record u { cache = k }) q,
      )

  pub after_timestamp-Took :
      (users : UserStore) (u : UsernameTokenAuth) (now : ℕ) (t : UsernameToken)
      (v : Option Sentinel) (p : Principal)
      → is_digest lib t ≡ true
      → accepted (after_timestamp lib users u now t v).1 ≡ some p
      → (v ≡ none) × Took t now u (after_timestamp lib users u now t v)
  unfolding after_timestamp accepted
  after_timestamp-Took users u now t none p d h =
      (refl, check_user-Took u now t (find_user t.username users) p d h)
  after_timestamp-Took users u now t (some e) p d h = absurd (ground (arith, h))

  pub wrap-same :
      (o : UsernameTokenAuth × Attempt)
      → (accepted (wrap lib o).1 ≡ accepted o.1) × ((wrap lib o).0 ≡ o.0)
  unfolding wrap accepted
  wrap-same (u, passed p) = (refl, refl)
  wrap-same (u, failed (plain e)) = ground arith
  wrap-same (u, failed (challenge c)) = (refl, refl)

  -- A token whose nonce the cache refuses, or whose time does, is not accepted.
  pub refused_password :
      (u : UsernameTokenAuth) (now : ℕ) (t : UsernameToken) (r : UserRecord)
      → is_digest lib t ≡ true
      → (add (nonce_key lib t) now u.cache).1 ≡ false
      → accepted (after_password lib u r (verify_password lib u now t r)).1 ≡ none
  refused_password u now t r d a =
      elim (Option-cases (accepted (after_password lib u r (verify_password lib u now t r)).1)) [
        | inl e ↦ e
        | inr (p, e) ↦
            let (n, s) = after_password-accepted u r (verify_password lib u now t r) p e in
            let (c, b, q) =
              verify_digest-accepted t r now u.cache
                (subst (λ o. o.1 ≡ none) (verify_password-digest u now t r d) n) in
            absurd (ground (arith, a, b))
      ]

  pub refused_user :
      (u : UsernameTokenAuth) (now : ℕ) (t : UsernameToken) (m : Option UserRecord)
      → is_digest lib t ≡ true
      → (add (nonce_key lib t) now u.cache).1 ≡ false
      → accepted (check_user lib u now t m).1 ≡ none
  unfolding check_user accepted
  refused_user u now t none d a = refl
  refused_user u now t (some r) d a = refused_password u now t r d a

  pub refused_timestamp :
      (users : UserStore) (u : UsernameTokenAuth) (now : ℕ) (t : UsernameToken)
      (v : Option Sentinel)
      → is_digest lib t ≡ true
      → (v ≡ none → (add (nonce_key lib t) now u.cache).1 ≡ false)
      → accepted (after_timestamp lib users u now t v).1 ≡ none
  unfolding after_timestamp accepted
  refused_timestamp users u now t none d a =
      refused_user u now t (find_user t.username users) d (a refl)
  refused_timestamp users u now t (some e) d a = refl

  pub verify_timestamp-parsed :
      (u : UsernameTokenAuth) (now : ℕ) (t : UsernameToken) (created : ℕ)
      → str_eq t.created "" ≡ false
      → parse_ws_timestamp lib t.created ≡ some created
      → verify_timestamp lib u now t ≡ check_created lib u.skew now (some created)
  unfolding verify_timestamp
  verify_timestamp-parsed u now t created n e =
      ground (arith, n, ap (check_created lib u.skew now) e)
