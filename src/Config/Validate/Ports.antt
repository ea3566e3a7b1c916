-- ===== src/Config/Validate/Ports.antt =====
-- The ports that pass.
use onvif_simulator.Prelude.{
  Bool, true, false, ◌||◌, if◌then◌else◌, Option, none, List, [], ◌∷◌, ◌≡◌, ◌≢◌, refl, ◌↔◌, arith,
  Bool-cases, inl, inr, All, ap, subst, ◌∙◌, ◌⊎◌,
}
use onvif_simulator.Prelude.Int.{ℤ, pos, ltb_ℤ, eq_ℤ, ◌≤ℤ◌, eq_ℤ_sound, eq_ℤ_refl}
use onvif_simulator.Text.{codes, trim_space}
use onvif_simulator.Config.Types.{NetworkConfig}
use onvif_simulator.Config.Platform.{Platform}
use onvif_simulator.Config.Errors.{
  ConfigError, check, ◌⨾◌, check_all, check-none, seq-none, seq-first,
}
use onvif_simulator.Config.Validate.Device.{validate_network, validate_xaddr, rtsp_port_or_default}

range-none :
    (n lo hi : ℤ) (e : ConfigError)
    → (check (ltb_ℤ n lo || ltb_ℤ hi n) e ≡ none) ↔ ((lo ≤ℤ n) × (n ≤ℤ hi))
range-none n lo hi e = ground arith

differ-none : (a b : ℤ) (e : ConfigError) → (check (eq_ℤ a b) e ≡ none) ↔ (a ≢ b)
differ-none a b e = (
  (λ h k. clash (check-none _ e h) (subst (λ n. eq_ℤ a n ≡ true) k (eq_ℤ_refl a))),
  (λ h. by_test (Bool-cases (eq_ℤ a b)) h),
)
  where
    clash : {t : Bool} → t ≡ false → t ≡ true → ⊥
    clash f t = ground (arith, f, t)

    by_test : ((eq_ℤ a b ≡ true) ⊎ (eq_ℤ a b ≡ false)) → a ≢ b → check (eq_ℤ a b) e ≡ none
    by_test (inl t) h = absurd (h (eq_ℤ_sound a b t))
    by_test (inr f) h = ap (λ t. check t e) f

check_all-none {ℓ} :
    {A : Type ℓ} (f : A → Option ConfigError) (xs : List A)
    → (check_all f xs ≡ none) ↔ All (λ x. f x ≡ none) xs
unfolding ◌⨾◌
check_all-none f [] = ((λ h. tt), (λ h. refl))
check_all-none f (x ∷ xs) = (
  (λ h. let (a, b) = seq-none (f x) (check_all f xs) h in (a, (check_all-none f xs).0 b)),
  (λ h. seq-first (f x) (check_all f xs) h.0 ∙ (check_all-none f xs).1 h.1),
)

-- The network section passes exactly if the HTTP port is in 1..65535, the RTSP port in 0..65535, the
-- RTSP port in use, 8554 in place of 0, is not the HTTP port, and every address passes its own check.
pub validate_network_iff :
    (go : Platform) (n : NetworkConfig)
    → (validate_network go n ≡ none) ↔ (
        (pos 1 ≤ℤ n.http_port)
        × (n.http_port ≤ℤ pos 65535)
        × (pos 0 ≤ℤ n.rtsp_port)
        × (n.rtsp_port ≤ℤ pos 65535)
        × ((if eq_ℤ n.rtsp_port (pos 0) then pos 8554 else n.rtsp_port) ≢ n.http_port)
        × All (λ x. validate_xaddr go (trim_space (codes x)) ≡ none) n.xaddrs)
unfolding validate_network rtsp_port_or_default
validate_network_iff go n = (
  (λ h.
      let (a, r) = seq-none _ _ h in
      let (b, s) = seq-none _ _ r in
      let (c, d) = seq-none _ _ s in
      let (l, u) = (range-none n.http_port (pos 1) (pos 65535) _).0 a in
      let (l', u') = (range-none n.rtsp_port (pos 0) (pos 65535) _).0 b in
      (l, u, l', u', (differ-none _ _ _).0 c, (check_all-none _ n.xaddrs).0 d)),
  (λ (l, u, l', u', c, d).
      seq-first _ _ ((range-none n.http_port (pos 1) (pos 65535) _).1 (l, u))
      ∙ seq-first _ _ ((range-none n.rtsp_port (pos 0) (pos 65535) _).1 (l', u'))
      ∙ seq-first _ _ ((differ-none _ _ _).1 c)
      ∙ (check_all-none _ n.xaddrs).1 d),
)
