-- ===== src/Simulator/Profiles/Tokens.antt =====
-- The loop for a free token ends, and what it gives is free.
use onvif_simulator.Prelude.{
  ℕ, zero, suc, ◌+◌, ◌≤◌, ◌<◌, true, false, not, Option, none, some, String, List, [], ◌∷◌, length,
  keep, mem_str, str_eq, ◌≡◌, ◌≢◌, refl, subst, inl, inr, arith, Option-cases, dec_lt,
}
use text.Mathlib.TextLemmas.{append_cancel_left}
use onvif_simulator.Simulator.Profiles.{candidate, first_free, token_base, generate_profile_token}

-- A list without one of its texts.
abbrev without : String → List String → List String
without s ss = keep (λ t. not (str_eq t s)) ss

without-shorter : (s : String) (ss : List String) → length (without s ss) ≤ length ss
unfolding mem_str
without-shorter s [] = omega arith
without-shorter s (t ∷ ts) = ground (arith, without-shorter s ts)

without-member :
    (s : String) (ss : List String) → mem_str s ss ≡ true → length (without s ss) < length ss
unfolding mem_str
without-member s [] h = absurd (ground (arith, h))
without-member s (t ∷ ts) h = ground (arith, h, without-member s ts, without-shorter s ts)

without-other :
    (s k : String) (ss : List String)
    → s ≢ k
    → mem_str k ss ≡ true
    → mem_str k (without s ss) ≡ true
unfolding mem_str
without-other s k [] ne h = absurd (ground (arith, h))
without-other s k (t ∷ ts) ne h = ground (arith, ne, h, without-other s k ts ne)

module _ (print_int : ℕ → String) (injective : (a b : ℕ) → print_int a ≡ print_int b → a ≡ b) where
  candidate-injective :
      (base : String) (a b : ℕ) → candidate print_int base a ≡ candidate print_int base b → a ≡ b
  candidate-injective base a b e =
      injective a b
        (append_cancel_left "_" (print_int a) (print_int b) (append_cancel_left base _ _ e))

  -- As many candidates as there are taken texts cannot all be taken.
  crowded :
      (base : String) (n count : ℕ) (taken : List String)
      → ((k : ℕ) → n ≤ k → k < n + count → mem_str (candidate print_int base k) taken ≡ true)
      → count ≤ length taken
  crowded base n zero taken h = omega arith
  crowded base n (suc count) taken h = omega (
    arith,
    without-member (candidate print_int base n) taken (h n (omega arith) (omega arith)),
    crowded base (suc n) count (without (candidate print_int base n) taken) (λ k a b.
        without-other (candidate print_int base n) (candidate print_int base k) taken
          (λ e. ground (arith, a, candidate-injective base n k e))
          (h k (omega (arith, a)) (omega (arith, b)))),
  )

  next_none :
      (taken : List String) (base : String) (n fuel : ℕ)
      → first_free print_int taken base n (suc fuel) ≡ none
      → (mem_str (candidate print_int base n) taken ≡ true)
        × (first_free print_int taken base (suc n) fuel ≡ none)
  unfolding first_free
  next_none taken base n fuel h = ground (arith, h)

  first_free-none :
      (taken : List String) (base : String) (n fuel : ℕ)
      → first_free print_int taken base n fuel ≡ none
      → (k : ℕ) → n ≤ k
      → k < n + fuel
      → mem_str (candidate print_int base k) taken ≡ true
  unfolding first_free
  first_free-none taken base n zero h k a b = absurd (omega (arith, a, b))
  first_free-none taken base n (suc fuel) h k a b =
      let (m, rest) = next_none taken base n fuel h in
      elim (dec_lt n k) [
        | yes l ↦
            first_free-none taken base (suc n) fuel rest k (omega (arith, l)) (omega (arith, b))
        | no g ↦
            subst (λ j. mem_str (candidate print_int base j) taken ≡ true) (omega (arith, g, a)) m
      ]

  first_free-free :
      (taken : List String) (base : String) (n fuel : ℕ) (t : String)
      → first_free print_int taken base n fuel ≡ some t
      → mem_str t taken ≡ false
  unfolding first_free
  first_free-free taken base n zero t h = absurd (ground (arith, h))
  first_free-free taken base n (suc fuel) t h =
      ground (arith, h, first_free-free taken base (suc n) fuel t)

  -- The loop finds a candidate within one more turn than there are taken tokens.
  finds_one :
      (taken : List String) (base : String)
      → first_free print_int taken base 2 (suc (length taken)) ≢ none
  finds_one taken base h = ground (
    arith,
    crowded base 2 (suc (length taken)) taken (first_free-none taken base 2 (suc (length taken)) h),
  )

  found :
      (taken : List String) (name : String) (o : Option String)
      → generate_profile_token print_int taken name ≡ o
      → o ≢ none
  unfolding generate_profile_token
  found taken name o h n = ground (arith, h, n, finds_one taken (token_base print_int name))

  is_free :
      (taken : List String) (name t : String)
      → generate_profile_token print_int taken name ≡ some t
      → mem_str t taken ≡ false
  unfolding generate_profile_token
  is_free taken name t h =
      ground (arith, h, first_free-free taken (token_base print_int name) 2 (suc (length taken)) t)

  -- If different numbers print differently, generateProfileToken returns, after at most one turn of
  -- its loop more than there are profiles, a token that no profile has.
  pub generate_profile_token-free :
      (taken : List String) (name : String)
      → (t : String) × (generate_profile_token print_int taken name ≡ some t)
        × (mem_str t taken ≡ false)
  generate_profile_token-free taken name =
      elim (Option-cases (generate_profile_token print_int taken name)) [
        | inl e ↦ absurd (found taken name none e refl)
        | inr (t, e) ↦ (t, e, is_free taken name t e)
      ]
