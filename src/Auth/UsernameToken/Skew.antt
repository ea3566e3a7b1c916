-- ===== src/Auth/UsernameToken/Skew.antt =====
-- Which Created times pass the check against the clock.
use onvif_simulator.Prelude.{ℕ, suc, ◌+◌, ◌≤◌, ◌<◌, none, some, ◌≡◌, arith, ◌⊎◌, ◌↔◌}
use onvif_simulator.Auth.UsernameToken.{
  Library, sub_time, abs_duration, max_duration, check_created,
}

module _ (lib : Library) where
  -- A token that is not too old.
  pub check_created-recent :
      (skew now created : ℕ)
      → skew < max_duration
      → check_created lib skew now (some created) ≡ none
      → now ≤ created + skew
  unfolding check_created sub_time abs_duration
  check_created-recent skew now created b h = ground (arith, b, h)

  pub check_created-near :
      (skew now created : ℕ)
      → created ≤ now + max_duration
      → check_created lib skew now (some created) ≡ none
      → created ≤ now + skew
  unfolding check_created sub_time abs_duration
  check_created-near skew now created b h = ground (arith, b, h)

  -- The skew check as the package means it bounds the distance of the two times; the code does so
  -- for every pair of them but those where the Created time is 2^63 nanoseconds or more ahead,
  -- which it lets through.
  pub check_created_iff :
      (skew now created : ℕ)
      → skew < max_duration
      → check_created lib skew now (some created) ≡ none
        ↔ ((now ≤ created + skew) × (created ≤ now + skew)) ⊎ (now + suc max_duration ≤ created)
  unfolding check_created sub_time abs_duration
  check_created_iff skew now created b = ground (arith, b)
