-- ===== src/Simulator/Ring/Index.antt =====
-- The places of the ring that a push writes and a snapshot reads.
use onvif_simulator.Prelude.{
  ℕ, zero, suc, ◌+◌, ◌-◌, ◌%◌, ◌≤◌, ◌<◌, List, [], ◌∷◌, ltb, if◌then◌else◌, take, length, ◌≡◌, ◌≢◌,
  refl, ap, arith, dec_lt, ◌⊎◌, inl, inr,
}
use onvif_simulator.Simulator.Ring.{EventRecord, set_at, get_at, rows}

pub get_at-set_at :
    (i : ℕ) (e : EventRecord) (xs : List EventRecord) → i < length xs → get_at i (set_at i e xs) ≡ e
get_at-set_at i e [] h = absurd (omega (arith, h))
get_at-set_at zero e (x ∷ xs) h = refl
get_at-set_at (suc i) e (x ∷ xs) h = get_at-set_at i e xs (omega (arith, h))

get_at-set_at_other :
    (i j : ℕ) (e : EventRecord) (xs : List EventRecord)
    → i ≢ j
    → get_at j (set_at i e xs) ≡ get_at j xs
get_at-set_at_other i j e [] h = refl
get_at-set_at_other zero zero e (x ∷ xs) h = absurd (h refl)
get_at-set_at_other zero (suc j) e (x ∷ xs) h = refl
get_at-set_at_other (suc i) zero e (x ∷ xs) h = refl
get_at-set_at_other (suc i) (suc j) e (x ∷ xs) h = get_at-set_at_other i j e xs (λ q. h (ap suc q))

pub length-set_at :
    (i : ℕ) (e : EventRecord) (xs : List EventRecord) → length (set_at i e xs) ≡ length xs
length-set_at i e [] = refl
length-set_at zero e (x ∷ xs) = refl
length-set_at (suc i) e (x ∷ xs) = ap suc (length-set_at i e xs)

mod_small : (n x : ℕ) → x < n → x % n ≡ x
mod_small n x a = grind (arith, a)

mod_over : (n x y : ℕ) → x < n → y ≡ x + n → y % n ≡ x
mod_over n x y a b = grind (arith, a, b)

index_cases :
    (size h i : ℕ)
    → h < size
    → i < size
    → ((i < h) × ((h + size - 1 - i) % size ≡ h - 1 - i))
      ⊎ ((h ≤ i) × ((h + size - 1 - i) % size ≡ h + size - 1 - i))
index_cases size h i a b = elim (dec_lt i h) [
  | yes l ↦
      inl (
        l,
        mod_over size (h - 1 - i) (h + size - 1 - i) (omega (arith, l, a)) (omega (arith, l, a)),
      )
  | no g ↦ inr (omega (arith, g), mod_small size (h + size - 1 - i) (omega (arith, a, g)))
]

pub next_cases :
    (size h : ℕ)
    → h < size
    → ((h + 1 ≡ size) × ((h + 1) % size ≡ 0)) ⊎ ((h + 1 < size) × ((h + 1) % size ≡ h + 1))
next_cases size h a = elim (dec_lt (h + 1) size) [
  | yes l ↦ inr (l, mod_small size (h + 1) l)
  | no g ↦
      inl (omega (arith, g, a), mod_over size 0 (h + 1) (omega (arith, a)) (omega (arith, g, a)))
]

-- Where the loop reads after a push: one step on, it reads what it read before, and never the
-- place that was written; at its start it reads just that.
shifted :
    (size h i : ℕ)
    → h < size
    → suc i < size
    → ((h + 1) % size + size - 1 - suc i) % size ≡ (h + size - 1 - i) % size
shifted size h i a b = omega (
  arith,
  a,
  b,
  next_cases size h a,
  index_cases size h i a (omega (arith, b)),
  index_cases size ((h + 1) % size) (suc i) (omega (arith, next_cases size h a, a)) b,
)

elsewhere : (size h i : ℕ) → h < size → suc i < size → h ≢ (h + size - 1 - i) % size
elsewhere size h i a b = omega (arith, a, b, index_cases size h i a (omega (arith, b)))

pub newest : (size h : ℕ) → h < size → ((h + 1) % size + size - 1 - 0) % size ≡ h
newest size h a = omega (
  arith,
  a,
  next_cases size h a,
  index_cases size ((h + 1) % size) 0 (omega (arith, next_cases size h a, a)) (omega (arith, a)),
)

pub rows-set_at :
    (e : EventRecord) (buf : List EventRecord) (size h i n : ℕ)
    → h < size
    → i + n < size
    → rows (set_at h e buf) size ((h + 1) % size) (suc i) n ≡ rows buf size h i n
unfolding rows
rows-set_at e buf size h i zero a b = refl
rows-set_at e buf size h i (suc n) a b = cc (
  ap (λ j. get_at j (set_at h e buf)) (shifted size h i a (omega (arith, b))),
  get_at-set_at_other h ((h + size - 1 - i) % size) e buf (elsewhere size h i a (omega (arith, b))),
  rows-set_at e buf size h (suc i) n a (omega (arith, b)),
)

length-rows : (buf : List EventRecord) (size h i n : ℕ) → length (rows buf size h i n) ≡ n
unfolding rows
length-rows buf size h i zero = refl
length-rows buf size h i (suc n) = ap suc (length-rows buf size h (suc i) n)

pub take-rows :
    (buf : List EventRecord) (size h i n k : ℕ)
    → take k (rows buf size h i n) ≡ rows buf size h i (if ltb k n then k else n)
unfolding rows
take-rows buf size h i n zero = ground arith
take-rows buf size h i zero (suc k) = ground arith
take-rows buf size h i (suc n) (suc k) = ground (arith, take-rows buf size h (suc i) n k)
