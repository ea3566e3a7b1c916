-- ===== src/Prelude/Text.antt =====
-- Texts that are compared as a whole, and the prefix test of Go's `strings.HasPrefix`.
use Prim.Native.String.{String, ◌++◌}
use mathlib.Core.Bool.{Bool, true, false, ◌||◌}
use mathlib.Core.List.{List, [], ◌∷◌}
use mathlib.Core.Logic.{◌↔◌, ite}
use mathlib.Core.Path.{◌≡◌, refl, sym}
use native.Mathlib.Omega.{arith}
use text.Mathlib.Text.{◌==◌, starts_with}
use text.Mathlib.TextEquality.{eq_iff, starts_with_iff}
use text.Mathlib.TextPositions.{starts_with-append}

dec_of_test : {s t : String} (b : Bool) → ((b ≡ true) ↔ (s ≡ t)) → Dec (s ≡ t)
dec_of_test true h = yes (h.0 refl)
dec_of_test false h = no (λ e. ground (arith, h.1 e))

-- Equality of texts, decided by the native comparison.
unfoldable pub str_dec : Discrete String
unfolding dec_of_test
str_dec s t = dec_of_test (s == t) (eq_iff s t)

-- a == b
abbrev pub str_eq : String → String → Bool
str_eq a b = ite (str_dec a b) true false

-- strings.HasPrefix(s, t)
unfoldable pub has_prefix : String → String → Bool
has_prefix s t = starts_with s t

pub has_prefix_sound : (s t : String) → has_prefix s t ≡ true → (u : String) × (s ≡ t ++ u)
unfolding has_prefix
has_prefix_sound s t h = let (u, e) = (starts_with_iff s t).0 h in (u, sym e)

pub has_prefix_complete : (t u : String) → has_prefix (t ++ u) t ≡ true
unfolding has_prefix
has_prefix_complete t u = starts_with-append t u

-- Whether a text is in a list: a key of a Go map that is used as a set.
unfoldable pub mem_str : String → List String → Bool
mem_str s [] = false
mem_str s (t ∷ ts) = str_eq t s || mem_str s ts
