-- ===== src/Text.antt =====
-- What the program uses of Go's packages `strings`, `unicode` and `regexp`, on the code points of a
-- text.
use Prim.Native.Char.{code}
use Prim.Native.String.{String}
use mathlib.Core.List.{reverse}
use onvif_simulator.Prelude.{
  ℕ, ◌+◌, ◌-◌, Bool, true, false, ◌&&◌, ◌||◌, List, [], ◌∷◌, leb, ◌==◌, if◌then◌else◌,
}

-- The code points of a text.
abbrev pub codes : String → List ℕ
codes String.[] = []
codes (String.◌∷◌ c s) = code c ∷ codes s

-- unicode.IsSpace
unfoldable pub is_space : ℕ → Bool
is_space c =
    (leb 9 c && leb c 13)
    || c == 0x20
    || c == 0x85
    || c == 0xa0
    || c == 0x1680
    || (leb 0x2000 c && leb c 0x200a)
    || c == 0x2028
    || c == 0x2029
    || c == 0x202f
    || c == 0x205f
    || c == 0x3000

unfoldable pub drop_spaces : List ℕ → List ℕ
unfolding is_space
drop_spaces [] = []
drop_spaces (c ∷ cs) = let rest = drop_spaces cs in if is_space c then rest else c ∷ cs

-- strings.TrimSpace
unfoldable pub trim_space : List ℕ → List ℕ
unfolding drop_spaces
trim_space s = reverse (drop_spaces (reverse (drop_spaces s)))

-- strings.TrimSpace(s) == ""
unfoldable pub is_blank : String → Bool
unfolding trim_space
is_blank s = elim (trim_space (codes s)) [ [] ↦ true | c ∷ cs ↦ false ]

-- strings.ToLower, as far as its result can be an ASCII character: the capitals of ASCII, and the
-- two characters beyond it (U+0130 and U+212A) whose small letters are i and k.
unfoldable pub to_lower : ℕ → ℕ
to_lower c =
    if leb b'A' c && leb c b'Z'
    then c + 32
    else if c == 0x130
    then b'i'
    else if c == 0x212a
    then b'k'
    else c

-- strings.ToUpper, likewise: the small letters of ASCII, and U+017F and U+0131.
unfoldable pub to_upper : ℕ → ℕ
to_upper c =
    if leb b'a' c && leb c b'z'
    then c - 32
    else if c == 0x17f
    then b'S'
    else if c == 0x131
    then b'I'
    else c

unfoldable pub is_digit : ℕ → Bool
is_digit c = leb b'0' c && leb c b'9'

-- Equality of texts, on their code points.
unfoldable pub same_text : List ℕ → List ℕ → Bool
same_text [] [] = true
same_text (a ∷ s) (b ∷ t) = a == b && same_text s t
same_text _ _ = false

-- strings.HasPrefix(s, p)
unfoldable pub begins_with : List ℕ → List ℕ → Bool
begins_with s [] = true
begins_with [] (p ∷ ps) = false
begins_with (c ∷ s) (p ∷ ps) = c == p && begins_with s ps

-- The regular expression `\s`, which knows the spaces of ASCII but the vertical tab.
unfoldable pub has_ascii_space : List ℕ → Bool
has_ascii_space [] = false
has_ascii_space (c ∷ cs) = c == 9 || c == 10 || c == 12 || c == 13 || c == 32 || has_ascii_space cs
