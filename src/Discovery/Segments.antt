-- ===== src/Discovery/Segments.antt =====
-- What pathSegments gives, by the pieces between the slashes.
use mathlib.Core.List.{reverse, reverse-cons, reverse-reverse}
use onvif_simulator.Prelude.{
  ℕ, Bool, true, false, ◌||◌, none, some, List, [], ◌∷◌, ◌++◌, ◌==◌, if◌then◌else◌, ◌≡◌, refl, sym,
  ap, ◌∙◌, arith, Bool-cases, inl, inr,
}
use onvif_simulator.Text.{same_text}
use onvif_simulator.Discovery.{
  is_empty, slash, drop_slashes, put_first, split_slashes, is_dots, collect, or_no_segments,
  path_segments,
}

unfoldable pub without_empty : List (List ℕ) → List (List ℕ)
without_empty [] = []
without_empty (p ∷ ps) = if is_empty p then without_empty ps else p ∷ without_empty ps

unfoldable pub any_dots : List (List ℕ) → Bool
any_dots [] = false
any_dots (p ∷ ps) = is_dots p || any_dots ps

-- The pieces of a path that are not empty.
unfoldable pub pieces : List ℕ → List (List ℕ)
unfolding without_empty split_slashes
pieces path = without_empty (split_slashes path)

-- The segments of a path: its pieces, or none if one of them is made of dots.
unfoldable pub segments_of : List ℕ → List (List ℕ)
unfolding pieces any_dots
segments_of path = if any_dots (pieces path) then [] else pieces path

collect_lem :
    (ps : List (List ℕ)) → collect ps ≡ (if any_dots ps then none else some (without_empty ps))
unfolding collect any_dots without_empty
collect_lem [] = refl
collect_lem (p ∷ ps) = ground (arith, collect_lem ps)

-- An empty piece is not made of dots.
dots-without_empty : (ps : List (List ℕ)) → any_dots (without_empty ps) ≡ any_dots ps
unfolding any_dots without_empty is_dots same_text
dots-without_empty [] = refl
dots-without_empty ([] ∷ ps) = dots-without_empty ps
dots-without_empty ((c ∷ cs) ∷ ps) = ap (λ b. is_dots (c ∷ cs) || b) (dots-without_empty ps)

or_no-collect :
    (ps : List (List ℕ))
    → or_no_segments (collect ps) ≡ (if any_dots (without_empty ps) then [] else without_empty ps)
unfolding or_no_segments
or_no-collect ps = ground (arith, collect_lem ps, dots-without_empty ps)

pieces-front : (path : List ℕ) → pieces (drop_slashes path) ≡ pieces path
unfolding pieces drop_slashes split_slashes without_empty
pieces-front [] = refl
pieces-front (c ∷ cs) = ground (arith, pieces-front cs)

-- A slash at the end adds an empty piece.
Ends : List (List ℕ) → List (List ℕ) → Type 0
Ends ps qs =
    (p : List ℕ) × (rest : List (List ℕ)) × (ps ≡ p ∷ rest) × (qs ≡ p ∷ (rest ++ ([] ∷ [])))

put_first-Ends :
    (c : ℕ) (ps qs : List (List ℕ)) → Ends ps qs → Ends (put_first c ps) (put_first c qs)
unfolding Ends put_first
put_first-Ends c ps qs (p, rest, e, f) = (c ∷ p, rest, ap (put_first c) e, ap (put_first c) f)

split-Ends : (path : List ℕ) → Ends (split_slashes path) (split_slashes (path ++ (slash ∷ [])))
unfolding Ends split_slashes
split-Ends [] = ([], [], refl, refl)
split-Ends (c ∷ cs) =
    if_pair (λ ps qs. Ends ps qs) (c == slash) (new_piece (split-Ends cs))
      (put_first-Ends c (split_slashes cs) (split_slashes (cs ++ (slash ∷ []))) (split-Ends cs))
  where
    new_piece :
        Ends (split_slashes cs) (split_slashes (cs ++ (slash ∷ [])))
        → Ends ([] ∷ split_slashes cs) ([] ∷ split_slashes (cs ++ (slash ∷ [])))
    new_piece (p, rest, e, f) =
        ([], split_slashes cs, refl, ap (λ x. [] ∷ x) (f ∙ ap (λ x. x ++ ([] ∷ [])) (sym e)))

    if_pair :
        (P : List (List ℕ) → List (List ℕ) → Type 0) (b : Bool) {x y x' y' : List (List ℕ)}
        → P x x'
        → P y y'
        → P (if b then x else y) (if b then x' else y')
    if_pair P true h k = h
    if_pair P false h k = k

without_empty-last : (ps : List (List ℕ)) → without_empty (ps ++ ([] ∷ [])) ≡ without_empty ps
unfolding without_empty
without_empty-last [] = refl
without_empty-last (p ∷ ps) = ground (arith, without_empty-last ps)

pieces-last : (path : List ℕ) → pieces (path ++ (slash ∷ [])) ≡ pieces path
unfolding pieces Ends
pieces-last path =
    let (p, rest, e, f) = split-Ends path in
    ap without_empty f ∙ without_empty-last (p ∷ rest) ∙ ap without_empty (sym e)

pieces-back : (path : List ℕ) → pieces (reverse (drop_slashes path)) ≡ pieces (reverse path)
unfolding drop_slashes
pieces-back [] = refl
pieces-back (c ∷ cs) = elim (Bool-cases (c == slash)) [
  | inr other ↦ ap (λ x. pieces (reverse x)) (kept other)
  | inl same ↦
      ap (λ x. pieces (reverse x)) (dropped same)
      ∙ pieces-back cs
      ∙ sym (pieces-last (reverse cs))
      ∙ ap pieces
          (sym (reverse-cons c cs ∙ ap (λ d. reverse cs ++ (d ∷ [])) (ground (arith, same))))
]
  where
    kept : (c == slash) ≡ false → drop_slashes (c ∷ cs) ≡ c ∷ cs
    kept h = ground (arith, h)

    dropped : (c == slash) ≡ true → drop_slashes (c ∷ cs) ≡ drop_slashes cs
    dropped h = ground (arith, h)

trimmed : List ℕ → List ℕ
trimmed path = reverse (drop_slashes (reverse (drop_slashes path)))

pieces-trimmed : (path : List ℕ) → pieces (trimmed path) ≡ pieces path
unfolding trimmed
pieces-trimmed path =
    pieces-back (reverse (drop_slashes path))
    ∙ ap pieces (reverse-reverse (drop_slashes path))
    ∙ pieces-front path

-- Trimming the slashes and skipping the empty parts gives the pieces.
pub path_segments_lem : (path : List ℕ) → path_segments path ≡ segments_of path
unfolding path_segments segments_of trimmed pieces same_text
path_segments_lem path =
    empty_first (trimmed path) ∙ ap (λ x. if any_dots x then [] else x) (pieces-trimmed path)
  where
    empty_first :
        (p : List ℕ)
        → (if is_empty p then [] else or_no_segments (collect (split_slashes p)))
          ≡ (if any_dots (pieces p) then [] else pieces p)
    empty_first [] = sym (or_no-collect ([] ∷ []))
    empty_first (c ∷ cs) = or_no-collect (split_slashes (c ∷ cs))
