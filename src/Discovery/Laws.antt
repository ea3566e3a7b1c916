-- ===== src/Discovery/Laws.antt =====
-- Probes are matched by prefixes of path segments.
use onvif_simulator.Prelude.{
  ℕ, Bool, true, false, ◌&&◌, List, [], ◌∷◌, ◌++◌, ◌==◌, ◌≡◌, refl, sym, ap, ◌∙◌, ◌↔◌, arith,
}
use onvif_simulator.Text.{trim_space, same_text}
use onvif_simulator.Discovery.Segments.{segments_of}
use onvif_simulator.Discovery.{Url, GoUrl, prefix_segments}

and_cases : (a b : Bool) → (a && b) ≡ true → (a ≡ true) × (b ≡ true)
and_cases true b h = (refl, h)
and_cases false b h = absurd (ground (arith, h))

same_text_sound : (a b : List ℕ) → same_text a b ≡ true → a ≡ b
unfolding same_text
same_text_sound [] [] h = refl
same_text_sound [] (b ∷ t) h = absurd (ground (arith, h))
same_text_sound (a ∷ s) [] h = absurd (ground (arith, h))
same_text_sound (a ∷ s) (b ∷ t) h =
    let (e, k) = and_cases (a == b) (same_text s t) h in
    ap (λ c. c ∷ s) (ground (arith, e)) ∙ ap (◌∷◌ b) (same_text_sound s t k)

same_text_refl : (a : List ℕ) → same_text a a ≡ true
unfolding same_text
same_text_refl [] = refl
same_text_refl (a ∷ s) = ground (arith, same_text_refl s)

prefix_sound :
    (short long : List (List ℕ))
    → prefix_segments short long ≡ true
    → (rest : List (List ℕ)) × (long ≡ short ++ rest)
unfolding prefix_segments
prefix_sound [] long h = (long, refl)
prefix_sound (s ∷ short) [] h = absurd (ground (arith, h))
prefix_sound (s ∷ short) (l ∷ long) h =
    let (e, k) = and_cases (same_text s l) (prefix_segments short long) h in
    let (rest, p) = prefix_sound short long k in
    (rest, ap (λ x. x ∷ long) (sym (same_text_sound s l e)) ∙ ap (◌∷◌ s) p)

prefix_complete : (short rest : List (List ℕ)) → prefix_segments short (short ++ rest) ≡ true
unfolding prefix_segments
prefix_complete [] rest = refl
prefix_complete (s ∷ short) rest =
    ap (λ b. b && prefix_segments short (short ++ rest)) (same_text_refl s)
    ∙ prefix_complete short rest

-- The test on segments decides whether the one list begins the other.
pub prefix_segments_iff :
    (short long : List (List ℕ))
    → (prefix_segments short long ≡ true) ↔ ((rest : List (List ℕ)) × (long ≡ short ++ rest))
prefix_segments_iff short long = (
  prefix_sound short long,
  (λ (rest, e). ap (prefix_segments short) e ∙ prefix_complete short rest),
)

module _ (go : GoUrl) where
  -- The first address is an ancestor of the second one: same scheme and host, and its segments
  -- begin those of the other.
  pub IsAncestor : Url → Url → Type 0
  IsAncestor u1 u2 =
      (go.equal_fold u1.scheme u2.scheme ≡ true)
      × (go.lower (trim_space u1.host) ≡ go.lower (trim_space u2.host))
      × ((rest : List (List ℕ)) × (segments_of u2.path ≡ segments_of u1.path ++ rest))
