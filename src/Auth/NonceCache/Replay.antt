-- ===== src/Auth/NonceCache/Replay.antt =====
-- A nonce that the cache took is refused while it lives, also after other nonces.
use onvif_simulator.Prelude.{
  ℕ, suc, ◌+◌, ◌≤◌, ◌<◌, true, false, not, some, String, List, [], ◌∷◌, length, All, ◌≡◌, refl, sym,
  subst, ◌∙◌, ap, arith, Option-cases, inl, inr,
}
use onvif_simulator.Prelude.Dict.{lookup}
use onvif_simulator.Prelude.Dict.Lookups.{
  lookup-insert, lookup-insert_self, lookup-retain, keep_value,
}
use onvif_simulator.Prelude.Dict.Entries.{count_if-insert, count_if-delete, count_if-retain}
use onvif_simulator.Auth.NonceCache.{
  NonceCache, size, is_old, prune, oldest, make_room, record_nonce, add_pruned, add,
}
use onvif_simulator.Auth.NonceCache.Laws.{
  IsSound, make_room-limits, add_pruned-fresh, add_pruned-seen, prune-IsSound, add-IsSound, add_all,
  add_all-IsSound,
}

prune-recent :
    (key : String) (at now : ℕ) (c : NonceCache)
    → IsSound c
    → lookup key c.seen ≡ some at
    → now ≤ at + c.ttl
    → lookup key (prune now c).seen ≡ some at
unfolding prune IsSound
prune-recent key at now c (d, b, p) e h =
    lookup-retain (λ v. not (is_old c.ttl now v)) key c.seen d
    ∙ ap (keep_value (λ v. not (is_old c.ttl now v))) e
    ∙ ground (arith, h)

add-recorded :
    (key : String) (now : ℕ) (c : NonceCache)
    → (add_pruned key now c).1 ≡ true
    → (lookup key (add_pruned key now c).0.seen ≡ some now) × ((add_pruned key now c).0.ttl ≡ c.ttl)
unfolding record_nonce
add-recorded key now c h = elim (Option-cases (lookup key c.seen)) [
  | inr (v, e) ↦ absurd (ground (arith, sym h ∙ ap (λ r. r.1) (add_pruned-seen key now v c e)))
  | inl e ↦
      subst (λ r. (lookup key r.0.seen ≡ some now) × (r.0.ttl ≡ c.ttl))
        (sym (add_pruned-fresh key now c e))
        (lookup-insert_self key now (make_room c).seen, (make_room-limits c).0)
]

-- The same nonce straight after it was taken.
pub add-refuses_again :
    (key : String) (now later : ℕ) (c : NonceCache)
    → IsSound c
    → (add key now c).1 ≡ true
    → later ≤ now + c.ttl
    → (add key later (add key now c).0).1 ≡ false
unfolding add prune
add-refuses_again key now later c h t l =
    let (e, same) = add-recorded key now (prune now c) t in
    let c' = (add_pruned key now (prune now c)).0 in
    ap (λ r. r.1)
      (add_pruned-seen key later now (prune later c')
        (prune-recent key now later c' (add-IsSound key now c h) e (omega (arith, l, same))))

make_room-size : (c : NonceCache) → size (make_room c) ≤ size c
unfolding make_room size
make_room-size c = ground (arith, count_if-delete (λ v. true) (oldest "" 0 c.seen) c.seen)

prune-size : (now : ℕ) (c : NonceCache) → size (prune now c) ≤ size c
unfolding prune size
prune-size now c = count_if-retain (λ v. true) (λ v. not (is_old c.ttl now v)) c.seen

add_pruned-grows :
    (key : String) (now : ℕ) (c : NonceCache) → size (add_pruned key now c).0 ≤ suc (size c)
unfolding record_nonce size
add_pruned-grows key now c = elim (Option-cases (lookup key c.seen)) [
  | inr (v, s) ↦
      subst (λ r. size r.0 ≤ suc (size c)) (sym (add_pruned-seen key now v c s)) (omega arith)
  | inl n ↦
      subst (λ r. size r.0 ≤ suc (size c)) (sym (add_pruned-fresh key now c n))
        (omega (arith, count_if-insert (λ v. true) key now (make_room c).seen, make_room-size c))
]

add-grows : (key : String) (now : ℕ) (c : NonceCache) → size (add key now c).0 ≤ suc (size c)
unfolding add
add-grows key now c = omega (arith, add_pruned-grows key now (prune now c), prune-size now c)

-- A cache that still holds `key` since `at`, with the life of the cache before.
Holds : String → ℕ → NonceCache → NonceCache → Type 0
Holds key at c c' = (lookup key c'.seen ≡ some at) × (c'.ttl ≡ c.ttl)

make_room-roomy : (c : NonceCache) → size c < c.max_size → make_room c ≡ c
unfolding make_room
make_room-roomy c h = ground (arith, h)

add_pruned-Holds :
    (key k : String) (at t : ℕ) (c : NonceCache)
    → size c < c.max_size
    → lookup key c.seen ≡ some at
    → Holds key at c (add_pruned k t c).0 × (size (add_pruned k t c).0 ≤ suc (size c))
unfolding Holds record_nonce size
add_pruned-Holds key k at t c room e = elim (Option-cases (lookup k c.seen)) [
  | inr (v, s) ↦
      subst (λ r. Holds key at c r.0 × (size r.0 ≤ suc (size c))) (sym (add_pruned-seen k t v c s))
        ((e, refl), omega arith)
  | inl n ↦
      subst (λ r. Holds key at c r.0 × (size r.0 ≤ suc (size c)))
        (sym (
          add_pruned-fresh k t c n ∙ ap (λ q. (record_nonce k t q, true)) (make_room-roomy c room)))
        (
          (ground (arith, e, n, lookup-insert k key t c.seen), refl),
          omega (arith, count_if-insert (λ v. true) k t c.seen),
        )
]

add-Holds :
    (key k : String) (at t : ℕ) (c : NonceCache)
    → IsSound c
    → size c < 4096
    → lookup key c.seen ≡ some at
    → t ≤ at + c.ttl
    → Holds key at c (add k t c).0 × (size (add k t c).0 ≤ suc (size c))
unfolding add IsSound Holds
add-Holds key k at t c sound room e l =
    let (_, _, p) = prune-IsSound t c sound in
    let (h, g) =
      add_pruned-Holds key k at t (prune t c) (omega (arith, room, p, prune-size t c))
        (prune-recent key at t c sound e l) in
    (h, omega (arith, g, prune-size t c))

add_all-Holds :
    (key : String) (at : ℕ) (rest : List (String × ℕ)) (c : NonceCache)
    → IsSound c
    → size c + length rest ≤ 4096
    → lookup key c.seen ≡ some at
    → All (λ r. r.1 ≤ at + c.ttl) rest
    → Holds key at c (add_all rest c)
unfolding add_all Holds
add_all-Holds key at [] c sound room e h = (e, refl)
add_all-Holds key at ((k, t) ∷ rest) c sound room e (l, h) =
    let ((e', same), g) = add-Holds key k at t c sound (omega (arith, room)) e l in
    let (f, same') =
      add_all-Holds key at rest (add k t c).0 (add-IsSound k t c sound) (omega (arith, room, g)) e'
        (subst (λ n. All (λ r. r.1 ≤ at + n) rest) (sym same) h) in
    (f, same' ∙ same)

-- A nonce that a sound cache took is refused at every time up to the end of its life, whatever
-- nonces, itself included, were presented in between up to the end of that life, as long as the
-- cache has room for all of them, so that no nonce is evicted for another.
pub add-refuses_replay :
    (key : String) (now later : ℕ) (rest : List (String × ℕ)) (c : NonceCache)
    → IsSound c
    → (add key now c).1 ≡ true
    → size c + suc (length rest) ≤ 4096
    → All (λ r. r.1 ≤ now + c.ttl) rest
    → later ≤ now + c.ttl
    → (add key later (add_all rest (add key now c).0)).1 ≡ false
unfolding add Holds
add-refuses_replay key now later rest c sound t room h l =
    let (e, same) = add-recorded key now (prune now c) t in
    let c' = (add key now c).0 in
    let sound' = add-IsSound key now c sound in
    let (f, same') =
      add_all-Holds key now rest c' sound' (omega (arith, room, add-grows key now c)) e
        (subst (λ n. All (λ r. r.1 ≤ now + n) rest) (sym same) h) in
    let c'' = add_all rest c' in
    ap (λ r. r.1)
      (add_pruned-seen key later now (prune later c'') (
        prune-recent key now later c'' (add_all-IsSound rest c' sound') f
          (omega (arith, l, same, same'))))
