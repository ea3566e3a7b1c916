-- ===== src/Auth/NonceCache/Laws.antt =====
-- The cache never outgrows its limit.
use onvif_simulator.Prelude.{
  ℕ, suc, ◌≤◌, ◌<◌, true, false, not, ◌||◌, none, some, String, List, [], ◌∷◌, ltb, leb, ◌≡◌, refl,
  sym, subst, ◌∙◌, arith, str_dec, str_eq, if_both, Option-cases, ◌⊎◌, inl, inr,
}
use onvif_simulator.Prelude.Int.{ℤ}
use onvif_simulator.Prelude.Dict.{Dict, lookup, delete, count_if, IsDistinct}
use onvif_simulator.Prelude.Dict.Entries.{
  count_if-insert, count_if-delete, count_if-retain, insert-IsDistinct, delete-IsDistinct,
  retain-IsDistinct,
}
use onvif_simulator.Auth.NonceCache.{
  NonceCache, new_nonce_cache, size, is_old, prune, oldest, make_room, record_nonce, add_pruned,
  add,
}

-- A present key that is deleted makes the map smaller.
delete-smaller :
    (k : String) (v : ℕ) (m : Dict ℕ)
    → lookup k m ≡ some v
    → suc (count_if (λ v. true) (delete k m)) ≤ count_if (λ v. true) m
unfolding lookup delete count_if
delete-smaller k v [] h = absurd (ground (arith, h))
delete-smaller k v ((j, w) ∷ m) h =
    ground (arith, h, count_if-delete (λ v. true) k m, delete-smaller k v m)

lookup-later :
    (o k : String) (v w : ℕ) (m : Dict ℕ)
    → lookup o m ≡ some w
    → (u : ℕ) × (lookup o ((k, v) ∷ m) ≡ some u)
unfolding lookup
lookup-later o k v w m h = elim (str_dec k o) [
  | yes e ↦ (v, ground arith)
  | no ne ↦ (w, ground (arith, h))
]

lookup-here :
    (o k : String) (v : ℕ) (m : Dict ℕ) → o ≡ k → (u : ℕ) × (lookup o ((k, v) ∷ m) ≡ some u)
unfolding lookup
lookup-here o k v m h = (v, ground (arith, h))

-- The key that the loop came with, or a key of the map.
Found : String → Dict ℕ → String → Type 0
Found key m o = (o ≡ key) ⊎ ((v : ℕ) × (lookup o m ≡ some v))

lookup_taken :
    (k : String) (v : ℕ) (m : Dict ℕ) (o : String)
    → Found k m o
    → (u : ℕ) × (lookup o ((k, v) ∷ m) ≡ some u)
unfolding Found
lookup_taken k v m o (inl e) = lookup-here o k v m e
lookup_taken k v m o (inr (w, e)) = lookup-later o k v w m e

Found-kept :
    (key k : String) (v : ℕ) (m : Dict ℕ) (o : String) → Found key m o → Found key ((k, v) ∷ m) o
unfolding Found
Found-kept key k v m o (inl e) = inl e
Found-kept key k v m o (inr (w, e)) = inr (lookup-later o k v w m e)

oldest-Found : (key : String) (at : ℕ) (m : Dict ℕ) → Found key m (oldest key at m)
unfolding oldest Found
oldest-Found key at [] = inl refl
oldest-Found key at ((k, v) ∷ m) =
    if_both (Found key ((k, v) ∷ m)) (str_eq key "" || ltb v at) (oldest k v m) (oldest key at m)
      (inr (lookup_taken k v m (oldest k v m) (oldest-Found k v m)))
      (Found-kept key k v m (oldest key at m) (oldest-Found key at m))

-- In a map with an entry the loop finds a key of the map.
oldest-present :
    (k : String) (v : ℕ) (m : Dict ℕ)
    → (u : ℕ) × (lookup (oldest "" 0 ((k, v) ∷ m)) ((k, v) ∷ m) ≡ some u)
unfolding oldest str_dec
oldest-present k v m = lookup_taken k v m (oldest k v m) (oldest-Found k v m)

room_in :
    (m : Dict ℕ)
    → 0 < count_if (λ v. true) m
    → suc (count_if (λ v. true) (delete (oldest "" 0 m) m)) ≤ count_if (λ v. true) m
unfolding count_if
room_in [] h = absurd (omega (arith, h))
room_in ((k, v) ∷ m) h =
    let (u, e) = oldest-present k v m in delete-smaller (oldest "" 0 ((k, v) ∷ m)) u ((k, v) ∷ m) e

make_room-lt :
    (c : NonceCache) → 0 < c.max_size → size c ≤ c.max_size → size (make_room c) < c.max_size
unfolding make_room size
make_room-lt c h k = ground (arith, h, k, room_in c.seen)

pub make_room-limits :
    (c : NonceCache) → ((make_room c).ttl ≡ c.ttl) × ((make_room c).max_size ≡ c.max_size)
unfolding make_room
make_room-limits c = ground arith

-- The keys are distinct, and there are at most 4096 of them, which is the limit.
unfoldable pub IsSound : NonceCache → Type 0
IsSound c = IsDistinct c.seen × (size c ≤ 4096) × (c.max_size ≡ 4096)

make_room-IsDistinct : (c : NonceCache) → IsDistinct c.seen → IsDistinct (make_room c).seen
unfolding make_room
make_room-IsDistinct c d =
    if_both (λ (q : NonceCache). IsDistinct q.seen) (leb c.max_size (size c)) _ _
      (delete-IsDistinct (oldest "" 0 c.seen) c.seen d) d

pub add_pruned-fresh :
    (key : String) (now : ℕ) (c : NonceCache)
    → lookup key c.seen ≡ none
    → add_pruned key now c ≡ (record_nonce key now (make_room c), true)
unfolding add_pruned
add_pruned-fresh key now c e = rw (add_pruned, e) refl

pub add_pruned-seen :
    (key : String) (now v : ℕ) (c : NonceCache)
    → lookup key c.seen ≡ some v
    → add_pruned key now c ≡ (c, false)
unfolding add_pruned
add_pruned-seen key now v c e = rw (add_pruned, e) refl

record_nonce-IsSound :
    (key : String) (now : ℕ) (c : NonceCache)
    → IsDistinct c.seen
    → size c < 4096
    → c.max_size ≡ 4096
    → IsSound (record_nonce key now c)
unfolding record_nonce IsSound size
record_nonce-IsSound key now c d b p = (
  insert-IsDistinct key now c.seen d,
  omega (arith, b, count_if-insert (λ v. true) key now c.seen),
  p,
)

add_pruned-IsSound :
    (key : String) (now : ℕ) (c : NonceCache) → IsSound c → IsSound (add_pruned key now c).0
unfolding IsSound
add_pruned-IsSound key now c (d, b, p) = elim (Option-cases (lookup key c.seen)) [
  | inr (v, e) ↦ subst (λ r. IsSound r.0) (sym (add_pruned-seen key now v c e)) (d, b, p)
  | inl e ↦
      subst (λ r. IsSound r.0) (sym (add_pruned-fresh key now c e))
        (record_nonce-IsSound key now (make_room c) (make_room-IsDistinct c d)
          (omega (
            arith,
            p,
            make_room-lt c (omega (arith, p)) (omega (arith, b, p)),
            (make_room-limits c).1,
          ))
          ((make_room-limits c).1 ∙ p))
]

pub prune-IsSound : (now : ℕ) (c : NonceCache) → IsSound c → IsSound (prune now c)
unfolding prune IsSound size
prune-IsSound now c (d, b, p) = (
  retain-IsDistinct _ c.seen d,
  omega (arith, b, count_if-retain (λ v. true) (λ v. not (is_old c.ttl now v)) c.seen),
  p,
)

pub add-IsSound : (key : String) (now : ℕ) (c : NonceCache) → IsSound c → IsSound (add key now c).0
unfolding add
add-IsSound key now c h = add_pruned-IsSound key now (prune now c) (prune-IsSound now c h)

-- Additions one after the other, each with its time.
unfoldable pub add_all : List (String × ℕ) → NonceCache → NonceCache
unfolding add
add_all [] c = c
add_all ((k, t) ∷ rest) c = add_all rest (add k t c).0

pub add_all-IsSound : (ks : List (String × ℕ)) (c : NonceCache) → IsSound c → IsSound (add_all ks c)
unfolding add_all
add_all-IsSound [] c h = h
add_all-IsSound ((k, t) ∷ rest) c h = add_all-IsSound rest (add k t c).0 (add-IsSound k t c h)

-- A new cache, after any additions, holds distinct nonces, at most 4096.
pub add_all-new_nonce_cache-IsSound :
    (ttl : ℤ) (ks : List (String × ℕ)) → IsSound (add_all ks (new_nonce_cache ttl))
unfolding IsSound new_nonce_cache size count_if
add_all-new_nonce_cache-IsSound ttl ks =
    add_all-IsSound ks (new_nonce_cache ttl) (tt, omega arith, refl)
