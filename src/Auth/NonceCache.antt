-- ===== src/Auth/NonceCache.antt =====
-- nonce_cache.go: the nonces seen, each with its time, in nanoseconds since the zero time. A map is
-- a list of entries; the loop for the oldest one runs along it.
pub mod Laws
pub mod Replay
use onvif_simulator.Prelude.{
  ℕ, suc, ◌+◌, ◌*◌, Bool, true, false, ◌||◌, not, Option, none, some, String, List, [], ◌∷◌, ltb,
  leb, if◌then◌else◌, str_eq,
}
use onvif_simulator.Prelude.Int.{ℤ, pos, leb_ℤ, pos_part}
use onvif_simulator.Prelude.Dict.{Dict, lookup, insert, delete, retain, count_if}

pub record NonceCache : Type 0 where
  pub ttl : ℕ
  pub seen : Dict ℕ
  pub max_size : ℕ

abbrev pub five_minutes : ℕ
five_minutes = 300000000000

unfoldable pub new_nonce_cache : ℤ → NonceCache
new_nonce_cache ttl = record {
  ttl = if leb_ℤ ttl (pos 0) then five_minutes else pos_part ttl;
  seen = [];
  max_size = 4096;
}

-- len(c.seen)
unfoldable pub size : NonceCache → ℕ
unfolding count_if
size c = count_if (λ v. true) c.seen

-- v.Before(now.Add(-c.ttl))
abbrev pub is_old : ℕ → ℕ → ℕ → Bool
is_old ttl now v = ltb (v + ttl) now

unfoldable pub prune : ℕ → NonceCache → NonceCache
unfolding retain
prune now c = record c { seen = retain (λ v. not (is_old c.ttl now v)) c.seen }

-- The loop for the oldest entry: the empty key stands for none found yet.
unfoldable pub oldest : String → ℕ → Dict ℕ → String
oldest key at [] = key
oldest key at ((k, v) ∷ m) =
    let taken = oldest k v m in
    let kept = oldest key at m in if str_eq key "" || ltb v at then taken else kept

unfoldable pub make_room : NonceCache → NonceCache
unfolding size delete oldest
make_room c =
    if leb c.max_size (size c) then record c { seen = delete (oldest "" 0 c.seen) c.seen } else c

unfoldable pub record_nonce : String → ℕ → NonceCache → NonceCache
unfolding insert
record_nonce key now c = record c { seen = insert key now c.seen }

unfoldable pub add_pruned : String → ℕ → NonceCache → NonceCache × Bool
unfolding lookup make_room record_nonce
add_pruned key now c = elim (lookup key c.seen) [
  | some v ↦ (c, false)
  | none ↦ (record_nonce key now (make_room c), true)
]

unfoldable pub add : String → ℕ → NonceCache → NonceCache × Bool
unfolding add_pruned prune
add key now c = add_pruned key now (prune now c)
