-- ===== src/Simulator/Ring/Laws.antt =====
-- The ring holds the last events, the newest first.
use onvif_simulator.Prelude.{
  ℕ, zero, suc, ◌-◌, ◌<◌, List, [], ◌∷◌, if◌then◌else◌, take, length, ◌≡◌, refl, sym, ap, ◌∙◌,
  arith,
}
use onvif_simulator.Simulator.Ring.{
  EventRecord, EventRing, zeros, set_at, get_at, new_event_ring, push, count, rows, snapshot,
}
use onvif_simulator.Simulator.Ring.Index.{
  get_at-set_at, length-set_at, next_cases, newest, rows-set_at, take-rows,
}

pub record IsRing (r : EventRing) : Type 0 where
  pub some_room : 0 < r.size
  pub head_in : r.head < r.size
  pub storage : length r.buf ≡ r.size

-- How many of the records before a push stay.
abbrev kept : EventRing → ℕ
kept r = if r.full then r.size - 1 else r.head

count-push : (e : EventRecord) (r : EventRing) → IsRing r → count (push e r) ≡ suc (kept r)
unfolding count push
count-push e r v = ground (arith, v.some_room, v.head_in, next_cases r.size r.head v.head_in)

pub push-IsRing : (e : EventRecord) (r : EventRing) → IsRing r → IsRing (push e r)
unfolding push
push-IsRing e r v = record {
  some_room = v.some_room;
  head_in = omega (arith, v.some_room);
  storage = length-set_at r.head e r.buf ∙ v.storage;
}

pub new_event_ring-IsRing : (size : ℕ) → 0 < size → IsRing (new_event_ring size)
unfolding new_event_ring
new_event_ring-IsRing size h = record { some_room = h; head_in = h; storage = length-zeros size }
  where
    length-zeros : (n : ℕ) → length (zeros n) ≡ n
    length-zeros zero = refl
    length-zeros (suc n) = ap suc (length-zeros n)

take-snapshot :
    (r : EventRing)
    → IsRing r
    → take (r.size - 1) (snapshot r) ≡ rows r.buf r.size r.head 0 (kept r)
unfolding snapshot count
take-snapshot r v =
    take-rows r.buf r.size r.head 0 (count r) (r.size - 1)
    ∙ ap (rows r.buf r.size r.head 0) (ground (arith, v.some_room, v.head_in))

take-suc :
    (n : ℕ) (e : EventRecord) (es : List EventRecord)
    → 0 < n
    → take n (e ∷ es) ≡ e ∷ take (n - 1) es
take-suc zero e es h = absurd (omega (arith, h))
take-suc (suc n) e es h = ap (λ m. e ∷ take m es) (omega arith)

head_row :
    (e : EventRecord) (r : EventRing)
    → IsRing r
    → rows (push e r).buf (push e r).size (push e r).head 0 (suc (kept r))
      ≡ e ∷ rows r.buf r.size r.head 0 (kept r)
unfolding rows push
head_row e r v = cc (
  ap (λ j. get_at j (set_at r.head e r.buf)) (newest r.size r.head v.head_in),
  get_at-set_at r.head e r.buf (omega (arith, v.storage, v.head_in)),
  rows-set_at e r.buf r.size r.head 0 (kept r) v.head_in (ground (arith, v.some_room, v.head_in)),
)

-- A snapshot after a push is the new event before the last snapshot, cut to the ring's size.
pub snapshot-push :
    (e : EventRecord) (r : EventRing)
    → IsRing r
    → snapshot (push e r) ≡ take r.size (e ∷ snapshot r)
unfolding snapshot
snapshot-push e r v =
    ap (rows (push e r).buf (push e r).size (push e r).head 0) (count-push e r v)
    ∙ head_row e r v
    ∙ sym (take-suc r.size e (snapshot r) v.some_room ∙ ap (λ t. e ∷ t) (take-snapshot r v))

unfoldable pub push_all : List EventRecord → EventRing → EventRing
unfolding push
push_all [] r = r
push_all (e ∷ es) r = push_all es (push e r)

-- The events of a history before those of an older one, the newest first.
abbrev pub newest_first : List EventRecord → List EventRecord → List EventRecord
newest_first [] older = older
newest_first (e ∷ es) older = newest_first es (e ∷ older)

take-take :
    (n : ℕ) (es : List EventRecord) (e : EventRecord) → take n (e ∷ take n es) ≡ take n (e ∷ es)
take-take zero es e = refl
take-take (suc n) es e = ap (λ t. e ∷ t) (shorter n es)
  where
    shorter : (n : ℕ) (es : List EventRecord) → take n (take (suc n) es) ≡ take n es
    shorter zero [] = refl
    shorter zero (x ∷ xs) = refl
    shorter (suc n) [] = refl
    shorter (suc n) (x ∷ xs) = ap (λ t. x ∷ t) (shorter n xs)

size-push : (e : EventRecord) (r : EventRing) → r.size ≡ (push e r).size
unfolding push
size-push e r = refl

none_yet : (size : ℕ) → snapshot (new_event_ring size) ≡ take size []
unfolding snapshot new_event_ring count rows
none_yet zero = refl
none_yet (suc n) = refl

snapshot-push_all :
    (es : List EventRecord) (r : EventRing) (older : List EventRecord)
    → IsRing r
    → snapshot r ≡ take r.size older
    → snapshot (push_all es r) ≡ take r.size (newest_first es older)
unfolding push_all
snapshot-push_all [] r older v h = h
snapshot-push_all (e ∷ es) r older v h =
    snapshot-push_all es (push e r) (e ∷ older) (push-IsRing e r v) (
      snapshot-push e r v
      ∙ ap (λ t. take r.size (e ∷ t)) h
      ∙ take-take r.size older e
      ∙ ap (λ n. take n (e ∷ older)) (size-push e r))
    ∙ ap (λ n. take n (newest_first es (e ∷ older))) (sym (size-push e r))

-- Whatever events a new ring of a positive size takes, its snapshot is the last of them up to its
-- size, the newest first.
pub snapshot-push_all-new :
    (size : ℕ) (es : List EventRecord)
    → 0 < size
    → snapshot (push_all es (new_event_ring size)) ≡ take size (newest_first es [])
unfolding new_event_ring
snapshot-push_all-new size es h =
    snapshot-push_all es (new_event_ring size) [] (new_event_ring-IsRing size h) (none_yet size)
