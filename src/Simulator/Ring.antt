-- ===== src/Simulator/Ring.antt =====
-- internal/simulator/ring.go: the ring buffer of recent events. Each method holds its mutex.
pub mod Index
pub mod Laws
use onvif_simulator.Prelude.{
  ℕ, zero, suc, ◌+◌, ◌-◌, ◌%◌, Bool, true, false, String, List, [], ◌∷◌, ltb, ◌==◌, if◌then◌else◌,
}
use onvif_simulator.Prelude.Int.{ℤ, pos, ltb_ℤ, pos_part, eq_ℤ}

-- The time is in nanoseconds since the zero time.
pub record EventRecord : Type 0 where
  pub time : ℕ
  pub topic : String
  pub source : String
  pub payload : String

abbrev pub zero_record : EventRecord
zero_record = record { time = 0; topic = ""; source = ""; payload = "" }

pub record EventRing : Type 0 where
  pub buf : List EventRecord
  pub size : ℕ
  pub head : ℕ
  pub full : Bool

abbrev pub zeros : ℕ → List EventRecord
zeros zero = []
zeros (suc n) = zero_record ∷ zeros n

-- b[i] = e; beyond the end nothing is written, which `IsRing` rules out.
abbrev pub set_at : ℕ → EventRecord → List EventRecord → List EventRecord
set_at i e [] = []
set_at zero e (x ∷ xs) = e ∷ xs
set_at (suc i) e (x ∷ xs) = x ∷ set_at i e xs

-- b[i]
abbrev pub get_at : ℕ → List EventRecord → EventRecord
get_at i [] = zero_record
get_at zero (x ∷ xs) = x
get_at (suc i) (x ∷ xs) = get_at i xs

abbrev default_event_buffer_size : ℕ
default_event_buffer_size = 128

abbrev min_event_buffer_size : ℕ
min_event_buffer_size = 16

abbrev max_event_buffer_size : ℕ
max_event_buffer_size = 1024

-- The result of clampBufferSize is positive.
unfoldable pub clamp_buffer_size : ℤ → ℕ
clamp_buffer_size n =
    if eq_ℤ n (pos 0)
    then default_event_buffer_size
    else if ltb_ℤ n (pos min_event_buffer_size)
    then min_event_buffer_size
    else if ltb_ℤ (pos max_event_buffer_size) n
    then max_event_buffer_size
    else pos_part n

unfoldable pub new_event_ring : ℕ → EventRing
new_event_ring size = record { buf = zeros size; size = size; head = 0; full = false }

unfoldable pub push : EventRecord → EventRing → EventRing
push e r =
    let head = (r.head + 1) % r.size in
    record {
      buf = set_at r.head e r.buf;
      size = r.size;
      head = head;
      full = if head == 0 then true else r.full;
    }

-- How many records a snapshot has.
unfoldable pub count : EventRing → ℕ
count r = if r.full then r.size else r.head

-- The loop over `i`, of which `n` turns are left. The source's index is the same number, since
-- i < size.
unfoldable pub rows : List EventRecord → ℕ → ℕ → ℕ → ℕ → List EventRecord
rows buf size head i zero = []
rows buf size head i (suc n) =
    get_at ((head + size - 1 - i) % size) buf ∷ rows buf size head (suc i) n

unfoldable pub snapshot : EventRing → List EventRecord
unfolding count rows
snapshot r = rows r.buf r.size r.head 0 (count r)
