-- ===== src/Event/Duration.antt =====
-- internal/event/util.go: the durations that a client may write, as Go durations, as a subset of
-- ISO 8601, or as an absolute time. A `time.Duration` is a signed 64-bit number of nanoseconds; an
-- instant is a number of nanoseconds. Go's own parsers are the fields of `GoTime`.
use Prim.Native.Nat.{min}
use onvif_simulator.Prelude.{
  ℕ, ◌+◌, ◌-◌, ◌*◌, ◌%◌, ◌^◌, String, ◌&&◌, Option, none, some, List, [], ◌∷◌, map, ltb, leb, ◌==◌,
  if◌then◌else◌, ite, str_dec,
}
use onvif_simulator.Text.{codes, to_upper, is_digit}
use onvif_simulator.Prelude.Int.{ℤ, pos, negsuc}

pub data Layout : Type 0 where
  rfc3339_nano rfc3339 : Layout

-- The parsers of Go's package `time`: `ParseDuration`, and `Parse` at a layout.
pub record GoTime : Type 0 where
  pub parse_duration : String → Option ℤ
  pub parse_time : Layout → String → Option ℕ

pub data DurationError : Type 0 where
  empty_duration malformed_iso8601 out_of_range unsupported_format unknown_unit : DurationError

pub data Parsed {ℓ} (A : Type ℓ) : Type ℓ where
  ok : A → Parsed A
  err : DurationError → Parsed A

abbrev pub hour : ℕ
hour = 3600000000000

abbrev pub minute : ℕ
minute = 60000000000

abbrev pub second : ℕ
second = 1000000000

abbrev pub max_int64 : ℕ
max_int64 = 2 ^ 63 - 1

-- The integer that a 64-bit pattern stands for.
unfoldable pub signed64 : ℕ → ℤ
signed64 u = if leb u max_int64 then pos u else negsuc (2 ^ 64 - 1 - u)

-- The nanoseconds of a unit letter.
unfoldable pub unit_nanos : ℕ → Option ℕ
unit_nanos u =
    if u == b'H'
    then some hour
    else if u == b'M'
    then some minute
    else if u == b'S'
    then some second
    else none

-- The loop over the tokens behind "PT". `count` digits of the present token are read, with the
-- value `n`; `total` is the sum of the tokens before it, which wraps at 64 bits.
unfoldable pub iso_loop : ℕ → ℕ → ℕ → List ℕ → Parsed ℕ
iso_loop n count total [] = if count == 0 then ok total else err malformed_iso8601
iso_loop n count total (c ∷ rest) =
    let more = iso_loop (n * 10 + (c - b'0')) (count + 1) total rest in
    let next = λ (w : ℕ). iso_loop 0 0 ((total + n * w) % 2 ^ 64) rest in
    if is_digit c
    then more
    else if count == 0
    then err malformed_iso8601
    else if ltb max_int64 n
    then err out_of_range
    else elim (unit_nanos c) [ none ↦ err unknown_unit | some w ↦ next w ]

-- The text behind the first two letters, if these are "PT" in capitals.
unfoldable pub strip_pt : List ℕ → Option (List ℕ)
strip_pt (p ∷ t ∷ rest) = if p == b'P' && t == b'T' then some rest else none
strip_pt _ = none

unfoldable pub parse_iso : List ℕ → Parsed ℤ
parse_iso [] = err malformed_iso8601
parse_iso (c ∷ rest) = elim (iso_loop 0 0 0 (c ∷ rest)) [ ok u ↦ ok (signed64 u) | err e ↦ err e ]

module _ (go : GoTime) where
  -- `now` is the reading of the clock in `time.Until`.
  unfoldable pub until : ℕ → ℕ → Parsed ℤ
  until now t = if leb t now then err unsupported_format else ok (pos (min (t - now) max_int64))

  unfoldable pub parse_absolute_date_time : ℕ → String → Parsed ℤ
  parse_absolute_date_time now s = elim (go.parse_time rfc3339_nano s) [
    | some t ↦ until now t
    | none ↦ elim (go.parse_time rfc3339 s) [ some t ↦ until now t | none ↦ err unsupported_format ]
  ]

  unfoldable pub parse_iso8601_duration : ℕ → String → Parsed ℤ
  parse_iso8601_duration now s =
      ite (str_dec s "") (err empty_duration) (elim (go.parse_duration s) [
        | some d ↦ ok d
        | none ↦ elim (strip_pt (map to_upper (codes s))) [
          | none ↦ parse_absolute_date_time now s
          | some rest ↦ parse_iso rest
        ]
      ])
