-- ===== src/Source/Hour.antt =====
-- internal/source/rds/rotation.go: hour IDs, and the names and markers that hold one.
pub mod Order
use Prim.Native.Nat.{Ordering, compare}
use rdstail.Prelude.{
  ℕ, ◌+◌, ◌-◌, ◌*◌, Bool, false, true, ◌&&◌, ◌||◌, not, Option, none, some, List, [], ◌∷◌, Bytes,
  codes, same, leb, ltb, ◌==◌, length, drop, if◌then◌else◌,
}
use rdstail.Text.{is_digit, parse_digits, max_int64, has_byte}

pub record HourId : Type 0 where
  pub date : Bytes
  pub hour : ℕ

-- Go's order on strings.
unfoldable pub compare_bytes : Bytes → Bytes → Ordering
compare_bytes [] [] = Ordering.eq
compare_bytes [] (y ∷ ys) = Ordering.lt
compare_bytes (x ∷ xs) [] = Ordering.gt
compare_bytes (x ∷ xs) (y ∷ ys) = elim (compare x y) [
  | Ordering.lt ↦ Ordering.lt
  | Ordering.eq ↦ compare_bytes xs ys
  | Ordering.gt ↦ Ordering.gt
]

-- HourID.Compare: -1, 0 and +1 are `lt`, `eq` and `gt`.
unfoldable pub compare_hour : HourId → HourId → Ordering
unfolding compare_bytes
compare_hour h o = elim (compare_bytes h.date o.date) [
  | Ordering.lt ↦ Ordering.lt
  | Ordering.gt ↦ Ordering.gt
  | Ordering.eq ↦ compare h.hour o.hour
]

-- h == o on structs
unfoldable pub same_hour : HourId → HourId → Bool
unfolding same
same_hour h o = same h.date o.date && h.hour == o.hour

-- The text fits the shape, in which `d` stands for a digit; what follows it is returned.
unfoldable pub after_shape : Bytes → Bytes → Option Bytes
unfolding is_digit
after_shape [] s = some s
after_shape (t ∷ ts) [] = none
after_shape (t ∷ ts) (c ∷ s) =
    if (if t == b'd' then is_digit c else c == t) then after_shape ts s else none

-- `\d{1,2}` before a byte that is no digit, or the end
unfoldable pub hour_digits : Bytes → Option (ℕ × Bytes)
unfolding is_digit
hour_digits [] = none
hour_digits (c ∷ []) = if is_digit c then some (c - b'0', []) else none
hour_digits (c ∷ d ∷ s) =
    if is_digit c
    then (if is_digit d then some ((c - b'0') * 10 + (d - b'0'), s) else some (c - b'0', d ∷ s))
    else none

-- The first ten bytes, `\d{4}-\d{2}-\d{2}`.
abbrev date_of : Bytes → Bytes
date_of (a ∷ b ∷ c ∷ d ∷ e ∷ f ∷ g ∷ h ∷ i ∷ j ∷ s) = a ∷ b ∷ c ∷ d ∷ e ∷ f ∷ g ∷ h ∷ i ∷ j ∷ []
date_of s = []

-- `YYYY-MM-DD.H` and what follows it
unfoldable pub dated_hour : Bytes → Option (HourId × Bytes)
unfolding after_shape hour_digits
dated_hour s = elim (after_shape (codes "dddd-dd-dd.") s) [
  | none ↦ none
  | some rest ↦ elim (hour_digits rest) [
    | none ↦ none
    | some (h, tail) ↦ some (record { date = date_of s; hour = h }, tail)
  ]
]

abbrev offset_of : HourId → Option ℕ → Option (HourId × ℕ)
offset_of id none = none
offset_of id (some off) = if leb off max_int64 then some (id, off) else none

abbrev hour_offset : HourId → Bytes → Option (HourId × ℕ)
hour_offset id (colon ∷ d ∷ s) =
    if colon == b':' then offset_of id (parse_digits 0 (d ∷ s)) else none
hour_offset id s = none

-- ParseHourMarker: `YYYY-MM-DD.H:offset`
unfoldable pub parse_hour_marker : Bytes → Option (HourId × ℕ)
unfolding dated_hour parse_digits
parse_hour_marker marker = elim (dated_hour marker) [
  | none ↦ none
  | some (id, s) ↦ hour_offset id s
]

abbrev only_hour : Option (HourId × Bytes) → Option HourId
only_hour (some (id, [])) = some id
only_hour r = none

-- `.YYYY-MM-DD.H` up to the end
unfoldable pub rotated_suffix : Bytes → Option HourId
unfolding dated_hour
rotated_suffix [] = none
rotated_suffix (c ∷ s) = if c == b'.' then only_hour (dated_hour s) else none

abbrev cons_base : ℕ → Option (Bytes × HourId) → Option (Bytes × HourId)
cons_base c none = none
cons_base c (some (base, id)) = some (c ∷ base, id)

unfoldable pub cut_suffix : Bytes → Option (Bytes × HourId)
unfolding rotated_suffix
cut_suffix [] = none
cut_suffix (c ∷ s) =
    let later = cons_base c (cut_suffix s) in
    elim (rotated_suffix (c ∷ s)) [ none ↦ later | some id ↦ some ([], id) ]

-- `.+\.log`, where the dot of `.+` takes any byte but a newline
unfoldable pub is_log_base : Bytes → Bool
unfolding same has_byte
is_log_base base =
    ltb 4 (length base)
    && same (drop (length base - 4) base) (codes ".log")
    && not (has_byte 10 base)

abbrev only_log : Option (Bytes × HourId) → Option (Bytes × HourId)
only_log none = none
only_log (some (base, id)) = if is_log_base base then some (base, id) else none

-- SplitRotated: the base name and the hour of an hourly-rotated file
unfoldable pub split_rotated : Bytes → Option (Bytes × HourId)
unfolding cut_suffix is_log_base
split_rotated name = only_log (cut_suffix name)
