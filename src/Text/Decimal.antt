-- ===== src/Text/Decimal.antt =====
-- strconv.FormatInt(n, 10) of a number that is not negative, and strconv.ParseInt(s, 10, 64).
use rdstail.Prelude.{
  ℕ, zero, suc, ◌+◌, ◌-◌, ◌*◌, ◌/◌, ◌%◌, ◌^◌, ◌≤◌, ◌<◌, ◌≡◌, refl, Bool, false, inl, inr, ◌&&◌,
  Option, none, some, [], ◌∷◌, arith, Bytes, ltb, leb, ◌==◌, if◌then◌else◌, Bool-cases, ltb→lt,
}
use rdstail.Prelude.Int.{ℤ, pos, negate}
use rdstail.Text.Index.{has_byte}

unfoldable pub is_digit : ℕ → Bool
is_digit c = leb b'0' c && leb c b'9'

unfoldable pub parse_digits : ℕ → Bytes → Option ℕ
unfolding is_digit
parse_digits n [] = some n
parse_digits n (c ∷ s) =
    let rest = parse_digits (n * 10 + (c - b'0')) s in if is_digit c then rest else none

-- At least one digit.
abbrev pub parse_unsigned : Bytes → Option ℕ
parse_unsigned [] = none
parse_unsigned (c ∷ s) = parse_digits 0 (c ∷ s)

abbrev pub max_int64 : ℕ
max_int64 = 2 ^ 63 - 1

abbrev in_range : ℕ → (ℕ → ℤ) → Option ℕ → Option ℤ
in_range bound sign none = none
in_range bound sign (some n) = if leb n bound then some (sign n) else none

-- An optional sign and digits, within 64 bits.
unfoldable pub parse_int : Bytes → Option ℤ
unfolding parse_digits
parse_int [] = none
parse_int (c ∷ s) =
    if c == b'-'
    then in_range (max_int64 + 1) negate (parse_unsigned s)
    else in_range max_int64 pos (if c == b'+' then parse_unsigned s else parse_unsigned (c ∷ s))

format_digits : ℕ → ℕ → Bytes → Bytes
format_digits zero n acc = acc
format_digits (suc f) n acc =
    let more = format_digits f (n / 10) ((b'0' + n % 10) ∷ acc) in
    if ltb n 10 then (b'0' + n) ∷ acc else more

unfoldable pub format_int : ℕ → Bytes
unfolding format_digits
format_int n = format_digits (suc n) n []

parse-format_digits :
    (f n : ℕ) (acc : Bytes) → n < f → parse_digits 0 (format_digits f n acc) ≡ parse_digits n acc
unfolding parse_digits format_digits
parse-format_digits zero n acc h = elim h [ ]
parse-format_digits (suc f) n acc h =
    ground (arith, parse-format_digits f (n / 10) ((b'0' + n % 10) ∷ acc))

-- The first byte is a digit, so there is no sign.
format_digits-digit :
    (f n : ℕ) (acc : Bytes)
    → n < f
    → (c : ℕ) × (s : Bytes) × (format_digits f n acc ≡ c ∷ s) × (b'0' ≤ c) × (c ≤ b'9')
unfolding format_digits
format_digits-digit zero n acc h = elim h [ ]
format_digits-digit (suc f) n acc h = elim (Bool-cases (ltb n 10)) [
  | inl small ↦ (b'0' + n, acc, rw small, omega arith, omega (arith, ltb→lt n 10 small))
  | inr big ↦ rw big (format_digits-digit f (n / 10) ((b'0' + n % 10) ∷ acc) (ground arith))
]

digits_within :
    (s t : Bytes) (c n : ℕ)
    → s ≡ c ∷ t
    → b'0' ≤ c
    → c ≤ b'9'
    → parse_digits 0 s ≡ some n
    → n ≤ max_int64
    → parse_int s ≡ some (pos n)
unfolding parse_int
digits_within s t c n e lo hi p r = ground arith

pub parse_int-format_int : (n : ℕ) → n ≤ max_int64 → parse_int (format_int n) ≡ some (pos n)
unfolding format_int
parse_int-format_int n h =
    let (c, s, e, lo, hi) = format_digits-digit (suc n) n [] (omega arith) in
    digits_within _ s c n e lo hi
      (unfold parse_digits in parse-format_digits (suc n) n [] (omega arith)) h

has_byte-format_digits :
    (c f n : ℕ) (acc : Bytes)
    → b'9' < c
    → has_byte c acc ≡ false
    → has_byte c (format_digits f n acc) ≡ false
unfolding has_byte format_digits
has_byte-format_digits c zero n acc h a = a
has_byte-format_digits c (suc f) n acc h a =
    ground (arith, has_byte-format_digits c f (n / 10) ((b'0' + n % 10) ∷ acc))

-- A colon, for one, is not written.
pub has_byte-format_int : (c n : ℕ) → b'9' < c → has_byte c (format_int n) ≡ false
unfolding format_int
has_byte-format_int c n h = has_byte-format_digits c (suc n) n [] h (unfold has_byte in refl)
