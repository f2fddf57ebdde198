-- ===== src/Tests/Ranging.antt =====
-- Ranged reads, on a file that RDS sends in one portion.
use rdstail.Source.Truncation.{is_truncated}
use rdstail.Prelude.{
  ℕ, ◌≡◌, ◌≢◌, refl, sym, subst, arith, true, false, Option, none, some, List, [], ◌∷◌, Bytes, take,
  drop, length, codes,
}
use rdstail.Failure.{Result, ok}
use rdstail.Text.{index_byte, last_index_byte, parse_int}
use rdstail.Source.Marker.{make_marker}
use rdstail.Source.Portion.{Call, Response, RawPortion, raw_portion, pull_raw}
use rdstail.Source.Ranges.{is_exact, read_range}
use rdstail.Source.Ranges.Cutting.{IsNext}
use rdstail.Source.Ranges.Slices.{IsServed}
use rdstail.Source.Ranges.Returning.{read_range-returns}

-- a\nb\nc\nd
abbrev content : Bytes
content = b'a' ∷ b'\n' ∷ b'b' ∷ b'\n' ∷ b'c' ∷ b'\n' ∷ b'd' ∷ []

abbrev portions : List Call → Call → Result Response
portions calls c = ok (record { log_text = content; marker = codes "h:7"; pending = false })

abbrev whole : RawPortion
whole = record { log_text = content; next = codes "h:7"; pending = false; truncated = 0 }

pulled_whole :
    (m : Bytes) (calls : List Call) (raw : RawPortion)
    → (pull_raw portions (codes "f") m calls).0 ≡ ok raw
    → raw ≡ whole
unfolding pull_raw rdstail.Source.Portion.pull_attempts rdstail.Source.Portion.download raw_portion
    rdstail.Source.Truncation.is_truncated
pulled_whole m calls raw h = ground (arith, h)

exact_whole : (at : ℕ) → is_exact at whole ≡ true → at ≡ 0
unfolding is_exact rdstail.Source.Marker.offset_marker last_index_byte parse_int
exact_whole at h = ground (arith, h)

served : IsServed portions (codes "f") (codes "h") content
served at calls raw h exact =
    let is_whole = pulled_whole (make_marker (codes "h") at) calls raw h in
    let at_zero = exact_whole at (subst (λ r. is_exact at r ≡ true) is_whole exact) in
    subst (λ k. raw.log_text ≡ take (length raw.log_text) (drop k content)) (sym at_zero)
      (subst (λ r. r.log_text ≡ take (length r.log_text) (drop 0 content)) (sym is_whole) refl)

abbrev read : Option (Result (Bytes × ℕ) × List Call)
read = read_range portions 8 (codes "f") (codes "h") 0 (some 4) true []

abbrev calls_of : Option (Result (Bytes × ℕ) × List Call) → List Call
calls_of none = []
calls_of (some (r, calls)) = calls

read_range-returns_example : (r : Result (Bytes × ℕ) × List Call) × (read ≡ some r)
read_range-returns_example =
    read_range-returns portions (codes "f") (codes "h") content served 8 0 (some 4) true []
      (omega arith)

abbrev read_first : Option (Result (Bytes × ℕ) × List Call)
read_first = read_range portions 8 (codes "f") (codes "h") 0 (some 1) true []

abbrev read_second : Option (Result (Bytes × ℕ) × List Call)
read_second = read_range portions 8 (codes "f") (codes "h") 1 (some 4) false []

ends_line : IsNext content 0 2
unfolding index_byte
ends_line = (1, refl, refl)

full : (c : ℕ) (s : Bytes) → c ∷ s ≢ []
full c s h = ground (arith, h)
