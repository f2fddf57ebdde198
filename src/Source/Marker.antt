-- ===== src/Source/Marker.antt =====
-- internal/source/rds/fetcher.go: markers of the shape `<prefix>:<byte offset>`.
use rdstail.Prelude.{
  ℕ, zero, suc, ◌≤◌, ◌≡◌, ◌≢◌, refl, Option, none, some, [], ◌∷◌, ◌++◌, arith, Bytes, codes, take,
  drop, length,
}
use rdstail.Prelude.Int.{ℤ, pos}
use rdstail.Text.{
  last_index_byte, last_index_byte-split, parse_int, format_int, parse_int-format_int,
  has_byte-format_int, max_int64,
}

abbrev pub marker_beginning : Bytes
marker_beginning = codes "0"

abbrev with_offset : Bytes → Option ℤ → Option (Bytes × ℤ)
with_offset prefix none = none
with_offset prefix (some off) = some (prefix, off)

abbrev cut_marker : Bytes → Option ℕ → Option (Bytes × ℤ)
cut_marker marker none = none
cut_marker marker (some zero) = none
cut_marker marker (some (suc i)) =
    with_offset (take (suc i) marker) (parse_int (drop (suc (suc i)) marker))

-- OffsetMarker
unfoldable pub offset_marker : Bytes → Option (Bytes × ℤ)
offset_marker marker = cut_marker marker (last_index_byte b':' marker)

-- prefix + ":" + strconv.FormatInt(off, 10)
abbrev pub make_marker : Bytes → ℕ → Bytes
make_marker prefix off = prefix ++ b':' ∷ format_int off

take-append_self : (p s : Bytes) → take (length p) (p ++ s) ≡ p
take-append_self [] s = refl
take-append_self (x ∷ p) s = ground (arith, take-append_self p s)

drop-append_self : (p s : Bytes) (c : ℕ) → drop (suc (length p)) (p ++ c ∷ s) ≡ s
drop-append_self [] s c = refl
drop-append_self (x ∷ p) s c = drop-append_self p s c

-- Building a marker and splitting it again gives back its prefix and its offset.
pub offset_marker-make_marker :
    (prefix : Bytes) (off : ℕ)
    → prefix ≢ []
    → off ≤ max_int64
    → offset_marker (make_marker prefix off) ≡ some (prefix, pos off)
unfolding offset_marker
offset_marker-make_marker [] off h k = absurd (h refl)
offset_marker-make_marker (x ∷ p) off h k =
    rw
      (last_index_byte-split b':' (x ∷ p) (format_int off)
        (has_byte-format_int b':' off (omega arith)))
      (rw
        (
          drop-append_self p (format_int off) b':',
          take-append_self p (b':' ∷ format_int off),
          parse_int-format_int off k,
        )
        refl)
