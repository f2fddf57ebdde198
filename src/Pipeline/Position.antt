-- ===== src/Pipeline/Position.antt =====
-- internal/pipeline/worker.go: where in a file reading starts and restarts.
pub mod Rewind
use rdstail.Prelude.{
  ℕ, zero, suc, ◌-◌, ◌*◌, ◌^◌, min, Bool, true, false, Option, none, some, Bytes, leb,
  if◌then◌else◌,
}
use rdstail.Prelude.Int.{ℤ, pos, negsuc}
use rdstail.Source.Hour.{HourId, parse_hour_marker, same_hour}
use rdstail.Source.Marker.{offset_marker, marker_beginning, make_marker}

abbrev pub rewind_bytes : ℕ
rewind_bytes = 256 * 2 ^ 10

-- `start <= 0` begins at the beginning of the file.
abbrev pub rewind_to : Bytes → ℕ → Bytes × Bool
rewind_to prefix zero = (marker_beginning, false)
rewind_to prefix (suc n) = (make_marker prefix (suc n), true)

-- rewindMarker: where to re-read from, and whether its first line may be partial
unfoldable pub rewind_marker : Bytes → ℕ → Bytes × Bool
rewind_marker marker size = elim (offset_marker marker) [
  | none ↦ (marker_beginning, false)
  | some (prefix, pos off) ↦ rewind_to prefix (min off size - rewind_bytes)
  | some (prefix, negsuc off) ↦ (marker_beginning, false)
]

-- markerStillValid
unfoldable pub marker_still_valid : Bytes → ℕ → Bool
marker_still_valid marker size = elim (parse_hour_marker marker) [
  | none ↦ false
  | some (_, off) ↦ leb off size
]

-- anchorSize, of the file's size and its size at first discovery
unfoldable pub anchor_size : ℕ → Option ℕ → ℕ
anchor_size size none = size
anchor_size size (some n) = if leb n size then n else size

-- sameHourFile
unfoldable pub same_hour_file : Bytes → Bytes → Bool
same_hour_file a b = elim (parse_hour_marker a) [
  | none ↦ elim (parse_hour_marker b) [ none ↦ true | some _ ↦ false ]
  | some (ia, _) ↦ elim (parse_hour_marker b) [ none ↦ false | some (ib, _) ↦ same_hour ia ib ]
]
