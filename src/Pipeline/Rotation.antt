-- ===== src/Pipeline/Rotation.antt =====
-- internal/pipeline/worker.go: planRotation, which hands checkpoints over when RDS MySQL/MariaDB
-- renames an hourly log file. The store is the instance's checkpoints by log file; which reads and
-- writes of it fail is an argument, each file being read and written at most once in a plan.
pub mod Hours
pub mod HandOver
pub mod Whole
use Prim.Native.Nat.{Ordering}
use rdstail.Prelude.{
  ℕ, ◌||◌, ◌&&◌, Bool, true, false, not, Option, none, some, List, [], ◌∷◌, ◌++◌, Bytes, same, ltb,
  update, if◌then◌else◌,
}
use rdstail.Record.{Checkpoint}
use rdstail.Failure.{Failure, Result, ok, err, other}
use rdstail.Source.FileMeta.{FileMeta}
use rdstail.Source.Hour.{HourId, same_hour, compare_hour, parse_hour_marker, split_rotated}
use rdstail.Source.Marker.{marker_beginning}

-- rotatedFile
pub record RotatedFile : Type 0 where
  pub meta : FileMeta
  pub id : HourId

abbrev pub Store : Type 0
Store = Bytes → Option Checkpoint

pub record Faults : Type 0 where
  pub get_fails : Bytes → Bool
  pub set_fails : Bytes → Bool

-- state.Checkpoint{Marker: m}
abbrev pub at_marker : Bytes → Checkpoint
at_marker m = record {
  marker = m;
  bytes_written = 0;
  file_size = 0;
  last_written = 0;
  skip_continuation = false;
}

-- What is known of the base file: the hour of its checkpoint if it has one, whether that hour was
-- rotated out or purged, and whether a new base backfills.
pub record BaseState : Type 0 where
  pub found : Bool
  pub marker : Bytes
  pub hour : Option HourId
  pub rotated : Bool
  pub gap : Bool
  pub backfill : Bool

abbrev hour_of : Option (HourId × ℕ) → Option HourId
hour_of none = none
hour_of (some (id, off)) = some id

-- r.id == bid for some r
unfoldable pub has_hour : HourId → List RotatedFile → Bool
has_hour id [] = false
has_hour id (r ∷ rs) = same_hour r.id id || has_hour id rs

abbrev pub is_before : HourId → HourId → Bool
is_before a b = elim (compare_hour a b) [ Ordering.lt ↦ true | _ ↦ false ]

abbrev pub is_after : HourId → HourId → Bool
is_after a b = elim (compare_hour a b) [ Ordering.gt ↦ true | _ ↦ false ]

-- bid.Compare(rotated[len(rotated)-1].id) < 0
unfoldable pub before_last : HourId → List RotatedFile → Bool
before_last id [] = false
before_last id (r ∷ []) = is_before id r.id
before_last id (r ∷ r' ∷ rs) = before_last id (r' ∷ rs)

abbrev pub base_with_hour : Bytes → List RotatedFile → Bool → Option HourId → BaseState
base_with_hour marker rs backfill none = record {
  found = true;
  marker = marker;
  hour = none;
  rotated = false;
  gap = false;
  backfill = false;
}
base_with_hour marker rs backfill (some b) = record {
  found = true;
  marker = marker;
  hour = some b;
  rotated = has_hour b rs;
  gap = not (has_hour b rs) && before_last b rs;
  backfill = false;
}

-- From the base's checkpoint and the rotated files, sorted; `from_start` is startFor(base) being the
-- beginning.
unfoldable pub base_state : Option Checkpoint → List RotatedFile → Bool → BaseState
unfolding has_hour before_last
base_state none rs from_start = record {
  found = false;
  marker = [];
  hour = none;
  rotated = false;
  gap = false;
  backfill = from_start;
}
base_state (some c) rs from_start =
    base_with_hour c.marker rs from_start (hour_of (parse_hour_marker c.marker))

-- The marker that a rotated file with no checkpoint of its own starts from, if it is read at all.
unfoldable pub seed_for : BaseState → HourId → Option Bytes
seed_for b id =
    if not b.found then (if b.backfill then some marker_beginning else none) else (elim b.hour [
      | none ↦ none
      | some h ↦
          if same_hour id h
          then some b.marker
          else if is_after id h
          then (if b.rotated || b.gap then some marker_beginning else none)
          else none
    ])

-- Drained until the stored offset reaches the size of the file, which no longer grows.
unfoldable pub is_unfinished : Checkpoint → FileMeta → Bool
is_unfinished c file = elim (parse_hour_marker c.marker) [
  | none ↦ true
  | some (_, off) ↦ ltb off file.size
]

-- The files to drain, and the store.
abbrev pub Plan : Type 0
Plan = Result (List FileMeta) × Store

abbrev pub add_file : FileMeta → Plan → Plan
add_file file (ok files, s) = (ok (file ∷ files), s)
add_file file (err e, s) = (err e, s)

-- The loop over the rotated files of one base.
unfoldable pub plan_hours : Faults → BaseState → List RotatedFile → Store → Plan
unfolding seed_for is_unfinished
plan_hours x b [] s = (ok [], s)
plan_hours x b (r ∷ rs) s =
    let name = r.meta.name in
    let skipped = plan_hours x b rs s in
    let seeded = λ (seed : Bytes). plan_hours x b rs (update s name (some (at_marker seed))) in
    if x.get_fails name then (err (other ∷ []), s) else (elim (s name) [
      | some c ↦ if is_unfinished c r.meta then add_file r.meta skipped else skipped
      | none ↦ elim (seed_for b r.id) [
        | none ↦ skipped
        | some seed ↦
            if x.set_fails name then (err (other ∷ []), s) else add_file r.meta (seeded seed)
      ]
    ])

-- The base file restarts at the live file's beginning once its hour was handed over or lost.
abbrev pub reset_base : Faults → BaseState → Bytes → Plan → Plan
reset_base x b base (err e, s) = (err e, s)
reset_base x b base (ok files, s) =
    if b.rotated || b.gap
    then (if x.set_fails base
        then (err (other ∷ []), s)
        else (ok files, update s base (some (at_marker marker_beginning))))
    else (ok files, s)

-- One round of planRotation's loop over the base files.
unfoldable pub plan_base : Faults → Bytes → List RotatedFile → Bool → Store → Plan
unfolding base_state plan_hours
plan_base x base rs from_start s =
    let b = base_state (s base) rs from_start in
    if x.get_fails base then (err (other ∷ []), s) else reset_base x b base (plan_hours x b rs s)

unfoldable pub is_present : Bytes → List FileMeta → Bool
is_present name [] = false
is_present name (f ∷ files) = same f.name name || is_present name files

-- The rotated files whose base is listed, with the base's name; the others are ordinary files.
unfoldable pub rotated_base : List FileMeta → FileMeta → Option (Bytes × RotatedFile)
unfolding is_present
rotated_base files f = elim (split_rotated f.name) [
  | none ↦ none
  | some (base, id) ↦
      if is_present base files then some (base, record { meta = f; id = id }) else none
]
