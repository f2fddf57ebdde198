-- ===== src/State/Sqlite.antt =====
-- internal/state/sqlite/store.go: the checkpoint table and the schema of the SQLite backend. A table
-- is a list of rows and a statement is the function of the tables that SQL says it is; the engine may
-- refuse any statement, and which ones it refuses is an argument.
pub mod Rows
pub mod Gc
pub mod Migration
use rdstail.Prelude.{
  ℕ, ◌+◌, zero, suc, ◌&&◌, ◌||◌, ◌==◌, Bool, true, false, not, Option, none, some, List, [], ◌∷◌,
  Bytes, same, ltb, leb, max, length, keep_if, if◌then◌else◌,
}
use rdstail.Prelude.Int.{ltz, ℤ, pos, negsuc}
use rdstail.Record.{Checkpoint, Time}
use rdstail.Failure.{Failure, Result, ok, err, other}
use rdstail.State.{Entry, entry_of, checkpoint_of, to_unix_milli}

-- A row of checkpoints
pub record Row : Type 0 where
  pub instance_id : Bytes
  pub log_file : Bytes
  pub entry : Entry
  pub updated_at : ℤ

-- WHERE instance_id = ? AND log_file = ?
abbrev pub is_row_of : Bytes → Bytes → Row → Bool
is_row_of instance_id log_file r = same r.instance_id instance_id && same r.log_file log_file

-- The result of a statement that the engine may refuse; the error is wrapped.
abbrev pub unless_refused {ℓ} : {A : Type ℓ} → Option Failure → A → Result A
unless_refused none a = ok a
unless_refused (some e) a = err e

-- QueryRow, and Scan
abbrev pub first_checkpoint : List Row → Option Checkpoint
first_checkpoint [] = none
first_checkpoint (r ∷ rs) = some (checkpoint_of r.entry)

-- Get
unfoldable pub sqlite_get : Option Failure → List Row → Bytes → Bytes → Result (Option Checkpoint)
unfolding checkpoint_of
sqlite_get refused rows instance_id log_file =
    unless_refused refused (first_checkpoint (keep_if (is_row_of instance_id log_file) rows))

-- INSERT ... ON CONFLICT(instance_id, log_file) DO UPDATE
unfoldable pub upsert : List Row → Row → List Row
upsert [] new = new ∷ []
upsert (r ∷ rs) new =
    if is_row_of new.instance_id new.log_file r then new ∷ rs else r ∷ upsert rs new

-- Set, at the time `now`
unfoldable pub sqlite_set :
    Option Failure → Time → List Row → Bytes → Bytes → Checkpoint → Result (List Row)
unfolding upsert entry_of to_unix_milli
sqlite_set refused now rows instance_id log_file c = unless_refused refused (
    upsert rows (record {
      instance_id = instance_id;
      log_file = log_file;
      entry = entry_of c;
      updated_at = to_unix_milli now;
    }))

abbrev pub checkpoints_of : List Row → List (Bytes × Checkpoint)
checkpoints_of [] = []
checkpoints_of (r ∷ rs) = (r.log_file, checkpoint_of r.entry) ∷ checkpoints_of rs

-- List
unfoldable pub sqlite_list : Option Failure → List Row → Bytes → Result (List (Bytes × Checkpoint))
unfolding checkpoint_of
sqlite_list refused rows instance_id =
    unless_refused refused (checkpoints_of (keep_if (λ r. same r.instance_id instance_id) rows))

-- Delete
unfoldable pub sqlite_delete : Option Failure → List Row → Bytes → Bytes → Result (List Row)
sqlite_delete refused rows instance_id log_file =
    unless_refused refused (keep_if (λ r. not (is_row_of instance_id log_file r)) rows)

-- WHERE updated_at < ?
abbrev pub is_stale : Time → Row → Bool
is_stale older_than r = ltz r.updated_at (to_unix_milli older_than)

-- GCCheckpoints: the number it returns, and the table after it.
unfoldable pub gc_checkpoints : Option Failure → List Row → Time → Bool → Result (ℕ × List Row)
unfolding to_unix_milli
gc_checkpoints refused rows older_than dry_run =
    let count = length (keep_if (is_stale older_than) rows) in
    if dry_run
    then unless_refused refused (count, rows)
    else unless_refused refused (count, keep_if (λ r. not (is_stale older_than r)) rows)

-- schemaVersion
abbrev pub schema_version : ℕ
schema_version = 2

-- What the tables look like: whether the DDL ran, the rows of schema_version, and whether checkpoints
-- has the column skip_continuation.
pub record Schema : Type 0 where
  pub has_tables : Bool
  pub versions : List ℕ
  pub has_skip : Bool

-- SELECT COALESCE(MAX(version), 0)
abbrev pub newest_version : List ℕ → ℕ
newest_version [] = 0
newest_version (v ∷ vs) = max v (newest_version vs)

-- The statements of migrate.
pub data Statement : Type 0 where
  create_tables read_version probe_column add_column bump_version : Statement

-- ALTER TABLE, which fails where the column exists
abbrev pub alter : Schema → Option Schema
alter s = if s.has_skip then none else some (record s { has_skip = true })

-- INSERT INTO schema_version, where version is the primary key
abbrev pub is_version : ℕ → List ℕ → Bool
is_version v [] = false
is_version v (u ∷ us) = u == v || is_version v us

abbrev pub insert_version : Schema → Option Schema
insert_version s =
    if is_version schema_version s.versions
    then none
    else some (record s { versions = schema_version ∷ s.versions })

-- The last statement of migrate.
unfoldable pub record_version : (Statement → Option Failure) → Schema → Option Failure × Schema
record_version refused s = elim (refused bump_version) [
  | some e ↦ (some e, s)
  | none ↦ elim (insert_version s) [ none ↦ (some (other ∷ []), s) | some s' ↦ (none, s') ]
]

-- migrate: its error, and the schema after it.
unfoldable pub migrate : (Statement → Option Failure) → Schema → Option Failure × Schema
unfolding record_version
migrate refused s = elim (refused create_tables) [
  | some e ↦ (some e, s)
  | none ↦
      let s1 = record s { has_tables = true } in
      elim (refused read_version) [
        | some e ↦ (some e, s1)
        | none ↦
            if leb schema_version (newest_version s1.versions)
            then (none, s1)
            else (elim (refused probe_column) [
              | some e ↦ (some e, s1)
              | none ↦
                  if s1.has_skip then record_version refused s1 else (elim (refused add_column) [
                    | some e ↦ (some e, s1)
                    | none ↦ elim (alter s1) [
                      | none ↦ (some (other ∷ []), s1)
                      | some s2 ↦ record_version refused s2
                    ]
                  ])
            ])
      ]
]
