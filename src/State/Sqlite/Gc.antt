-- ===== src/State/Sqlite/Gc.antt =====
-- The collection of checkpoints of files that are gone.
use rdstail.Prelude.{
  ℕ, ◌+◌, ◌≡◌, refl, Bool, true, false, not, none, some, List, [], ◌∷◌, Bytes, arith, same_refl,
  length, length-keep_if, keep_if,
}
use rdstail.Prelude.Int.{ltz}
use rdstail.Record.{Checkpoint, Time}
use rdstail.Failure.{ok}
use rdstail.State.{entry_of, checkpoint_of, to_unix_milli}
use rdstail.State.Sqlite.{
  Row, is_row_of, first_checkpoint, sqlite_get, sqlite_set, upsert, is_stale, gc_checkpoints,
}

keep_if-none :
    {A : Type 0} (p : A → Bool) (xs : List A) → keep_if p (keep_if (λ x. not (p x)) xs) ≡ []
keep_if-none p [] = refl
keep_if-none p (x ∷ xs) = ground (arith, keep_if-none p xs)

keep_if-again : {A : Type 0} (p : A → Bool) (xs : List A) → keep_if p (keep_if p xs) ≡ keep_if p xs
keep_if-again p [] = refl
keep_if-again p (x ∷ xs) = ground (arith, keep_if-again p xs)

-- A dry run of the collection changes nothing and returns the number n of rows that the collection
-- itself then deletes and returns; with the n rows gone, the collection with the same bound would
-- delete none.
pub gc_checkpoints_counts :
    (rows : List Row) (older_than : Time)
    → ((n : ℕ) × (kept : List Row) × (gc_checkpoints none rows older_than true ≡ ok (n, rows))
        × (gc_checkpoints none rows older_than false ≡ ok (n, kept))
        × (n + length kept ≡ length rows)
        × (gc_checkpoints none kept older_than false ≡ ok (0, kept)))
unfolding gc_checkpoints
gc_checkpoints_counts rows older_than =
    let stale = keep_if (is_stale older_than) rows in
    (
      length stale,
      keep_if (λ r. not (is_stale older_than r)) rows,
      refl,
      refl,
      length-keep_if _ rows,
      rw
          (
            keep_if-none (is_stale older_than) rows,
            keep_if-again (λ r. not (is_stale older_than r)) rows,
          )
          refl,
    )

first-upsert :
    (rows : List Row) (new : Row) (older_than : Time)
    → is_stale older_than new ≡ false
    → first_checkpoint (
        keep_if
          (is_row_of new.instance_id new.log_file)
          (keep_if (λ r. not (is_stale older_than r)) (upsert rows new)))
      ≡ some (checkpoint_of new.entry)
unfolding upsert
first-upsert [] new older_than fresh =
    ground (arith, same_refl new.instance_id, same_refl new.log_file, fresh)
first-upsert (r ∷ rows) new older_than fresh = ground (
  arith,
  same_refl new.instance_id,
  same_refl new.log_file,
  fresh,
  first-upsert rows new older_than fresh,
)

-- A checkpoint that was stored at a time that is not before the bound, to the millisecond, survives
-- the collection.
pub sqlite_get-gc_checkpoints :
    (now older_than : Time) (rows stored kept : List Row) (n : ℕ) (a f : Bytes) (c : Checkpoint)
    → ltz (to_unix_milli now) (to_unix_milli older_than) ≡ false
    → sqlite_set none now rows a f c ≡ ok stored
    → gc_checkpoints none stored older_than false ≡ ok (n, kept)
    → sqlite_get none kept a f ≡ ok (some (checkpoint_of (entry_of c)))
unfolding sqlite_set gc_checkpoints sqlite_get
sqlite_get-gc_checkpoints now older_than rows stored kept n a f c fresh set collected =
    let new : Row = record {
      instance_id = a;
      log_file = f;
      entry = entry_of c;
      updated_at = to_unix_milli now;
    } in
    let e = first-upsert rows new older_than fresh in ground (arith, set, collected, e)
