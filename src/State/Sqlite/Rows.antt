-- ===== src/State/Sqlite/Rows.antt =====
-- The checkpoint table as a map from instance and log file.
use rdstail.Prelude.{
  ℕ, zero, suc, ◌+◌, ◌-◌, ◌%◌, ◌^◌, inl, inr, Bool-cases, ltb, leb, ◌≡◌, refl, not, ◌&&◌, Option,
  none, some, List, [], ◌∷◌, Bytes, ap, ◌∙◌, arith, same, same_iff, keep_if, if◌then◌else◌,
}
use rdstail.Record.{Checkpoint, Time}
use rdstail.Failure.{Failure, Result, ok, value_or}
use rdstail.State.{find, entry_of, checkpoint_of, time_of, to_unix_milli}
use rdstail.Source.FileMeta.{unix_epoch}
use rdstail.Prelude.Int.{negate}
use rdstail.State.Sqlite.{
  Row, is_row_of, first_checkpoint, checkpoints_of, sqlite_get, sqlite_set, sqlite_delete,
  sqlite_list, upsert,
}

-- What a store of checkpoints is to its callers.
abbrev pub Abstract : Type 0
Abstract = Bytes → Bytes → Option Checkpoint

-- A call that changes the store.
pub data Change : Type 0 where
  set_to : Time → Bytes → Bytes → Checkpoint → Change
  delete_of : Bytes → Bytes → Change

-- A time is kept to the millisecond below; one before the first millisecond after 1970-01-01 has passed
-- is kept as no time.
abbrev pub kept_time : Time → Time
kept_time t = if ltb t (unix_epoch + 10 ^ 6) then 0 else t - t % 10 ^ 6

-- All of a checkpoint but its time is kept as it is.
abbrev pub kept : Checkpoint → Checkpoint
kept c = record c { last_written = kept_time c.last_written }

negate-cases : (n : ℕ) → time_of (negate n) ≡ 0
negate-cases zero = refl
negate-cases (suc n) = refl

time_of-to_unix_milli : (t : Time) → time_of (to_unix_milli t) ≡ kept_time t
unfolding to_unix_milli
time_of-to_unix_milli t = elim (Bool-cases (leb unix_epoch t)) [
  | inl later ↦ ground (arith, later)
  | inr early ↦ rw early (negate-cases _ ∙ ground (arith, early))
]

checkpoint_of-entry_of : (c : Checkpoint) → checkpoint_of (entry_of c) ≡ kept c
unfolding checkpoint_of entry_of to_unix_milli
checkpoint_of-entry_of c =
    ap (λ (t : Time). record c { last_written = t }) (time_of-to_unix_milli c.last_written)

abbrev pub change_abstract : Abstract → Change → Abstract
change_abstract m (set_to now a f c) b g = if same a b && same f g then some (kept c) else m b g
change_abstract m (delete_of a f) b g = if same a b && same f g then none else m b g

-- The abstract store after the calls that were executed, in order; a refused one has no effect.
abbrev pub abstract_after : List (Option Failure × Change) → Abstract → Abstract
abstract_after [] m = m
abstract_after ((none, ch) ∷ cs) m = abstract_after cs (change_abstract m ch)
abstract_after ((some e, ch) ∷ cs) m = abstract_after cs m

-- The table after the calls.
abbrev change_rows : Option Failure → List Row → Change → Result (List Row)
change_rows refused rows (set_to now a f c) = sqlite_set refused now rows a f c
change_rows refused rows (delete_of a f) = sqlite_delete refused rows a f

abbrev pub rows_after : List (Option Failure × Change) → List Row → List Row
rows_after [] rows = rows
rows_after ((refused, ch) ∷ cs) rows = rows_after cs (value_or rows (change_rows refused rows ch))

abbrev pub view : List Row → Abstract
view rows a f = first_checkpoint (keep_if (is_row_of a f) rows)

view-upsert :
    (rows : List Row) (new : Row) (b g : Bytes)
    → view (upsert rows new) b g ≡ (
        if same new.instance_id b && same new.log_file g
        then some (checkpoint_of new.entry)
        else view rows b g)
unfolding upsert
view-upsert [] new b g = ground arith
view-upsert (r ∷ rows) new b g = ground (
  arith,
  view-upsert rows new b g,
  same_iff r.instance_id new.instance_id,
  same_iff r.log_file new.log_file,
  same_iff r.instance_id b,
  same_iff new.instance_id b,
  same_iff r.log_file g,
  same_iff new.log_file g,
)

view-delete :
    (rows : List Row) (a f b g : Bytes)
    → view (keep_if (λ r. not (is_row_of a f r)) rows) b g
      ≡ (if same a b && same f g then none else view rows b g)
view-delete [] a f b g = ground arith
view-delete (r ∷ rows) a f b g = ground (
  arith,
  view-delete rows a f b g,
  same_iff r.instance_id a,
  same_iff r.log_file f,
  same_iff r.instance_id b,
  same_iff a b,
  same_iff r.log_file g,
  same_iff f g,
)

change-agrees :
    (m m' : Abstract) (ch : Change)
    → ((b g : Bytes) → m b g ≡ m' b g)
    → (b g : Bytes) → change_abstract m ch b g ≡ change_abstract m' ch b g
change-agrees m m' (set_to now a f c) agree b g = ground (arith, agree b g)
change-agrees m m' (delete_of a f) agree b g = ground (arith, agree b g)

abstract_after-agrees :
    (cs : List (Option Failure × Change)) (m m' : Abstract)
    → ((b g : Bytes) → m b g ≡ m' b g)
    → (a f : Bytes) → abstract_after cs m a f ≡ abstract_after cs m' a f
abstract_after-agrees [] m m' agree a f = agree a f
abstract_after-agrees ((none, ch) ∷ cs) m m' agree a f =
    abstract_after-agrees cs (change_abstract m ch) (change_abstract m' ch)
      (change-agrees m m' ch agree) a f
abstract_after-agrees ((some e, ch) ∷ cs) m m' agree a f = abstract_after-agrees cs m m' agree a f

view-change :
    (rows : List Row) (ch : Change) (b g : Bytes)
    → view (value_or rows (change_rows none rows ch)) b g ≡ change_abstract (view rows) ch b g
unfolding sqlite_set sqlite_delete
view-change rows (set_to now a f c) b g =
    view-upsert rows _ b g
    ∙ ap (λ k. if same a b && same f g then some k else view rows b g) (checkpoint_of-entry_of c)
view-change rows (delete_of a f) b g = view-delete rows a f b g

change_rows-refused :
    (e : Failure) (rows : List Row) (ch : Change)
    → value_or rows (change_rows (some e) rows ch) ≡ rows
unfolding sqlite_set sqlite_delete
change_rows-refused e rows (set_to now a f c) = refl
change_rows-refused e rows (delete_of a f) = refl

view-rows_after :
    (cs : List (Option Failure × Change)) (rows : List Row) (a f : Bytes)
    → view (rows_after cs rows) a f ≡ abstract_after cs (view rows) a f
view-rows_after [] rows a f = refl
view-rows_after ((none, ch) ∷ cs) rows a f =
    let rows' = value_or rows (change_rows none rows ch) in
    view-rows_after cs rows' a f
    ∙ abstract_after-agrees cs (view rows') (change_abstract (view rows) ch) (view-change rows ch) a
        f
view-rows_after ((some e, ch) ∷ cs) rows a f =
    rw (change_rows-refused e rows ch) (view-rows_after cs rows a f)

-- After any sequence of calls of Set and Delete, of which the engine refuses any, Get returns for each
-- instance and log file what the abstract store holds: what was set last and not deleted since, with
-- its time kept to the millisecond, where refused calls have no effect, and what the table held
-- before for a pair that no call names.
pub sqlite_get-refines :
    (cs : List (Option Failure × Change)) (rows : List Row) (a f : Bytes)
    → sqlite_get none (rows_after cs rows) a f ≡ ok (abstract_after cs (view rows) a f)
unfolding sqlite_get
sqlite_get-refines cs rows a f = ap ok (view-rows_after cs rows a f)

find-checkpoints_of :
    (rows : List Row) (a f : Bytes)
    → find (checkpoints_of (keep_if (λ r. same r.instance_id a) rows)) f ≡ view rows a f
unfolding find
find-checkpoints_of [] a f = refl
find-checkpoints_of (r ∷ rows) a f = ground (arith, find-checkpoints_of rows a f)

-- What List returns for an instance holds for each log file what Get returns for it, and nothing for
-- a log file for which Get finds nothing.
pub find-sqlite_list :
    (rows : List Row) (a f : Bytes) (listed : List (Bytes × Checkpoint))
    → sqlite_list none rows a ≡ ok listed
    → sqlite_get none rows a f ≡ ok (find listed f)
unfolding sqlite_list sqlite_get
find-sqlite_list rows a f listed h = ground (arith, h, find-checkpoints_of rows a f)
