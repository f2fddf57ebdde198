-- ===== src/State/Dlq.antt =====
-- internal/state/sqlite/store.go: the dead-letter table and its statements, and the query and item
-- types of internal/state/store.go. Rows stand in the order in which they were inserted. Identifiers
-- are AUTOINCREMENT, so the last one given is kept beside the rows; its end at 2^63 - 1 is not
-- modelled.
pub mod Order
pub mod Paging
pub mod Purge
use rdstail.Prelude.{
  ℕ, zero, suc, ◌+◌, ◌-◌, ◌*◌, ◌^◌, ◌==◌, ◌||◌, ◌&&◌, Bool, true, false, not, Option, none, some,
  List, [], ◌∷◌, ◌++◌, Bytes, same, ltb, length, take, keep_if, map, if◌then◌else◌,
}
use rdstail.Prelude.Int.{ℤ, pos, negsuc}
use rdstail.Record.{Time}
use rdstail.Failure.{Failure, Result}
use rdstail.Source.FileMeta.{unix_epoch, unix_milli}
use rdstail.State.{to_unix_milli}
use rdstail.State.Sqlite.{unless_refused}

-- A row of sinks_dlq
pub record DlqRow : Type 0 where
  pub id : ℕ
  pub sink_name : Bytes
  pub batch_id : Bytes
  pub payload : Bytes
  pub reason : Bytes
  pub created_ms : ℤ

pub record Dlq : Type 0 where
  pub rows : List DlqRow
  pub last_id : ℕ

-- DLQItem
pub record DlqItem : Type 0 where
  pub id : ℕ
  pub sink_name : Bytes
  pub batch_id : Bytes
  pub payload : Bytes
  pub reason : Bytes
  pub created_at : Time

-- DLQQuery
pub record DlqQuery : Type 0 where
  pub sink_name : Bytes
  pub after_id : ℕ
  pub limit : ℤ

-- time.UnixMilli
abbrev pub time_at : ℤ → Time
time_at (pos ms) = unix_milli ms
time_at (negsuc n) = unix_epoch - (n + 1) * 10 ^ 6

unfoldable pub item_of : DlqRow → DlqItem
item_of r = record {
  id = r.id;
  sink_name = r.sink_name;
  batch_id = r.batch_id;
  payload = r.payload;
  reason = r.reason;
  created_at = time_at r.created_ms;
}

-- DLQPut, at the time `now`
unfoldable pub dlq_put : Option Failure → Time → Dlq → Bytes → Bytes → Bytes → Bytes → Result Dlq
unfolding to_unix_milli
dlq_put refused now d sink_name batch_id payload reason = unless_refused refused (record {
  rows =
      d.rows
      ++ record {
        id = d.last_id + 1;
        sink_name = sink_name;
        batch_id = batch_id;
        payload = payload;
        reason = reason;
        created_ms = to_unix_milli now;
      }
        ∷ [];
  last_id = d.last_id + 1;
})

-- ? = '' OR sink_name = ?
abbrev pub is_of_sink : Bytes → DlqRow → Bool
is_of_sink sink_name r = same sink_name [] || same r.sink_name sink_name

-- ORDER BY id ASC
unfoldable pub insert_by_id : DlqRow → List DlqRow → List DlqRow
insert_by_id r [] = r ∷ []
insert_by_id r (s ∷ ss) = if ltb s.id r.id then s ∷ insert_by_id r ss else r ∷ s ∷ ss

unfoldable pub order_by_id : List DlqRow → List DlqRow
unfolding insert_by_id
order_by_id [] = []
order_by_id (r ∷ rs) = insert_by_id r (order_by_id rs)

-- The limit of DLQList, and the page size of replay: 100 where no positive number is given.
abbrev pub limit_or_100 : ℤ → ℕ
limit_or_100 (pos zero) = 100
limit_or_100 (pos (suc n)) = suc n
limit_or_100 (negsuc n) = 100

-- WHERE id > ? AND (? = '' OR sink_name = ?)
abbrev pub is_asked : Bytes → ℕ → DlqRow → Bool
is_asked sink_name after_id r = ltb after_id r.id && is_of_sink sink_name r

-- DLQList
unfoldable pub dlq_list : Option Failure → Dlq → DlqQuery → Result (List DlqItem)
unfolding order_by_id item_of
dlq_list refused d q = unless_refused refused (
    map item_of (
      take (limit_or_100 q.limit) (order_by_id (keep_if (is_asked q.sink_name q.after_id) d.rows))))

-- DLQDelete
unfoldable pub dlq_delete : Option Failure → Dlq → ℕ → Result Dlq
dlq_delete refused d id =
    unless_refused refused (record d { rows = keep_if (λ r. not (r.id == id)) d.rows })

-- DLQCount
unfoldable pub dlq_count : Option Failure → Dlq → Bytes → Result ℕ
dlq_count refused d sink_name =
    unless_refused refused (length (keep_if (is_of_sink sink_name) d.rows))

-- DLQPurge: the number it returns, and the table after it.
unfoldable pub dlq_purge : Option Failure → Dlq → Bytes → Result (ℕ × Dlq)
dlq_purge refused d sink_name = unless_refused refused (
  length (keep_if (is_of_sink sink_name) d.rows),
  record d { rows = keep_if (λ r. not (is_of_sink sink_name r)) d.rows },
)
