-- ===== src/Replay/Places.antt =====
-- How far Run has come in the table.
use rdstail.Prelude.{◌==◌, ◌∙◌, not, List, ◌∷◌, arith}
use rdstail.State.{Entries}
use rdstail.State.Dlq.{DlqRow, item_of}
use rdstail.State.Dlq.Order.{IsNumbered-keep_if}
use rdstail.State.Dlq.Paging.{asked-next, asked-deleted}
use rdstail.Replay.{SinkConfig, Options, Outside, Replay, going}
use rdstail.Replay.Items.{Handled, unknown, unreadable, dry, refused, delivered}
use rdstail.Replay.Pages.{IsAt, turn_to}

-- After an item the rows behind it are left.
module _ (x : Outside) (cfg : Entries SinkConfig) (opts : Options) where
  pub Handled-IsAt :
      (row : DlqRow) (rest : List DlqRow) (r : Replay) {r' : Replay}
      → IsAt opts (row ∷ rest) r
      → Handled x cfg opts (turn_to r row.id) (item_of row) (going r')
      → IsAt opts rest r'
  unfolding item_of
  Handled-IsAt row rest r (at, numbered) (unknown missing) =
      (asked-next opts.sink_filter r.after_id 0 r.dlq.rows row rest numbered.0 at, numbered)
  Handled-IsAt row rest r (at, numbered) (unreadable got bad) =
      (asked-next opts.sink_filter r.after_id 0 r.dlq.rows row rest numbered.0 at, numbered)
  Handled-IsAt row rest r (at, numbered) (dry got idle) =
      (asked-next opts.sink_filter r.after_id 0 r.dlq.rows row rest numbered.0 at, numbered)
  Handled-IsAt row rest r (at, numbered) (refused recs e got good bad) =
      (asked-next opts.sink_filter r.after_id 0 r.dlq.rows row rest numbered.0 at, numbered)
  Handled-IsAt row rest r (at, numbered) (delivered recs got wet good fine) = (
    asked-deleted opts.sink_filter row.id row.id r.dlq.rows (omega arith)
        ∙ asked-next opts.sink_filter r.after_id 0 r.dlq.rows row rest numbered.0 at,
    IsNumbered-keep_if r.dlq (λ y. not (y.id == row.id)) numbered,
  )
