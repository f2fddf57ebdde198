-- ===== src/Replay.antt =====
-- internal/replay/replay.go: Run, which writes dead-lettered batches to their sinks again and deletes
-- those that were acknowledged. One process has the table open during a replay. Logging and closing
-- the sinks at the end are left out.
pub mod Items
pub mod Pages
pub mod Places
pub mod Counting
pub mod Delivery
pub mod Emptying
use rdstail.Prelude.{
  ℕ, zero, suc, ◌+◌, Bool, true, false, Option, none, some, List, [], ◌∷◌, Bytes, leb, length,
  if◌then◌else◌,
}
use rdstail.Prelude.Int.{ℤ, pos, negsuc}
use rdstail.Record.{LogRecord}
use rdstail.Failure.{Failure, Result, ok, err}
use rdstail.Sink.{Trace, Sink, Environment, endpoint}
use rdstail.Sink.Decorate.{with_retry}
use rdstail.State.{Entries, find, put}
use rdstail.State.Dlq.{Dlq, DlqItem, DlqQuery, limit_or_100, dlq_list, dlq_delete}

-- An entry of cfg.Sinks, as far as it is read here.
pub record SinkConfig : Type 0 where
  pub name : Bytes
  pub max_attempts : ℤ

pub record Options : Type 0 where
  pub sink_filter : Bytes
  pub limit : ℤ
  pub dry_run : Bool
  pub page_size : ℤ

-- Result of the package
pub record Counts : Type 0 where
  pub replayed : ℕ
  pub failed : ℕ
  pub skipped : ℕ

-- What is outside of this code; the answers may depend on the trace and on how far the replay is.
pub record Outside : Type 0 where
  -- the context, the pauses and the backoff of the sinks
  pub env : Environment
  -- ctx.Err() before the page that follows an identifier
  pub ended : Trace → ℕ → Option Failure
  -- build: the answers of the concrete sink, which has the name of its configuration
  pub build : Trace → SinkConfig → Result (Trace → List LogRecord → Option Failure)
  -- json.Unmarshal of a payload
  pub unmarshal : Bytes → Option (List LogRecord)
  -- whether the engine refuses the page that follows an identifier, or the deletion of one
  pub list_refused : Trace → ℕ → Option Failure
  pub delete_refused : Trace → ℕ → Option Failure

-- The variables of Run.
pub record Replay : Type 0 where
  pub dlq : Dlq
  pub trace : Trace
  pub sinks : Entries Sink
  pub counts : Counts
  pub after_id : ℕ
  pub processed : ℕ

-- The loop goes on, or Run returns its counts and an error.
pub data Step : Type 0 where
  going : Replay → Step
  stopped : Replay → Option Failure → Step

abbrev pub count_replayed : Replay → Replay
count_replayed r = record r { counts = record r.counts { replayed = r.counts.replayed + 1 } }

abbrev pub count_failed : Replay → Replay
count_failed r = record r { counts = record r.counts { failed = r.counts.failed + 1 } }

abbrev pub count_skipped : Replay → Replay
count_skipped r = record r { counts = record r.counts { skipped = r.counts.skipped + 1 } }

-- cfgByName
unfoldable pub by_name : List SinkConfig → Entries SinkConfig → Entries SinkConfig
unfolding put
by_name [] m = m
by_name (c ∷ cs) m = by_name cs (put m c.name c)

-- opts.Limit > 0 && processed >= opts.Limit
abbrev pub is_enough : ℤ → ℕ → Bool
is_enough (pos zero) processed = false
is_enough (pos (suc n)) processed = leb (suc n) processed
is_enough (negsuc n) processed = false

module _ (x : Outside) (cfg : Entries SinkConfig) (opts : Options) where
  -- The end of getSink: the sink is built, wrapped and remembered.
  unfoldable pub add_sink : Replay → Bytes → SinkConfig → Result (Option Sink × Replay)
  unfolding put with_retry endpoint
  add_sink r name c = elim (x.build r.trace c) [
    | err e ↦ err e
    | ok answer ↦
        let wrapped = with_retry x.env c.max_attempts (endpoint c.name answer) in
        ok (some wrapped, record r { sinks = put r.sinks name wrapped })
  ]

  -- getSink
  unfoldable pub get_sink : Replay → Bytes → Result (Option Sink × Replay)
  unfolding find add_sink
  get_sink r name = elim (find r.sinks name) [
    | some s ↦ ok (some s, r)
    | none ↦ elim (find cfg name) [ none ↦ ok (none, r) | some c ↦ add_sink r name c ]
  ]

  -- The write of an item's records to its sink, and what follows from the answer.
  unfoldable pub redeliver : Replay → DlqItem → Sink → List LogRecord → Step
  unfolding dlq_delete
  redeliver r it s recs =
      let (answer, t) = s.write r.trace recs in
      let r = record r { trace = t } in
      elim answer [
        | some e ↦ going (count_failed r)
        | none ↦ elim (dlq_delete (x.delete_refused t it.id) r.dlq it.id) [
          | err e ↦ stopped r (some e)
          | ok d ↦ going (count_replayed (record r { dlq = d }))
        ]
      ]

  -- What is done with an item for which there is a sink.
  unfoldable pub replay_with : Replay → DlqItem → Sink → Step
  unfolding redeliver
  replay_with r it s = elim (x.unmarshal it.payload) [
    | none ↦ going (count_failed r)
    | some recs ↦ if opts.dry_run then going (count_replayed r) else redeliver r it s recs
  ]

  -- The body of the inner loop, after the limit is checked.
  unfoldable pub replay_item : Replay → DlqItem → Step
  unfolding get_sink replay_with
  replay_item r it = elim (get_sink r it.sink_name) [
    | err e ↦ stopped r (some e)
    | ok found ↦ elim found.0 [
      | none ↦ going (count_skipped found.1)
      | some s ↦ replay_with found.1 it s
    ]
  ]

  -- for _, it := range items
  unfoldable pub replay_items : List DlqItem → Replay → Step
  unfolding replay_item
  replay_items [] r = going r
  replay_items (it ∷ its) r =
      let r = record r { after_id = it.id } in
      if is_enough opts.limit r.processed
      then stopped r none
      else (elim (replay_item (record r { processed = r.processed + 1 }) it) [
        | going r' ↦ replay_items its r'
        | stopped r' e ↦ stopped r' e
      ])

  abbrev pub next_page : Replay → DlqQuery
  next_page r = record {
    sink_name = opts.sink_filter;
    after_id = r.after_id;
    limit = pos (limit_or_100 opts.page_size);
  }

  -- The call of DLQList
  unfoldable pub read_page : Replay → Result (List DlqItem)
  read_page r = dlq_list (x.list_refused r.trace r.after_id) r.dlq (next_page r)

  -- The outer loop: `none` if it has not returned after so many rounds.
  unfoldable pub replay_pages : ℕ → Replay → Option (Replay × Option Failure)
  unfolding read_page replay_items
  replay_pages zero r = none
  replay_pages (suc n) r = elim (x.ended r.trace r.after_id) [
    | some e ↦ some (r, some e)
    | none ↦ elim (read_page r) [
      | err e ↦ some (r, some e)
      | ok items ↦ elim items [
        | [] ↦ some (r, none)
        | ◌∷◌ it its ↦ elim (replay_items (it ∷ its) r) [
          | stopped r' e ↦ some (r', e)
          | going r' ↦ replay_pages n r'
        ]
      ]
    ]
  ]

abbrev pub start : Dlq → Trace → Replay
start d t = record {
  dlq = d;
  trace = t;
  sinks = [];
  counts = record { replayed = 0; failed = 0; skipped = 0 };
  after_id = 0;
  processed = 0;
}

-- Run, with one round for each row and one more
unfoldable pub run :
    Outside → List SinkConfig → Options → Dlq → Trace → Option (Replay × Option Failure)
unfolding by_name replay_pages
run x cfg opts d t = replay_pages x (by_name cfg []) opts (length d.rows + 1) (start d t)
