-- ===== src/Replay/Items.antt =====
-- What Run may do with one item, as a relation.
use rdstail.Prelude.{
  ℕ, ◌==◌, ◌≡◌, inl, inr, refl, Bool, true, false, not, Option, none, some, List, Bytes,
  Option-cases, keep_if, if◌then◌else◌,
}
use rdstail.Record.{LogRecord}
use rdstail.Failure.{Failure, ok, err, Result-cases}
use rdstail.Sink.{Trace, Sink, endpoint}
use rdstail.Sink.Decorate.{with_retry}
use rdstail.State.{Entries, find, put}
use rdstail.State.Dlq.{Dlq, DlqItem, dlq_delete}
use rdstail.Replay.{
  SinkConfig, Options, Outside, Replay, Step, going, stopped, count_replayed, count_failed,
  count_skipped, get_sink, add_sink, redeliver, replay_with, replay_item,
}

-- A concrete sink under the retry decorator.
abbrev pub wrap : Outside → SinkConfig → (Trace → List LogRecord → Option Failure) → Sink
wrap x c answer = with_retry x.env c.max_attempts (endpoint c.name answer)

abbrev pub without : Dlq → ℕ → Dlq
without d id = record d { rows = keep_if (λ r. not (r.id == id)) d.rows }

module _ (x : Outside) (cfg : Entries SinkConfig) where
  -- The sink for a name, and the sinks that are remembered after it was asked for.
  pub data Got (r : Replay) (name : Bytes) : Sink → Entries Sink → Type 0 where
    known : {s : Sink} → find r.sinks name ≡ some s → Got r name s r.sinks
    built :
        (c : SinkConfig) (answer : Trace → List LogRecord → Option Failure)
        → find cfg name ≡ some c
        → x.build r.trace c ≡ ok answer
        → Got r name (wrap x c answer) (put r.sinks name (wrap x c answer))

module _ (x : Outside) (cfg : Entries SinkConfig) (opts : Options) where
  pub data Handled (r : Replay) (it : DlqItem) : Step → Type 0 where
    not_built :
        (c : SinkConfig) (e : Failure)
        → find cfg it.sink_name ≡ some c
        → x.build r.trace c ≡ err e
        → Handled r it (stopped r (some e))
    unknown : find cfg it.sink_name ≡ none → Handled r it (going (count_skipped r))
    unreadable :
        {s : Sink} {sinks : Entries Sink}
        → Got x cfg r it.sink_name s sinks
        → x.unmarshal it.payload ≡ none
        → Handled r it (going (count_failed (record r { sinks = sinks })))
    dry :
        {s : Sink} {sinks : Entries Sink}
        → Got x cfg r it.sink_name s sinks
        → opts.dry_run ≡ true
        → Handled r it (going (count_replayed (record r { sinks = sinks })))
    refused :
        {s : Sink} {sinks : Entries Sink} (recs : List LogRecord) (e : Failure)
        → Got x cfg r it.sink_name s sinks
        → x.unmarshal it.payload ≡ some recs
        → (s.write r.trace recs).0 ≡ some e
        → Handled r it
            (going (count_failed (record r { sinks = sinks; trace = (s.write r.trace recs).1 })))
    not_deleted :
        {s : Sink} {sinks : Entries Sink} (recs : List LogRecord) (e : Failure)
        → Got x cfg r it.sink_name s sinks
        → x.unmarshal it.payload ≡ some recs
        → (s.write r.trace recs).0 ≡ none
        → x.delete_refused (s.write r.trace recs).1 it.id ≡ some e
        → Handled r it
            (stopped (record r { sinks = sinks; trace = (s.write r.trace recs).1 }) (some e))
    delivered :
        {s : Sink} {sinks : Entries Sink} (recs : List LogRecord)
        → Got x cfg r it.sink_name s sinks
        → opts.dry_run ≡ false
        → x.unmarshal it.payload ≡ some recs
        → (s.write r.trace recs).0 ≡ none
        → Handled r it (
            going (
              count_replayed (record r {
                sinks = sinks;
                trace = (s.write r.trace recs).1;
                dlq = without r.dlq it.id;
              })))

  redeliver-Handled :
      (r : Replay) (it : DlqItem) {s : Sink} {sinks : Entries Sink} (recs : List LogRecord)
      → Got x cfg r it.sink_name s sinks
      → opts.dry_run ≡ false
      → x.unmarshal it.payload ≡ some recs
      → Handled r it (redeliver x cfg opts (record r { sinks = sinks }) it s recs)
  unfolding redeliver dlq_delete
  redeliver-Handled r it {s} recs got wet good = elim (Option-cases (s.write r.trace recs).0) [
    | inr (e, bad) ↦ rw (bad, redeliver) (refused recs e got good bad)
    | inl fine ↦ elim (Option-cases (x.delete_refused (s.write r.trace recs).1 it.id)) [
      | inl free ↦ rw (fine, redeliver, free) (delivered recs got wet good fine)
      | inr (e, locked) ↦ rw (fine, redeliver, locked) (not_deleted recs e got good fine locked)
    ]
  ]

  unless_dry-Handled :
      (r : Replay) (it : DlqItem) {s : Sink} {sinks : Entries Sink} (recs : List LogRecord)
      → Got x cfg r it.sink_name s sinks
      → x.unmarshal it.payload ≡ some recs
      → (b : Bool) → opts.dry_run ≡ b
      → Handled r it (
          if b
          then going (count_replayed (record r { sinks = sinks }))
          else redeliver x cfg opts (record r { sinks = sinks }) it s recs)
  unless_dry-Handled r it recs got good true idle = dry got idle
  unless_dry-Handled r it recs got good false wet = redeliver-Handled r it recs got wet good

  replay_with-Handled :
      (r : Replay) (it : DlqItem) {s : Sink} {sinks : Entries Sink}
      → Got x cfg r it.sink_name s sinks
      → Handled r it (replay_with x cfg opts (record r { sinks = sinks }) it s)
  unfolding replay_with
  replay_with-Handled r it got = elim (Option-cases (x.unmarshal it.payload)) [
    | inl bad ↦ rw (bad, replay_with) (unreadable got bad)
    | inr (recs, good) ↦
        rw (good, replay_with) (unless_dry-Handled r it recs got good opts.dry_run refl)
  ]

  -- Every item is handled in one of these ways.
  pub replay_item-Handled : (r : Replay) (it : DlqItem) → Handled r it (replay_item x cfg opts r it)
  unfolding replay_item get_sink add_sink
  replay_item-Handled r it = elim (Option-cases (find r.sinks it.sink_name)) [
    | inr (s, there) ↦ rw (there, get_sink, replay_item) (replay_with-Handled r it (known there))
    | inl new ↦ elim (Option-cases (find cfg it.sink_name)) [
      | inl missing ↦ rw (new, missing, get_sink, replay_item) (unknown missing)
      | inr (c, here) ↦ elim (Result-cases (x.build r.trace c)) [
        | inr (e, bad) ↦
            rw (new, here, bad, add_sink, get_sink, replay_item) (not_built c e here bad)
        | inl (answer, good) ↦
            rw (new, here, good, add_sink, get_sink, replay_item)
              (replay_with-Handled r it (built c answer here good))
      ]
    ]
  ]
