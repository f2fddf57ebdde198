-- ===== src/Replay/Emptying.antt =====
-- Run returns, and where nothing fails it empties the table.
use rdstail.Prelude.{
  ℕ, ◌+◌, ◌<◌, ◌≡◌, inl, inr, ap, subst, ◌∙◌, false, Option, none, some, List, [], ◌∷◌, Bytes,
  arith, keep_if, length, length-keep_if, All,
}
use rdstail.Record.{LogRecord}
use rdstail.Failure.{Failure, ok}
use rdstail.Sink.{Trace, Sink}
use rdstail.State.{Entries, find}
use rdstail.State.Table.{All-find, All-put}
use rdstail.State.Dlq.{Dlq, DlqRow, item_of, is_of_sink, dlq_count}
use rdstail.State.Dlq.Order.{IsNumbered}
use rdstail.State.Dlq.Paging.{asked-start}
use rdstail.Replay.{
  SinkConfig, Options, Outside, Replay, going, stopped, is_enough, run, start, by_name,
  replay_pages,
}
use rdstail.Replay.Items.{
  wrap, Got, known, built, Handled, not_built, unknown, unreadable, dry, refused, not_deleted,
  delivered,
}
use rdstail.Replay.Pages.{IsAt, turn_to, replay_pages-IsEnding}
use rdstail.Replay.Places.{Handled-IsAt}
use rdstail.Replay.Counting.{run_counts}

-- Whatever the sinks, the engine and the context do, Run returns: one round for each row and one more
-- are enough, where the identifiers of the table are in order.
pub run_returns :
    (x : Outside) (cfg : List SinkConfig) (opts : Options) (d : Dlq) (t : Trace)
    → IsNumbered d
    → (r : Replay) × (e : Option Failure) × (run x cfg opts d t ≡ some (r, e))
unfolding run
run_returns x cfg opts d t numbered =
    let rest = keep_if (is_of_sink opts.sink_filter) d.rows in
    let at = asked-start opts.sink_filter 0 0 d.rows numbered.0 (omega arith) in
    let short = length-keep_if (is_of_sink opts.sink_filter) d.rows in
    let (r, e, returned, end) =
      replay_pages-IsEnding x (by_name cfg []) opts (IsAt opts) (λ r e. Unit) (λ rest r c. c)
        (λ r c. tt) (λ rest r e c why. tt) (λ row rest r c full. tt)
        (λ row rest r r' c h. Handled-IsAt x (by_name cfg []) opts row rest r c h)
        (λ row rest r r' e c h. tt) (length d.rows + 1) rest (start d t) (omega (arith, short))
        (at, numbered) in
    (r, e, returned)

-- There is a sink for the row and its payload can be decoded.
abbrev pub IsReady : Outside → Entries SinkConfig → DlqRow → Type 0
IsReady x cfg row =
    (c : SinkConfig) × (find cfg row.sink_name ≡ some c)
    × ((recs : List LogRecord) × (x.unmarshal row.payload ≡ some recs))

-- Every Write of the sink ends well.
abbrev pub IsWilling : Sink → Type 0
IsWilling s = (t : Trace) (recs : List LogRecord) → (s.write t recs).0 ≡ none

-- Nothing outside fails: the context is not ended, the engine refuses nothing, and every sink can be
-- built and, under its retries, accepts every batch.
abbrev pub IsCalm : Outside → Type 0
IsCalm x =
    ((t : Trace) (n : ℕ) → x.ended t n ≡ none)
    × ((t : Trace) (n : ℕ) → x.list_refused t n ≡ none)
    × ((t : Trace) (n : ℕ) → x.delete_refused t n ≡ none)
    × ((t : Trace) (c : SinkConfig)
        → (answer : Trace → List LogRecord → Option Failure) × (x.build t c ≡ ok answer)
          × IsWilling (wrap x c answer))

module _ (x : Outside) (cfg : Entries SinkConfig) (opts : Options) (calm : IsCalm x)
    (unlimited : (n : ℕ) → is_enough opts.limit n ≡ false) where
  abbrev Smooth : List DlqRow → Replay → Type 0
  Smooth rest r =
      IsAt opts rest r
      × All (λ (e : Bytes × Sink). IsWilling e.1) r.sinks
      × All (IsReady x cfg) rest
      × (r.counts.failed + r.counts.skipped ≡ 0)

  abbrev CalmEnd : Replay → Option Failure → Type 0
  CalmEnd r none = r.counts.failed + r.counts.skipped ≡ 0
  CalmEnd r (some e) = ⊥

  built-IsWilling :
      (t : Trace) (c : SinkConfig) (answer : Trace → List LogRecord → Option Failure)
      → x.build t c ≡ ok answer
      → IsWilling (wrap x c answer)
  built-IsWilling t c answer made =
      let (answer', made', willing) = calm.3 t c in
      let e : answer' ≡ answer = ground (arith, made, made') in
      subst (λ a. IsWilling (wrap x c a)) e willing

  Got-IsWilling :
      (r : Replay) (name : Bytes) {s : Sink} {sinks : Entries Sink}
      → All (λ (e : Bytes × Sink). IsWilling e.1) r.sinks
      → Got x cfg r name s sinks
      → IsWilling s × All (λ (e : Bytes × Sink). IsWilling e.1) sinks
  Got-IsWilling r name all (known {s} there) =
      (All-find (λ (e : Bytes × Sink). IsWilling e.1) r.sinks name s all there, all)
  Got-IsWilling r name all (built c answer here made) =
      let good = built-IsWilling r.trace c answer made in
      (good, All-put (λ (e : Bytes × Sink). IsWilling e.1) r.sinks name (wrap x c answer) all good)

  Handled-Smooth :
      (row : DlqRow) (rest : List DlqRow) (r : Replay) {r' : Replay}
      → Smooth (row ∷ rest) r
      → Handled x cfg opts (turn_to r row.id) (item_of row) (going r')
      → All (λ (e : Bytes × Sink). IsWilling e.1) r'.sinks
        × (r'.counts.failed + r'.counts.skipped ≡ 0)
  unfolding item_of
  Handled-Smooth row rest r (at, all, ready, clean) (unknown missing) =
      absurd (ground (arith, missing, ready.0.1))
  Handled-Smooth row rest r (at, all, ready, clean) (unreadable got bad) =
      absurd (ground (arith, bad, ready.0.2.1))
  Handled-Smooth row rest r (at, all, ready, clean) (dry got idle) =
      ((Got-IsWilling (turn_to r row.id) row.sink_name all got).1, clean)
  Handled-Smooth row rest r (at, all, ready, clean) (refused recs e got good bad) =
      let (one, more) = Got-IsWilling (turn_to r row.id) row.sink_name all got in
      absurd (ground (arith, bad, one r.trace recs))
  Handled-Smooth row rest r (at, all, ready, clean) (delivered recs got wet good fine) =
      ((Got-IsWilling (turn_to r row.id) row.sink_name all got).1, clean)

  stopped-Smooth :
      (row : DlqRow) (r : Replay) {r' : Replay} {e : Option Failure}
      → Handled x cfg opts (turn_to r row.id) (item_of row) (stopped r' e)
      → CalmEnd r' e
  unfolding item_of
  stopped-Smooth row r (not_built c e here bad) =
      let (answer, made, willing) = calm.3 r.trace c in absurd (ground (arith, bad, made))
  stopped-Smooth row r {r'} (not_deleted recs e got good fine locked) =
      absurd (ground (arith, locked, calm.2 r'.trace row.id))

  replay_pages-Smooth :
      (n : ℕ) (rest : List DlqRow) (r : Replay)
      → length rest < n
      → Smooth rest r
      → (r' : Replay) × (e : Option Failure) × (replay_pages x cfg opts n r ≡ some (r', e))
        × CalmEnd r' e
  replay_pages-Smooth n rest r h smooth =
      replay_pages-IsEnding x cfg opts Smooth CalmEnd (λ rest r c. c.0) (λ r c. c.3)
        (λ rest r e c why. elim why [
          | inl over ↦ absurd (ground (arith, over, calm.0 r.trace r.after_id))
          | inr locked ↦ absurd (ground (arith, locked, calm.1 r.trace r.after_id))
        ])
        (λ row rest r c full. absurd (ground (arith, full, unlimited r.processed)))
        (λ row rest r r' c h.
          let (all, clean) = Handled-Smooth row rest r c h in
          (Handled-IsAt x cfg opts row rest r c.0 h, all, c.2.1, clean))
        (λ row rest r r' e c h. stopped-Smooth row r h) n rest r h smooth

calm_returns :
    (x : Outside) (cfg : List SinkConfig) (opts : Options) (d : Dlq) (t : Trace)
    → IsCalm x
    → IsNumbered d
    → ((k : ℕ) → is_enough opts.limit k ≡ false)
    → All (IsReady x (by_name cfg [])) (keep_if (is_of_sink opts.sink_filter) d.rows)
    → (r : Replay) × (run x cfg opts d t ≡ some (r, none))
      × (r.counts.failed + r.counts.skipped ≡ 0)
unfolding run
calm_returns x cfg opts d t calm numbered unlimited ready =
    let rest = keep_if (is_of_sink opts.sink_filter) d.rows in
    let at = asked-start opts.sink_filter 0 0 d.rows numbered.0 (omega arith) in
    let short = length-keep_if (is_of_sink opts.sink_filter) d.rows in
    let (r, e, returned, end) =
      replay_pages-Smooth x (by_name cfg []) opts calm unlimited (length d.rows + 1) rest
        (start d t) (omega (arith, short)) ((at, numbered), tt, ready, omega arith) in
    go r e returned end
  where
    go :
        (r : Replay) (e : Option Failure)
        → replay_pages x (by_name cfg []) opts (length d.rows + 1) (start d t) ≡ some (r, e)
        → CalmEnd x (by_name cfg []) opts calm unlimited r e
        → (r : Replay) × (replay_pages x (by_name cfg []) opts (length d.rows + 1) (start d t)
            ≡ some (r, none))
          × (r.counts.failed + r.counts.skipped ≡ 0)
    go r none returned end = (r, returned, end)
    go r (some e) returned end = absurd end

-- A replay without a limit that is no dry run empties the table for the sinks that were asked for,
-- counts each item as replayed and returns nil, if the identifiers are in order, each item has a sink
-- in the configuration and can be decoded, the context is not ended, the engine refuses nothing, and
-- every sink can be built and, under its retries, accepts every batch.
pub run_empties :
    (x : Outside) (cfg : List SinkConfig) (opts : Options) (d : Dlq) (t : Trace) (n : ℕ)
    → IsCalm x
    → IsNumbered d
    → ((k : ℕ) → is_enough opts.limit k ≡ false)
    → opts.dry_run ≡ false
    → All (IsReady x (by_name cfg [])) (keep_if (is_of_sink opts.sink_filter) d.rows)
    → dlq_count none d opts.sink_filter ≡ ok n
    → (r : Replay) × (run x cfg opts d t ≡ some (r, none))
      × (r.counts.replayed ≡ n)
      × (dlq_count none r.dlq opts.sink_filter ≡ ok 0)
run_empties x cfg opts d t n calm numbered unlimited wet ready counted =
    let (r, returned, clean) = calm_returns x cfg opts d t calm numbered unlimited ready in
    let (sum, left) = run_counts x cfg opts d t r n numbered unlimited wet counted returned in
    (r, returned, omega (arith, sum, clean), left ∙ ap ok clean)
