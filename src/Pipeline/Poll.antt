-- ===== src/Pipeline/Poll.antt =====
-- internal/pipeline/worker.go: pollOnce, drainAll and Run, with one drain after another (no DrainSem, or
-- a poll of at most one file). What they call (DiscoverFiles, the store's List, planRotation, drainFile,
-- the context and the timer) is an interface over the state of the world.
pub mod Starting
pub mod Visiting
use rdstail.Prelude.{
  ℕ, zero, suc, ◌+◌, ◌&&◌, Bool, true, false, not, Option, none, some, List, [], ◌∷◌, Bytes, same,
  is_empty, ltb, update, if◌then◌else◌,
}
use rdstail.Record.{Checkpoint, Time, after}
use rdstail.Failure.{Failure, Result, ok, err, has_cause, canceled, throttle}
use rdstail.Source.FileMeta.{FileMeta}
use rdstail.Pipeline.Phases.{eligible_files, split_error_log_phases}
use rdstail.Pipeline.Delay.{Pacing, next_poll_delay}
use rdstail.Pipeline.Drain.File.{StartFrom, beginning, end, Start}

pub record Polling {ℓ} (W : Type ℓ) : Type ℓ where
  pub discover : W → Result (List FileMeta) × W
  -- store.List of the instance
  pub list : W → Result (List (Bytes × Checkpoint)) × W
  pub plan : Start → List FileMeta → W → Result (List FileMeta) × W
  -- The number of records shipped, and the error.
  pub drain : Start → FileMeta → W → (ℕ × Option Failure) × W
  pub cancelled : W → Option Failure
  -- `none` if the context is done before the timer fires.
  pub wait : ℕ → W → Option W

-- The fields initialFiles (`none` is nil), initialSize, horizon and throttled.
pub record Poller : Type 0 where
  pub initial_files : Option (Bytes → Bool)
  pub initial_size : Bytes → Option ℕ
  pub horizon : Time
  pub throttled : Bool

-- initial[f.Name] = true for each file
abbrev pub listed_names : List FileMeta → Bytes → Bool
listed_names [] name = false
listed_names (f ∷ files) name = if same f.name name then true else listed_names files name

-- initialSize[f.Name] = f.Size for each file
abbrev pub listed_sizes : List FileMeta → (Bytes → Option ℕ) → Bytes → Option ℕ
listed_sizes [] sizes = sizes
listed_sizes (f ∷ files) sizes = listed_sizes files (update sizes f.name (some f.size))

-- The loop that moves the horizon.
abbrev pub newest : List (Bytes × Checkpoint) → Time → Time
newest [] horizon = horizon
newest ((name, c) ∷ known) horizon =
    newest known (if after c.last_written horizon then c.last_written else horizon)

abbrev no_sizes : Bytes → Option ℕ
no_sizes name = none

-- From the known checkpoints: only where there is none, the files are there at first discovery.
abbrev pub first_seen : List FileMeta → List (Bytes × Checkpoint) → Poller → Poller
first_seen files [] p = record p {
  initial_files = some (listed_names files);
  initial_size = listed_sizes files no_sizes;
}
first_seen files (k ∷ known) p = record p {
  initial_files = some (λ name. false);
  initial_size = no_sizes;
  horizon = newest (k ∷ known) p.horizon;
}

abbrev pub files_or_none : Option (Bytes → Bool) → Bytes → Bool
files_or_none none name = false
files_or_none (some initial) name = initial name

-- The outcome of a poll: the records shipped and the error, the worker and the world.
abbrev pub Polled {ℓ} : Type ℓ → Type ℓ
Polled W = (ℕ × Option Failure) × (Poller × W)

abbrev pub note_throttle : Option Failure → Poller → Poller
note_throttle none p = p
note_throttle (some e) p = if has_cause throttle e then record p { throttled = true } else p

abbrev pub add_shipped {ℓ} : {W : Type ℓ} → ℕ → Polled W → Polled W
add_shipped n ((m, f), rest) = ((n + m, f), rest)

module _ {ℓ} {W : Type ℓ} (o : Polling W) (start_from : StartFrom) (min_file_time : Time) where
  abbrev pub start_of : Poller → Start
  start_of p = record {
    start_from = start_from;
    initial_files = files_or_none p.initial_files;
    initial_size = p.initial_size;
    horizon = p.horizon;
  }

  -- drainAll: a file that fails does not end the poll.
  unfoldable pub drain_all : List FileMeta → Poller → W → Polled W
  unfolding has_cause
  drain_all [] p w = ((0, none), (p, w))
  drain_all (f ∷ files) p w = elim (o.cancelled w) [
    | some e ↦ ((0, some e), (p, w))
    | none ↦
        let ((n, failure), w') = o.drain (start_of p) f w in
        add_shipped n (drain_all files (note_throttle failure p) w')
  ]

  -- The second phase, unless the first failed or there is none.
  abbrev pub then_second : List FileMeta → Polled W → Polled W
  then_second second ((n, some e), (p, w)) = ((n, some e), (p, w))
  then_second [] ((n, none), (p, w)) = ((n, none), (p, w))
  then_second (f ∷ second) ((n, none), (p, w)) = add_shipped n (drain_all (f ∷ second) p w)

  -- The end of pollOnce, from the files that are eligible.
  unfoldable pub poll_files : List FileMeta → Poller → W → Polled W
  unfolding drain_all split_error_log_phases
  poll_files files p w =
      let (planned, w') = o.plan (start_of p) files w in
      elim planned [
        | err e ↦ ((0, some e), (p, w'))
        | ok out ↦
            let (first, second) = split_error_log_phases out in
            then_second second (drain_all first p w')
      ]

  -- The first poll of a worker.
  unfoldable pub first_poll : List FileMeta → Poller → W → Polled W
  unfolding poll_files
  first_poll files p w =
      let sized : Poller = record p { initial_size = no_sizes } in
      elim start_from [
        | beginning ↦
            poll_files files (record sized { initial_files = some (λ (name : Bytes). false) }) w
        | end ↦
            let (known, w') = o.list w in
            elim known [
              | err e ↦ ((0, some e), (sized, w'))
              | ok checkpoints ↦ poll_files files (first_seen files checkpoints p) w'
            ]
      ]

  -- if w.initialFiles == nil
  abbrev pub poll_eligible : Option (Bytes → Bool) → List FileMeta → Poller → W → Polled W
  poll_eligible none files p w = first_poll files p w
  poll_eligible (some initial) files p w = poll_files files p w

  -- pollOnce
  unfoldable pub poll_once : Poller → W → Polled W
  unfolding eligible_files first_poll poll_files
  poll_once p w =
      let (found, w') = o.discover w in
      elim found [
        | err e ↦ ((0, some e), (p, w'))
        | ok listed ↦ poll_eligible p.initial_files (eligible_files min_file_time listed) p w'
      ]

  abbrev is_throttled : Option Failure → Bool
  is_throttled none = false
  is_throttled (some e) = not (has_cause canceled e) && has_cause throttle e

  -- The closure poll of Run: the next interval, the worker and the world.
  unfoldable pub poll : (ℕ → ℕ) → (ℕ → ℕ) → Pacing → ℕ → Poller → W → ℕ × (Poller × W)
  unfolding poll_once next_poll_delay has_cause
  poll jitter grow pacing interval p w =
      let ((shipped, failure), (p', w')) = poll_once (record p { throttled = false }) w in
      let throttled = if is_throttled failure then true else p'.throttled in
      (
        next_poll_delay jitter grow pacing interval (ltb 0 shipped) throttled,
        (record p' { throttled = throttled }, w'),
      )

  -- Run, for at most so many polls: true if the context was done by then.
  unfoldable pub run_polls : (ℕ → ℕ) → (ℕ → ℕ) → Pacing → ℕ → ℕ → Poller → W → Bool × (Poller × W)
  unfolding poll
  run_polls jitter grow pacing zero interval p w = (false, (p, w))
  run_polls jitter grow pacing (suc n) interval p w =
      let (next, (p', w')) = poll jitter grow pacing interval p w in
      elim (o.cancelled w') [
        | some e ↦ (true, (p', w'))
        | none ↦ elim (o.wait next w') [
          | none ↦ (true, (p', w'))
          | some w'' ↦ run_polls jitter grow pacing n next p' w''
        ]
      ]
