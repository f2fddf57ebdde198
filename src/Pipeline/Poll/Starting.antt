-- ===== src/Pipeline/Poll/Starting.antt =====
-- Where a worker begins to read the files that it finds.
use rdstail.Prelude.{
  ℕ, zero, suc, ◌≡◌, inl, inr, refl, sym, ap, subst, ◌∙◌, arith, Bool, false, Option, none, some,
  List, [], ◌∷◌, Bytes, Bool-cases, Option-cases,
}
use rdstail.Record.{Time}
use rdstail.Failure.{Failure, ok, Result-cases, has_cause, throttle}
use rdstail.Source.FileMeta.{FileMeta}
use rdstail.Pipeline.Phases.{eligible_files, split_error_log_phases}
use rdstail.Pipeline.Delay.{Pacing}
use rdstail.Pipeline.Drain.File.{StartFrom, beginning, end, Start, start_for}
use rdstail.Pipeline.Poll.{
  Polling, Poller, Polled, listed_names, first_seen, files_or_none, note_throttle, start_of,
  drain_all, then_second, poll_files, first_poll, poll_eligible, poll_once, poll, run_polls,
}

-- What decides where files start is the same.
abbrev pub SameStart : Poller → Poller → Type 0
SameStart p q =
    (q.initial_files ≡ p.initial_files)
    × (q.initial_size ≡ p.initial_size)
    × (q.horizon ≡ p.horizon)

SameStart-trans : (p q r : Poller) → SameStart p q → SameStart q r → SameStart p r
SameStart-trans p q r (a, b, c) (a', b', c') = (a' ∙ a, b' ∙ b, c' ∙ c)

SameStart-note_throttle : (f : Option Failure) (p : Poller) → SameStart p (note_throttle f p)
SameStart-note_throttle none p = (refl, refl, refl)
SameStart-note_throttle (some e) p = elim (Bool-cases (has_cause throttle e)) [
  | inl t ↦ rw t (refl, refl, refl)
  | inr t ↦ rw t (refl, refl, refl)
]

module _ {ℓ} {W : Type ℓ} (o : Polling W) (start_from : StartFrom) (min_file_time : Time) where
  drain_all-SameStart :
      (files : List FileMeta) (p : Poller) (w : W)
      → SameStart p (drain_all o start_from min_file_time files p w).1.0
  unfolding drain_all
  drain_all-SameStart [] p w = (refl, refl, refl)
  drain_all-SameStart (f ∷ files) p w = elim (Option-cases (o.cancelled w)) [
    | inr (e, ended) ↦ rw (ended, drain_all) (refl, refl, refl)
    | inl live ↦
        let ((n, failure), w') = o.drain (start_of o start_from min_file_time p) f w in
        let q = note_throttle failure p in
        rw (live, drain_all)
          (SameStart-trans p q (drain_all o start_from min_file_time files q w').1.0
            (SameStart-note_throttle failure p) (drain_all-SameStart files q w'))
  ]

  then_second-SameStart :
      (second : List FileMeta) (r : Polled W)
      → SameStart r.1.0 (then_second o start_from min_file_time second r).1.0
  then_second-SameStart second ((n, some e), (p, w)) = (refl, refl, refl)
  then_second-SameStart [] ((n, none), (p, w)) = (refl, refl, refl)
  then_second-SameStart (f ∷ second) ((n, none), (p, w)) = drain_all-SameStart (f ∷ second) p w

  poll_files-SameStart :
      (files : List FileMeta) (p : Poller) (w : W)
      → SameStart p (poll_files o start_from min_file_time files p w).1.0
  unfolding poll_files
  poll_files-SameStart files p w =
      let (planned, w') = o.plan (start_of o start_from min_file_time p) files w in
      elim (Result-cases planned) [
        | inr (e, bad) ↦ rw (bad, poll_files) (refl, refl, refl)
        | inl (out, good) ↦
            let (first, second) = split_error_log_phases out in
            let r = drain_all o start_from min_file_time first p w' in
            rw (good, poll_files)
              (SameStart-trans p r.1.0 (then_second o start_from min_file_time second r).1.0
                (drain_all-SameStart first p w') (then_second-SameStart second r))
      ]

  poll_once-SameStart :
      (p : Poller) (w : W) (initial : Bytes → Bool)
      → p.initial_files ≡ some initial
      → SameStart p (poll_once o start_from min_file_time p w).1.0
  unfolding poll_once
  poll_once-SameStart p w initial h = elim (Result-cases (o.discover w).0) [
    | inr (e, bad) ↦ rw (bad, poll_once) (refl, refl, refl)
    | inl (listed, good) ↦
        let files = eligible_files min_file_time listed in
        let w' = (o.discover w).1 in
        rw (good, poll_once)
          (subst (λ i. SameStart p (poll_eligible o start_from min_file_time i files p w').1.0)
            (sym h) (poll_files-SameStart files p w'))
  ]

  poll-SameStart :
      (jitter grow : ℕ → ℕ) (pacing : Pacing) (interval : ℕ) (p : Poller) (w : W)
      (initial : Bytes → Bool)
      → p.initial_files ≡ some initial
      → SameStart p (poll o start_from min_file_time jitter grow pacing interval p w).1.0
  unfolding poll
  poll-SameStart jitter grow pacing interval p w initial h =
      poll_once-SameStart (record p { throttled = false }) w initial h

  run_polls-SameStart :
      (jitter grow : ℕ → ℕ) (pacing : Pacing) (n interval : ℕ) (p : Poller) (w : W)
      (initial : Bytes → Bool)
      → p.initial_files ≡ some initial
      → SameStart p (run_polls o start_from min_file_time jitter grow pacing n interval p w).1.0
  unfolding run_polls
  run_polls-SameStart jitter grow pacing zero interval p w initial h = (refl, refl, refl)
  run_polls-SameStart jitter grow pacing (suc n) interval p w initial h =
      let round = poll o start_from min_file_time jitter grow pacing interval p w in
      let kept = poll-SameStart jitter grow pacing interval p w initial h in
      elim (Option-cases (o.cancelled round.1.1)) [
        | inr (e, ended) ↦ rw (ended, run_polls) kept
        | inl live ↦ elim (Option-cases (o.wait round.0 round.1.1)) [
          | inl over ↦ rw (live, run_polls) (rw over kept)
          | inr (w', fired) ↦
              rw (live, run_polls)
                (rw fired (
                  SameStart-trans p round.1.0
                    (run_polls o start_from min_file_time jitter grow pacing n round.0 round.1.0
                      w').1.0
                    kept
                    (run_polls-SameStart jitter grow pacing n round.0 round.1.0 w' initial
                      (kept.0 ∙ h))))
        ]
      ]

  run_polls-after :
      (jitter grow : ℕ → ℕ) (pacing : Pacing) (n interval : ℕ) (p : Poller) (w : W)
      (initial : Bytes → Bool)
      → let round = poll o start_from min_file_time jitter grow pacing interval p w in
        round.1.0.initial_files ≡ some initial
        → SameStart round.1.0
            (run_polls o start_from min_file_time jitter grow pacing (suc n) interval p w).1.0
  unfolding run_polls
  run_polls-after jitter grow pacing n interval p w initial h =
      let round = poll o start_from min_file_time jitter grow pacing interval p w in
      elim (Option-cases (o.cancelled round.1.1)) [
        | inr (e, ended) ↦ rw (ended, run_polls) (refl, refl, refl)
        | inl live ↦ elim (Option-cases (o.wait round.0 round.1.1)) [
          | inl over ↦ rw (live, run_polls) (rw over (refl, refl, refl))
          | inr (w', fired) ↦
              rw (live, run_polls)
                (rw fired (run_polls-SameStart jitter grow pacing n round.0 round.1.0 w' initial h))
        ]
      ]

module _ {ℓ} {W : Type ℓ} (o : Polling W) (min_file_time : Time) where
  -- The first poll of an instance that the store has no checkpoint of.
  first_poll-initial_files :
      (files : List FileMeta) (p : Poller) (w : W)
      → (o.list w).0 ≡ ok []
      → let q = (first_poll o end min_file_time files p w).1.0 in
        (q.initial_files ≡ some (listed_names files)) × (q.horizon ≡ p.horizon)
  unfolding first_poll
  first_poll-initial_files files p w none_known =
      let (names, sizes, horizon) =
        poll_files-SameStart o end min_file_time files (first_seen files [] p) (o.list w).1 in
      rw (none_known, first_poll) (names, horizon)

  poll-initial_files :
      (jitter grow : ℕ → ℕ) (pacing : Pacing) (interval : ℕ) (p : Poller) (w : W)
      (listed : List FileMeta)
      → p.initial_files ≡ none
      → (o.discover w).0 ≡ ok listed
      → (o.list (o.discover w).1).0 ≡ ok []
      → let q = (poll o end min_file_time jitter grow pacing interval p w).1.0 in
        (q.initial_files ≡ some (listed_names (eligible_files min_file_time listed)))
        × (q.horizon ≡ p.horizon)
  unfolding poll poll_once
  poll-initial_files jitter grow pacing interval p w listed fresh found none_known =
      let files = eligible_files min_file_time listed in
      let p' : Poller = record p { throttled = false } in
      rw (found, poll_once)
        (subst
          (λ i.
            ((poll_eligible o end min_file_time i files p' (o.discover w).1).1.0.initial_files
              ≡ some (listed_names files))
            × ((poll_eligible o end min_file_time i files p' (o.discover w).1).1.0.horizon
                ≡ p.horizon))
          (sym fresh) (first_poll-initial_files files p' (o.discover w).1 none_known))

start_for-new :
    (s : Start) (f : FileMeta)
    → s.initial_files f.name ≡ false
    → s.horizon ≡ 0
    → start_for s f ≡ beginning
unfolding start_for
start_for-new s f new none_before = ground (arith, new, none_before)

-- A worker that starts with no checkpoint of its instance in the store, and reads files from their end: if
-- its first poll finds some files, then after any number of polls, whatever they meet, it reads each file
-- that was not eligible at the first poll from its beginning.
pub run_polls-start_for {ℓ} :
    {W : Type ℓ} (o : Polling W) (min_file_time : Time) (jitter grow : ℕ → ℕ) (pacing : Pacing)
    (n interval : ℕ) (p : Poller) (w : W) (listed : List FileMeta) (f : FileMeta)
    → p.initial_files ≡ none
    → p.horizon ≡ 0
    → (o.discover w).0 ≡ ok listed
    → (o.list (o.discover w).1).0 ≡ ok []
    → listed_names (eligible_files min_file_time listed) f.name ≡ false
    → let last = (run_polls o end min_file_time jitter grow pacing (suc n) interval p w).1.0 in
      start_for (start_of o end min_file_time last) f ≡ beginning
run_polls-start_for o min_file_time jitter grow pacing n interval p w listed f fresh no_horizon
      found none_known new =
    let names = listed_names (eligible_files min_file_time listed) in
    let (initial, horizon) =
      poll-initial_files o min_file_time jitter grow pacing interval p w listed fresh found
        none_known in
    let (initial', sizes, horizon') =
      run_polls-after o end min_file_time jitter grow pacing n interval p w names initial in
    let last = (run_polls o end min_file_time jitter grow pacing (suc n) interval p w).1.0 in
    start_for-new (start_of o end min_file_time last) f
      (ap (λ i. files_or_none i f.name) (initial' ∙ initial) ∙ new)
      (horizon' ∙ horizon ∙ no_horizon)
