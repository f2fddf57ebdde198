-- ===== src/Pipeline/Poll/Visiting.antt =====
-- Which files a poll drains, and in which order.
use rdstail.Prelude.{
  ◌≡◌, refl, sym, ap, ◌∙◌, none, some, List, [], ◌∷◌, ◌++◌, arith, append-nil, append_assoc, Bool,
  true, false, All, ◌⊎◌,
}
use rdstail.Record.{Time}
use rdstail.Failure.{ok}
use rdstail.Source.FileMeta.{FileMeta}
use rdstail.Pipeline.Errors.{is_error_log, is_error_running_log}
use rdstail.Pipeline.Phases.{split_error_log_phases}
use rdstail.Pipeline.Phases.Partition.{
  count, count-append, split_error_log_phases-count, split_error_log_phases-first,
}
use rdstail.Pipeline.Drain.File.{StartFrom, Start}
use rdstail.Pipeline.Poll.{
  Polling, Poller, Polled, note_throttle, start_of, drain_all, then_second, poll_files,
}

-- The files that were drained, in two phases, of those that were returned.
abbrev pub InPhases : List FileMeta → List FileMeta → List FileMeta → List FileMeta → Type 0
InPhases out done first second =
    (done ≡ first ++ second)
    × All (λ f. is_error_running_log f.name ≡ true) second
    × (All (λ f. is_error_log f.name ≡ false) out
        ⊎ All (λ f. is_error_running_log f.name ≡ false) first)

-- The context lives, and `drained` tells of each drain.
pub record Watches {ℓ} {W : Type ℓ} (o : Polling W) (drained : W → List FileMeta) : Type ℓ where
  pub live : (w : W) → o.cancelled w ≡ none
  pub tells : (s : Start) (f : FileMeta) (w : W) → drained (o.drain s f w).1 ≡ drained w ++ f ∷ []

module _ {ℓ} {W : Type ℓ} (o : Polling W) (start_from : StartFrom) (min_file_time : Time)
    (drained : W → List FileMeta) (watches : Watches o drained) where
  drain_all-drained :
      (files : List FileMeta) (p : Poller) (w : W)
      → let r = drain_all o start_from min_file_time files p w in
        (drained r.1.1 ≡ drained w ++ files) × (r.0.1 ≡ none)
  unfolding drain_all
  drain_all-drained [] p w = (sym (append-nil (drained w)), refl)
  drain_all-drained (f ∷ files) p w =
      let ((n, failure), w') = o.drain (start_of o start_from min_file_time p) f w in
      let (later, fine) = drain_all-drained files (note_throttle failure p) w' in
      rw (watches.live w, drain_all)
        (
          later
              ∙ ap (λ d. d ++ files) (watches.tells (start_of o start_from min_file_time p) f w)
              ∙ append_assoc (drained w) (f ∷ []) files,
          fine,
        )

  then_second-drained :
      (second : List FileMeta) (r : Polled W)
      → r.0.1 ≡ none
      → drained (then_second o start_from min_file_time second r).1.1 ≡ drained r.1.1 ++ second
  then_second-drained second ((n, some e), (p, w)) h = absurd (ground (arith, h))
  then_second-drained [] ((n, none), (p, w)) h = sym (append-nil (drained w))
  then_second-drained (f ∷ second) ((n, none), (p, w)) h = (drain_all-drained (f ∷ second) p w).0

  -- Where the context lives, a poll drains the files that planRotation returns, whatever drains fail:
  -- any test holds for as many of the drained files as of the returned ones, so that each file is drained
  -- as often as it is returned. The drains are in two phases: the second has only files of the running
  -- error log, and if the real-time error log was returned, the first has none of them.
  pub poll_files-drained :
      (files out : List FileMeta) (test : FileMeta → Bool) (p : Poller) (w : W)
      → (o.plan (start_of o start_from min_file_time p) files w).0 ≡ ok out
      → (first : List FileMeta) × (second : List FileMeta) × (done : List FileMeta) × (drained
            (poll_files o start_from min_file_time files p w).1.1
          ≡ drained (o.plan (start_of o start_from min_file_time p) files w).1 ++ done)
        × InPhases out done first second
        × (count test done ≡ count test out)
  unfolding poll_files
  poll_files-drained files out test p w planned =
      let w' = (o.plan (start_of o start_from min_file_time p) files w).1 in
      let (first, second) = split_error_log_phases out in
      let r = drain_all o start_from min_file_time first p w' in
      let (drained_first, fine) = drain_all-drained first p w' in
      let (counts, running) = split_error_log_phases-count out test in
      (
        first,
        second,
        first ++ second,
        rw (planned, poll_files)
            (then_second-drained second r fine
              ∙ ap (λ d. d ++ second) drained_first
              ∙ append_assoc (drained w') first second),
        (refl, running, split_error_log_phases-first out),
        count-append test first second ∙ counts,
      )
