-- ===== src/Tests/Polling.antt =====
-- Polls of an instance, with a store that is empty at first.
use rdstail.Source.Hour.{split_rotated}
use rdstail.Pipeline.Rotation.{rotated_base}
use rdstail.Pipeline.Phases.{eligible_files}
use rdstail.Prelude.{
  IsIn, first, further, inl, ◌≡◌, ◌≤◌, refl, Bool, true, false, none, some, List, [], ◌∷◌, ◌++◌,
  Bytes, codes, same,
}
use rdstail.Failure.{Result, ok, err, other}
use rdstail.Source.FileMeta.{FileMeta}
use rdstail.Pipeline.Phases.Partition.{count}
use rdstail.Pipeline.Delay.{Pacing}
use rdstail.Pipeline.Drain.File.{beginning, end, start_for}
use rdstail.Pipeline.Rotation.{Store}
use rdstail.Pipeline.Rotation.Hours.{no_faults}
use rdstail.Pipeline.Rotation.Whole.{plan_rotation}
use rdstail.Pipeline.Rotation.Whole.Listed.{plan_rotation-count}
use rdstail.Pipeline.Poll.{Polling, Poller, start_of, poll_files, run_polls}
use rdstail.Pipeline.Poll.Starting.{run_polls-start_for}
use rdstail.Pipeline.Poll.Visiting.{InPhases, Watches, poll_files-drained}

abbrev file_of : Bytes → FileMeta
file_of name = record { name = name; size = 5; last_written_ms = 1 }

abbrev realtime : FileMeta
realtime = file_of (codes "error/mysql-error.log")

abbrev running : FileMeta
running = file_of (codes "error/mysql-error-running.log")

abbrev later : FileMeta
later = file_of (codes "slowquery/mysql-slowquery.log")

-- The files drained are the world; each drain fails.
abbrev polling : Polling (List FileMeta)
polling = record {
  discover = λ w. (ok (running ∷ realtime ∷ []), w);
  list = λ w. (ok [], w);
  plan = λ s files w. (ok files, w);
  drain = λ s f w. ((1, some (other ∷ [])), w ++ f ∷ []);
  cancelled = λ w. none;
  wait = λ n w. some w;
}

abbrev unpolled : Poller
unpolled = record {
  initial_files = none;
  initial_size = λ name. none;
  horizon = 0;
  throttled = false;
}

abbrev pacing : Pacing
pacing = record { poll_interval = 10; poll_interval_max = 0 }

run_polls-start_for_example :
    start_for
      (start_of polling end 0
        (run_polls polling end 0 (λ n. n) (λ n. n) pacing 3 10 unpolled []).1.0)
      later
    ≡ beginning
unfolding same eligible_files
run_polls-start_for_example =
    run_polls-start_for polling 0 (λ n. n) (λ n. n) pacing 2 10 unpolled []
      (running ∷ realtime ∷ []) later refl refl refl refl refl

watches : Watches polling (λ w. w)
watches = record { live = λ w. refl; tells = λ s f w. refl }

abbrev first_drained : List FileMeta
first_drained = (poll_files polling end 0 (running ∷ realtime ∷ []) unpolled []).1.1

poll_files-drained_example :
    (first : List FileMeta) × (second : List FileMeta) × (done : List FileMeta) × (first_drained
      ≡ done)
    × InPhases (running ∷ realtime ∷ []) done first second
    × (count (λ f. true) done ≡ 2)
poll_files-drained_example =
    poll_files-drained polling end 0 (λ w. w) watches (running ∷ realtime ∷ [])
      (running ∷ realtime ∷ []) (λ f. true) unpolled [] refl

abbrev base : FileMeta
base = later

abbrev rotated : FileMeta
rotated = file_of (codes "slowquery/mysql-slowquery.log.2024-01-02.3")

abbrev empty_store : Store
empty_store name = none

abbrev files : List FileMeta
files = rotated ∷ base ∷ []

abbrev is_rotated : FileMeta → Bool
is_rotated f = same f.name rotated.name

abbrev out_of : Result (List FileMeta) → List FileMeta
out_of (ok out) = out
out_of (err e) = []

abbrev plan : Result (List FileMeta) × Store
plan = plan_rotation no_faults (λ rs. rs) (λ f. true) (λ bases. bases) files empty_store

planned : out_of plan.0 ≡ base ∷ rotated ∷ []
unfolding plan_rotation rotated_base split_rotated
planned = refl

plan_rotation-count_example :
    (count is_rotated (base ∷ rotated ∷ []) ≤ count is_rotated files)
    × IsIn base (base ∷ rotated ∷ [])
unfolding plan_rotation rotated_base split_rotated
plan_rotation-count_example =
    plan_rotation-count no_faults (λ rs. rs) (λ f. true) (λ bases. bases) files
      (base ∷ rotated ∷ []) empty_store plan.1 is_rotated base (λ rs. refl) (λ b bases. refl) refl
      (further first) (inl refl)
