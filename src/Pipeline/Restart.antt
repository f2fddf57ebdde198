-- ===== src/Pipeline/Restart.antt =====
-- internal/pipeline/worker.go: restarts of the database that were noticed, and which files have been
-- re-verified since. Every operation holds shipMu, so it is one step.
pub mod Pending
pub mod Notes
use rdstail.Prelude.{
  ℕ, suc, ◌+◌, ◌-◌, ◌*◌, ◌^◌, ◌||◌, ◌&&◌, Bool, true, false, not, Option, none, some, List, [], ◌∷◌,
  ◌++◌, Bytes, ltb, leb, length, drop, update, if◌then◌else◌,
}
use rdstail.Record.{LogRecord, Time, is_zero, before, after}

abbrev pub second : ℕ
second = 10 ^ 9

abbrev pub minute : ℕ
minute = 60 * second

abbrev pub restart_margin : ℕ
restart_margin = minute

abbrev pub restart_dedup_window : ℕ
restart_dedup_window = 90 * second

abbrev pub restarts_kept : ℕ
restarts_kept = 32

-- restartNote
pub record RestartNote : Type 0 where
  pub gen : ℕ
  pub at : Time

-- The fields restartGen, restarts and handledGen of a worker.
pub record Restarts : Type 0 where
  pub restart_gen : ℕ
  pub restarts : List RestartNote
  pub handled_gen : Bytes → ℕ

abbrev pub no_restarts : Restarts
no_restarts = record { restart_gen = 0; restarts = []; handled_gen = λ f. 0 }

-- `d < window && d > -window` for d = at.Sub(r.at)
abbrev pub near : Time → Time → Bool
near a b = ltb (a - b) restart_dedup_window && ltb (b - a) restart_dedup_window

unfoldable pub is_known_restart : Time → List RestartNote → Bool
is_known_restart at [] = false
is_known_restart at (r ∷ rs) = near at r.at || is_known_restart at rs

-- NotifyRestart: a notice near a known one is folded into it.
unfoldable pub notify_restart : Time → Restarts → Restarts
unfolding is_known_restart
notify_restart at s =
    let gen = s.restart_gen + 1 in
    let notes : List RestartNote = s.restarts ++ record { gen = gen; at = at } ∷ [] in
    if is_known_restart at s.restarts then s else record s {
      restart_gen = gen;
      restarts =
          if ltb restarts_kept (length notes)
          then drop (length notes - restarts_kept) notes
          else notes;
    }

-- The loop of pendingRestart.
unfoldable pub earliest : ℕ → List RestartNote → Time → Time
earliest handled [] at = at
earliest handled (r ∷ rs) at =
    earliest handled rs (if ltb handled r.gen && (is_zero at || before r.at at) then r.at else at)

-- pendingRestart: the earliest restart the file was not re-verified after, and the generation
unfoldable pub pending_restart : Bytes → Restarts → Option (Time × ℕ)
unfolding earliest
pending_restart file s =
    if leb s.restart_gen (s.handled_gen file)
    then none
    else some (earliest (s.handled_gen file) s.restarts 0, s.restart_gen)

-- markRestartHandled
unfoldable pub mark_restart_handled : Bytes → ℕ → Restarts → Restarts
mark_restart_handled file gen s =
    if ltb (s.handled_gen file) gen
    then record s { handled_gen = update s.handled_gen file gen }
    else s

module _ (server_ready : Bytes → Bool) where
  -- The loop of noteServerStart: the first startup banner after `floor`.
  unfoldable pub first_banner : Time → List LogRecord → Option Time
  first_banner floor [] = none
  first_banner floor (r ∷ rs) =
      if after r.timestamp floor && server_ready r.message
      then some r.timestamp
      else first_banner floor rs

  -- noteServerStart, of a worker started at `started`
  unfoldable pub note_server_start : Time → Time → List LogRecord → Restarts → Restarts
  unfolding first_banner notify_restart
  note_server_start started horizon recs s =
      elim (first_banner
        (if not (is_zero horizon) && before horizon started then horizon else started) recs) [
          | none ↦ s
          | some at ↦ notify_restart at s
        ]
