-- ===== src/Pipeline/Watch/Once.antt =====
-- How often a restart is passed on.
use rdstail.Prelude.{ℕ, suc, ◌-◌, ◌≤◌, ◌≡◌, ◌≢◌, some, List, [], ◌∷◌, Bytes, All, IsIn, ◌++◌}
use rdstail.Record.{Time}
use rdstail.State.{find}
use rdstail.Source.Events.{RestartEvent}
use rdstail.Pipeline.Watch.{Polled, read, denied, failed, Watch, event_key, restart_lookback}

-- The clock does not go back.
abbrev pub IsTicking : Time → List Time → Type 0
IsTicking last [] = Unit
IsTicking last (now ∷ ticks) = (last ≤ now) × IsTicking now ticks

-- The events of the polls that succeed, of the i-th on, up to one that is denied. Each poll asks for
-- those since `since`, which is the lookback before the last poll that succeeded.
abbrev pub reported : (ℕ → Time → Time → Polled) → ℕ → Time → List Time → List RestartEvent
reported poll i since [] = []
reported poll i since (now ∷ ticks) = elim (poll i since now) [
  | read es ↦ es ++ reported poll (suc i) (now - restart_lookback) ticks
  | denied ↦ []
  | failed ↦ reported poll (suc i) since ticks
]

module _ (show_time : Time → Bytes) where
  -- No two events have the same instance and time.
  abbrev pub IsOnce : List RestartEvent → Type 0
  IsOnce [] = Unit
  IsOnce (e ∷ es) = All (λ f. event_key show_time e ≢ event_key show_time f) es × IsOnce es

  -- An event that could be read again is remembered.
  abbrev IsKnown : Watch → RestartEvent → Type 0
  IsKnown w e =
      w.since ≤ e.at → (t : Time) × (find w.seen (event_key show_time e) ≡ some t) × (e.at ≤ t)

  abbrev IsSound : Watch → Type 0
  IsSound w = IsOnce w.passed × All (IsKnown w) w.passed

  -- An event of this instance and time was passed on.
  abbrev pub IsPassed : List RestartEvent → RestartEvent → Type 0
  IsPassed passed e =
      (f : RestartEvent) × IsIn f passed × (event_key show_time f ≡ event_key show_time e)

  -- What is remembered was passed on.
  abbrev IsRecorded : Watch → Type 0
  IsRecorded w =
      All
        (λ (s : Bytes × Time). (f : RestartEvent) × IsIn f w.passed × (event_key show_time f ≡ s.0))
        w.seen

  -- All that was read before is passed on, and what is remembered was.
  abbrev HasPassed : List RestartEvent → Watch → Type 0
  HasPassed es w = IsRecorded w × All (IsPassed w.passed) es
