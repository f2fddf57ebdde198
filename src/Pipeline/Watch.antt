-- ===== src/Pipeline/Watch.antt =====
-- internal/pipeline/scheduler.go: watchRestarts, which passes each restart that RDS reports to the
-- worker of its instance. The clock, time.Time.String and the answers of PollRestartEvents are
-- arguments.
pub mod Once
use rdstail.Prelude.{
  ℕ, suc, ◌+◌, ◌-◌, ◌*◌, ◌^◌, Bool, true, false, not, Option, none, some, List, [], ◌∷◌, ◌++◌,
  Bytes, ltb, keep_if, if◌then◌else◌,
}
use rdstail.Record.{Time}
use rdstail.State.{Entries, find, put}
use rdstail.Source.Events.{RestartEvent}

-- restartLookback
abbrev pub restart_lookback : ℕ
restart_lookback = 5 * 60 * 10 ^ 9

-- The answer of PollRestartEvents.
pub data Polled : Type 0 where
  read : List RestartEvent → Polled
  -- AccessDenied
  denied : Polled
  failed : Polled

-- The variables of watchRestarts, and the events that were passed on, the newest first.
pub record Watch : Type 0 where
  pub seen : Entries Time
  pub since : Time
  pub passed : List RestartEvent

module _ (show_time : Time → Bytes) where
  -- e.InstanceID + "|" + e.At.String()
  abbrev pub event_key : RestartEvent → Bytes
  event_key e = e.instance_id ++ b'|' ∷ show_time e.at

  -- One round of the loop over the events.
  unfoldable pub take_event : Time → RestartEvent → Watch → Watch
  unfolding find put
  take_event now e w = elim (find w.seen (event_key e)) [
    | some t ↦ w
    | none ↦ record w { seen = put w.seen (event_key e) now; passed = e ∷ w.passed }
  ]

  unfoldable pub take_events : Time → List RestartEvent → Watch → Watch
  unfolding take_event
  take_events now [] w = w
  take_events now (e ∷ es) w = take_events now es (take_event now e w)

  -- now.Sub(t) > 2*restartLookback
  abbrev pub is_old : Time → Bytes × Time → Bool
  is_old now (k, t) = ltb (t + 2 * restart_lookback) now

  -- What follows the loop over the events.
  unfoldable pub forget : Time → Watch → Watch
  forget now w = record w {
    seen = keep_if (λ s. not (is_old now s)) w.seen;
    since = now - restart_lookback;
  }

  -- The loop of watchRestarts, one round for each tick of the clock; `poll i since now` is the i-th
  -- answer.
  unfoldable pub watch : (ℕ → Time → Time → Polled) → ℕ → List Time → Watch → Watch
  unfolding take_events forget
  watch poll i [] w = w
  watch poll i (now ∷ ticks) w = elim (poll i w.since now) [
    | read es ↦ watch poll (suc i) ticks (forget now (take_events now es w))
    | denied ↦ w
    | failed ↦ watch poll (suc i) ticks w
  ]

  -- watchRestarts
  unfoldable pub watch_restarts : (ℕ → Time → Time → Polled) → Time → List Time → Watch
  unfolding watch
  watch_restarts poll started ticks =
      watch poll 0 ticks (record { seen = []; since = started - restart_lookback; passed = [] })
