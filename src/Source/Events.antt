-- ===== src/Source/Events.antt =====
-- internal/source/rds/events.go: which events of RDS are restarts, and reading them page by page.
-- strings.ToLower and the API are arguments.
use rdstail.Prelude.{
  ℕ, zero, suc, ◌||◌, ◌&&◌, Bool, true, false, Option, none, some, List, [], ◌∷◌, ◌++◌, Bytes,
  codes, same, has_prefix, if◌then◌else◌,
}
use rdstail.Record.{Time}
use rdstail.Failure.{Result, ok, err}

-- rdstypes.Event, as far as it is read here
pub record Event : Type 0 where
  pub source : Bytes
  pub date : Time
  pub message : Bytes
  pub categories : List Bytes

pub record RestartEvent : Type 0 where
  pub instance_id : Bytes
  pub at : Time
  pub message : Bytes

-- strings.Contains
unfoldable pub contains : Bytes → Bytes → Bool
unfolding has_prefix
contains [] p = has_prefix [] p
contains (c ∷ s) p = has_prefix (c ∷ s) p || contains s p

-- A page of DescribeEvents: the events and the marker of the next page.
pub record Page : Type 0 where
  pub events : List Event
  pub marker : Bytes

module _ (to_lower : Bytes → Bytes) where
  -- The loop of IsRestartEvent
  unfoldable pub is_restart_category : Bytes → List Bytes → Bool
  unfolding contains same
  is_restart_category msg [] = false
  is_restart_category msg (c ∷ cs) =
      let rest = is_restart_category msg cs in
      if same (to_lower c) (codes "failover")
      then true
      else if same (to_lower c) (codes "availability")
          && (contains msg (codes "restart")
              || contains msg (codes "reboot")
              || contains msg (codes "shutdown"))
      then true
      else rest

  -- IsRestartEvent
  unfoldable pub is_restart_event : Event → Bool
  unfolding is_restart_category
  is_restart_event e = is_restart_category (to_lower e.message) e.categories

  unfoldable pub restarts_of : List Event → List RestartEvent
  unfolding is_restart_event
  restarts_of [] = []
  restarts_of (e ∷ es) =
      if is_restart_event e
      then record { instance_id = e.source; at = e.date; message = e.message } ∷ restarts_of es
      else restarts_of es

  -- PollRestartEvents from the page of a marker on, for the call's answers by marker: `none` if the
  -- API has more pages than that.
  unfoldable pub poll_pages :
      (Bytes → Result Page) → ℕ → Bytes → Option (Result (List RestartEvent))
  unfolding restarts_of
  poll_pages api zero marker = none
  poll_pages api (suc n) marker = elim (api marker) [
    | err e ↦ some (err e)
    | ok page ↦ elim page.marker [
      | [] ↦ some (ok (restarts_of page.events))
      | ◌∷◌ c next ↦ elim (poll_pages api n (c ∷ next)) [
        | none ↦ none
        | some rest ↦ elim rest [
          | err e ↦ some (err e)
          | ok more ↦ some (ok (restarts_of page.events ++ more))
        ]
      ]
    ]
  ]
