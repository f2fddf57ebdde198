-- ===== src/Tests/Scheduling.antt =====
-- The scheduler's workers and the restarts that it passes on, on concrete values.
use rdstail.Prelude.{same}
use rdstail.State.{find}
use rdstail.Prelude.{
  ℕ, ◌≤◌, ◌≡◌, refl, false, ◌&&◌, leb, Option, none, [], ◌∷◌, Bytes, codes, arith, All, first,
  if◌then◌else◌,
}
use rdstail.Record.{Time}
use rdstail.Failure.{Failure}
use rdstail.Source.Events.{RestartEvent}
use rdstail.Pipeline.Watch.{Polled, read, failed, watch_restarts}
use rdstail.Pipeline.Scheduler.{
  InstanceSpec, spec_key, Task, Pool, waiting, polling, start_worker, reconcile, PoolSteps, stay,
  launching, going, beginning, set_phase,
}
use rdstail.Pipeline.Scheduler.Tasks.{count_polling}
use rdstail.Pipeline.Scheduler.Invariant.{IsOneEach, PoolSteps-IsOneEach}
use rdstail.Pipeline.Scheduler.Following.{IsServed, HasWorker, reconcile-converges}

abbrev spec : Bytes → InstanceSpec
spec id = record { instance_id = id; engine = []; region = codes "eu"; include_audit = false }

abbrev builds : InstanceSpec → Option Failure
builds inst = none

-- One worker polls, for an instance that is to leave.
abbrev task : Task
task = record { id = 0; key = codes "eu|a"; cancelled = false; phase = polling }

abbrev pool : Pool
pool = record { running = (codes "eu|a", 0) ∷ []; tasks = task ∷ []; next_id = 1 }

pool-reached : PoolSteps builds 1 (spec (codes "a") ∷ []) [] pool
unfolding start_worker set_phase find
pool-reached =
    going (launching stay refl)
      (beginning (record task { phase = waiting }) first refl (omega arith))

PoolSteps-IsOneEach_example : IsOneEach pool × (count_polling pool.tasks ≤ 1)
PoolSteps-IsOneEach_example = PoolSteps-IsOneEach builds 1 pool-reached (tt, tt)

reconcile-converges_example :
    All
      (λ inst. HasWorker pool (reconcile builds (spec (codes "b") ∷ []) pool) (spec_key inst))
      (spec (codes "b") ∷ [])
    × All (IsServed (spec (codes "b") ∷ [])) (reconcile builds (spec (codes "b") ∷ []) pool).tasks
reconcile-converges_example =
    reconcile-converges builds (λ inst. refl) (spec (codes "b") ∷ []) pool
      (refl, (tt, tt), (omega arith, tt))

abbrev show : Time → Bytes
show t = t ∷ []

abbrev restart : RestartEvent
restart = record { instance_id = codes "a"; at = 7; message = codes "restart" }

-- The restart is reported by each poll whose window holds it.
abbrev reports : ℕ → Time → Time → Polled
reports i since now = if leb since 7 && leb 7 now then read (restart ∷ []) else failed

-- Two polls read the restart.
passed_once : (watch_restarts show reports 0 (10 ∷ 20 ∷ [])).passed ≡ restart ∷ []
unfolding watch_restarts same
passed_once = refl
