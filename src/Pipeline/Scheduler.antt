-- ===== src/Pipeline/Scheduler.antt =====
-- internal/pipeline/scheduler.go: Run, which starts one worker for each instance and follows the set of
-- instances that is discovered. A goroutine is a task with a number; the steps that the goroutines take
-- in any order are a relation. Whether a fetcher and a worker can be built is an argument, and so is
-- what discovery returns. The wait at shutdown and the metrics are left out.
pub mod Tasks
pub mod Invariant
pub mod Convergence
pub mod Following
use rdstail.Prelude.{
  ℕ, zero, suc, ◌+◌, ◌≡◌, ◌==◌, ◌&&◌, ◌||◌, ◌<◌, Bool, true, false, Option, none, some, List, [],
  ◌∷◌, ◌++◌, Bytes, ltb, leb, length, IsIn, keep_if, not, if◌then◌else◌,
}
use rdstail.Prelude.Int.{ℤ, pos, negsuc}
use rdstail.Failure.{Failure}
use rdstail.State.{Entries, find, put, remove}

-- InstanceSpec; the client of the API is left out
pub record InstanceSpec : Type 0 where
  pub instance_id : Bytes
  pub engine : Bytes
  pub region : Bytes
  pub include_audit : Bool

-- specKey
abbrev pub spec_key : InstanceSpec → Bytes
spec_key inst = inst.region ++ b'|' ∷ inst.instance_id

-- Before a slot of the semaphore is taken, while the worker runs, and when the slot was given back.
pub data Phase : Type 0 where
  waiting polling leaving : Phase

-- The goroutine of a worker, until it has removed itself.
pub record Task : Type 0 where
  pub id : ℕ
  pub key : Bytes
  pub cancelled : Bool
  pub phase : Phase

-- The maps running and workers, whose entries stand for a task, and the goroutines.
pub record Pool : Type 0 where
  pub running : Entries ℕ
  pub tasks : List Task
  pub next_id : ℕ

abbrev pub empty_pool : Pool
empty_pool = record { running = []; tasks = []; next_id = 0 }

-- maxDynamicWorkers
abbrev pub max_dynamic_workers : ℕ
max_dynamic_workers = 500

-- The capacity of the semaphore.
abbrev pub concurrency_of : Bool → ℤ → ℕ → ℕ
concurrency_of true (pos (suc n)) instances = suc n
concurrency_of true (pos zero) instances = max_dynamic_workers
concurrency_of true (negsuc n) instances = max_dynamic_workers
concurrency_of false (pos zero) instances = instances
concurrency_of false (pos (suc n)) instances = if ltb instances (suc n) then instances else suc n
concurrency_of false (negsuc n) instances = instances

-- cancel, of the task with this number
unfoldable pub cancel : ℕ → List Task → List Task
cancel id [] = []
cancel id (t ∷ ts) = (if t.id == id then record t { cancelled = true } else t) ∷ cancel id ts

-- What a goroutine does last.
unfoldable pub exit_task : Task → Pool → Pool
unfolding remove
exit_task t p = record p {
  running = remove p.running t.key;
  tasks = keep_if (λ u. not (u.id == t.id)) p.tasks;
}

-- The task with this number goes on to a phase.
unfoldable pub set_phase : ℕ → Phase → List Task → List Task
set_phase id phase [] = []
set_phase id phase (t ∷ ts) =
    (if t.id == id then record t { phase = phase } else t) ∷ set_phase id phase ts

abbrev pub is_polling : Task → Bool
is_polling t = elim t.phase [ waiting ↦ false | polling ↦ true | leaving ↦ false ]

-- want
unfoldable pub wanted_by_key : List InstanceSpec → Entries InstanceSpec → Entries InstanceSpec
unfolding put
wanted_by_key [] want = want
wanted_by_key (inst ∷ insts) want = wanted_by_key insts (put want (spec_key inst) inst)

-- What is done with the task of an entry, which may be wanted.
abbrev pub stop_unless : Option InstanceSpec → ℕ → List Task → List Task
stop_unless (some inst) id ts = ts
stop_unless none id ts = cancel id ts

-- The loop that stops workers whose instance left the desired set.
unfoldable pub stop_departed : Entries InstanceSpec → Entries ℕ → List Task → List Task
unfolding find cancel
stop_departed want [] ts = ts
stop_departed want ((k, id) ∷ running) ts =
    stop_departed want running (stop_unless (find want k) id ts)

module _ (build : InstanceSpec → Option Failure) where
  -- start
  unfoldable pub start_worker : InstanceSpec → Pool → Option Failure × Pool
  unfolding put
  start_worker inst p = elim (build inst) [
    | some e ↦ (some e, p)
    | none ↦ (
      none,
      record {
        running = put p.running (spec_key inst) p.next_id;
        tasks =
            p.tasks
            ++ record { id = p.next_id; key = spec_key inst; cancelled = false; phase = waiting }
              ∷ [];
        next_id = p.next_id + 1;
      },
    )
  ]

  -- The loop over the configured instances, which the first error ends.
  unfoldable pub start_all : List InstanceSpec → Pool → Option Failure × Pool
  unfolding start_worker
  start_all [] p = (none, p)
  start_all (inst ∷ insts) p =
      let (failed, p') = start_worker inst p in
      elim failed [ some e ↦ (some e, p') | none ↦ start_all insts p' ]

  -- What is done with an instance that is wanted, which may have a worker; an error is logged.
  abbrev pub start_unless : Option ℕ → InstanceSpec → Pool → Pool
  start_unless (some id) inst p = p
  start_unless none inst p = (start_worker inst p).1

  -- One round of the loop that starts workers for the others: `alive` is looked up.
  unfoldable pub start_one : Bytes → InstanceSpec → Pool → Pool
  unfolding find start_worker
  start_one k inst p = start_unless (find p.running k) inst p

  unfoldable pub start_missing : Entries InstanceSpec → Pool → Pool
  unfolding start_one
  start_missing [] p = p
  start_missing ((k, inst) ∷ want) p = start_missing want (start_one k inst p)

  -- What follows a successful refresh.
  unfoldable pub reconcile : List InstanceSpec → Pool → Pool
  unfolding wanted_by_key stop_departed start_missing
  reconcile desired p =
      let want = wanted_by_key desired [] in
      start_missing want (record p { tasks = stop_departed want p.running p.tasks })

  module _ (concurrency : ℕ) where
    -- A step of a goroutine.
    pub data TaskStep (p : Pool) : Pool → Type 0 where
      beginning :
          (t : Task)
          → IsIn t p.tasks
          → t.phase ≡ waiting
          → length (keep_if is_polling p.tasks) < concurrency
          → TaskStep p (record p { tasks = set_phase t.id polling p.tasks })
      -- worker.Run returned, with an error or because it was cancelled.
      returning :
          (t : Task)
          → IsIn t p.tasks
          → t.phase ≡ polling
          → TaskStep p (record p { tasks = set_phase t.id leaving p.tasks })
      exiting : (t : Task) → IsIn t p.tasks → t.phase ≡ leaving → TaskStep p (exit_task t p)

    -- A step of a refresh, which takes several, between which steps of goroutines may stand; one that
    -- fails takes none. The key of an entry of want is the one of its instance.
    pub data RefreshStep (p : Pool) : Pool → Type 0 where
      stopping :
          (want : Entries InstanceSpec)
          → RefreshStep p (record p { tasks = stop_departed want p.running p.tasks })
      starting :
          (k : Bytes) (inst : InstanceSpec) → k ≡ spec_key inst → RefreshStep p (start_one k inst p)

    -- The pools that Run reaches, with the configured instances that are still to be started; refreshes
    -- follow when there are none left.
    pub data PoolSteps (instances : List InstanceSpec) : List InstanceSpec → Pool → Type 0 where
      stay : PoolSteps instances instances empty_pool
      launching :
          {inst : InstanceSpec} {rest : List InstanceSpec} {p : Pool}
          → PoolSteps instances (inst ∷ rest) p
          → (start_worker inst p).0 ≡ none
          → PoolSteps instances rest (start_worker inst p).1
      going :
          {rest : List InstanceSpec} {p q : Pool}
          → PoolSteps instances rest p
          → TaskStep p q
          → PoolSteps instances rest q
      refreshing :
          {p q : Pool} → PoolSteps instances [] p → RefreshStep p q → PoolSteps instances [] q
