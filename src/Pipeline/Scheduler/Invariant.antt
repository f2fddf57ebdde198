-- ===== src/Pipeline/Scheduler/Invariant.antt =====
-- What holds of the scheduler's goroutines in any order of their steps.
use rdstail.Prelude.{
  ℕ, ◌+◌, ◌==◌, ◌≡◌, ◌≢◌, ◌≤◌, ◌<◌, ◌⊎◌, inl, inr, refl, sym, ap, subst, ◌∙◌, false, not, Option,
  none, List, [], ◌∷◌, ◌++◌, Bytes, All-IsIn, All-at, arith, All, All-map, All-append, All-keep_if,
  IsIn, Option-cases,
}
use rdstail.Failure.{Failure}
use rdstail.State.{Entries, find, put, remove}
use rdstail.State.Table.{find-put_ne}
use rdstail.Pipeline.Scheduler.{
  Task, waiting, polling, leaving, Pool, InstanceSpec, spec_key, start_worker, exit_task, TaskStep,
  RefreshStep, PoolSteps, stopping, starting, beginning, returning, exiting, stay, launching, going,
  refreshing, start_one, set_phase, stop_departed,
}
use rdstail.Pipeline.Scheduler.Tasks.{
  entries_of, IsDistinct, count_polling, put-new, entries_of-append, find-entries_of,
  IsDistinct-append, IsSameTasks, IsSameTasks-entries_of, IsSameTasks-bounded,
  IsSameTasks-IsDistinct, stop_departed-IsSameTasks, set_phase-IsSameTasks, stop_departed-polling,
  begun-polling, left-polling, keep_if-polling, remove-entries_of, IsDistinct-keep_if,
}

-- The map holds each goroutine under its key and nothing else, and no two goroutines have one key.
abbrev pub IsOneEach : Pool → Type 0
IsOneEach p =
    (p.running ≡ entries_of p.tasks) × IsDistinct p.tasks × All (λ t. t.id < p.next_id) p.tasks

changed-IsOneEach :
    (p : Pool) (ts : List Task)
    → IsSameTasks p.tasks ts
    → IsOneEach p
    → IsOneEach (record p { tasks = ts })
changed-IsOneEach p ts same_tasks (held, distinct, below) = (
  held ∙ IsSameTasks-entries_of p.tasks ts same_tasks,
  IsSameTasks-IsDistinct p.tasks ts same_tasks distinct,
  IsSameTasks-bounded p.tasks ts p.next_id same_tasks below,
)

exit_task-IsOneEach :
    (p : Pool) (t : Task) → IsIn t p.tasks → IsOneEach p → IsOneEach (exit_task t p)
unfolding exit_task
exit_task-IsOneEach p t here (held, distinct, below) = (
  ap (λ m. remove m t.key) held ∙ remove-entries_of t p.tasks distinct here,
  IsDistinct-keep_if (λ u. not (u.id == t.id)) p.tasks distinct,
  All-keep_if (λ u. u.id < p.next_id) (λ u. not (u.id == t.id)) p.tasks below,
)

-- No two instances have one key.
abbrev pub AreKeyed : List InstanceSpec → Type 0
AreKeyed [] = Unit
AreKeyed (inst ∷ insts) = All (λ other. spec_key inst ≢ spec_key other) insts × AreKeyed insts

find-remove-none : (m : Entries ℕ) (k j : Bytes) → find m j ≡ none → find (remove m k) j ≡ none
unfolding find remove
find-remove-none [] k j h = refl
find-remove-none ((i, u) ∷ m) k j h = ground (arith, h, find-remove-none m k j)

-- The task of a worker that is started.
abbrev pub new_task : InstanceSpec → ℕ → Task
new_task inst id = record { id = id; key = spec_key inst; cancelled = false; phase = waiting }

abbrev pub added : InstanceSpec → Pool → Pool
added inst p = record {
  running = put p.running (spec_key inst) p.next_id;
  tasks = p.tasks ++ new_task inst p.next_id ∷ [];
  next_id = p.next_id + 1;
}

All-both {ℓ} :
    {A : Type ℓ} (P Q : A → Type 0) (xs : List A) → All P xs → All Q xs → All (λ x. P x × Q x) xs
All-both P Q [] h k = tt
All-both P Q (x ∷ xs) h k = ((h.0, k.0), All-both P Q xs h.1 k.1)

added-IsOneEach :
    (p : Pool) (inst : InstanceSpec)
    → find p.running (spec_key inst) ≡ none
    → IsOneEach p
    → IsOneEach (added inst p)
added-IsOneEach p inst new (held, distinct, below) =
    let t = new_task inst p.next_id in
    let absent =
      find-entries_of p.tasks (spec_key inst) (ap (λ m. find m (spec_key inst)) (sym held) ∙ new) in
    let fresh =
      All-map (λ u. u.id < p.next_id) (λ u. u.id ≢ p.next_id) p.tasks
        (λ u k e. absurd (omega (arith, k, e))) below in
    (
      put-new p.running (spec_key inst) p.next_id new
          ∙ ap (λ m. m ++ (t.key, t.id) ∷ []) held
          ∙ sym (entries_of-append p.tasks t),
      IsDistinct-append p.tasks t distinct (All-both _ _ p.tasks absent fresh),
      All-append (λ u. u.id < p.next_id + 1) p.tasks (t ∷ [])
          (All-map (λ u. u.id < p.next_id) _ p.tasks (λ u k. omega (arith, k)) below)
          (omega arith, tt),
    )

waiting-polling :
    (ts : List Task) (t : Task)
    → t.phase ≡ waiting
    → count_polling (ts ++ t ∷ []) ≡ count_polling ts
waiting-polling [] t h = rw h refl
waiting-polling (u ∷ ts) t h = ground (arith, waiting-polling ts t h)

module _ (build : InstanceSpec → Option Failure) (concurrency : ℕ) where
  start_worker-added :
      (inst : InstanceSpec) (p : Pool)
      → ((start_worker build inst p).1 ≡ p) ⊎ ((start_worker build inst p).1 ≡ added inst p)
  unfolding start_worker
  start_worker-added inst p = elim (Option-cases (build inst)) [
    | inr (e, bad) ↦ inl (rw (bad, start_worker) refl)
    | inl good ↦ inr (rw (good, start_worker) refl)
  ]

  pub start_worker-IsOneEach :
      (p : Pool) (inst : InstanceSpec)
      → find p.running (spec_key inst) ≡ none
      → IsOneEach p
      → IsOneEach (start_worker build inst p).1
  start_worker-IsOneEach p inst new one = elim (start_worker-added inst p) [
    | inl same_pool ↦ subst IsOneEach (sym same_pool) one
    | inr more ↦ subst IsOneEach (sym more) (added-IsOneEach p inst new one)
  ]

  pub start_worker-polling :
      (p : Pool) (inst : InstanceSpec)
      → count_polling (start_worker build inst p).1.tasks ≡ count_polling p.tasks
  start_worker-polling p inst = elim (start_worker-added inst p) [
    | inl same_pool ↦ ap (λ (q : Pool). count_polling q.tasks) same_pool
    | inr more ↦
        ap (λ (q : Pool). count_polling q.tasks) more
        ∙ waiting-polling p.tasks (new_task inst p.next_id) refl
  ]

  start_one-cases :
      (p : Pool) (k : Bytes) (inst : InstanceSpec)
      → (start_one build k inst p ≡ p)
        ⊎ ((find p.running k ≡ none) × (start_one build k inst p ≡ (start_worker build inst p).1))
  unfolding start_one
  start_one-cases p k inst = elim (Option-cases (find p.running k)) [
    | inr (id, alive) ↦ inl (rw (alive, start_one) refl)
    | inl new ↦ inr (new, rw (new, start_one) refl)
  ]

  TaskStep-IsOneEach : {p q : Pool} → TaskStep build concurrency p q → IsOneEach p → IsOneEach q
  TaskStep-IsOneEach {p} (beginning t here idle free) one =
      changed-IsOneEach p (set_phase t.id polling p.tasks)
        (set_phase-IsSameTasks t.id polling p.tasks) one
  TaskStep-IsOneEach {p} (returning t here busy) one =
      changed-IsOneEach p (set_phase t.id leaving p.tasks)
        (set_phase-IsSameTasks t.id leaving p.tasks) one
  TaskStep-IsOneEach {p} (exiting t here over) one = exit_task-IsOneEach p t here one

  RefreshStep-IsOneEach :
      {p q : Pool} → RefreshStep build concurrency p q → IsOneEach p → IsOneEach q
  RefreshStep-IsOneEach {p} (stopping want) one =
      changed-IsOneEach p (stop_departed want p.running p.tasks)
        (stop_departed-IsSameTasks want p.running p.tasks) one
  RefreshStep-IsOneEach {p} (starting k inst filed) one = elim (start_one-cases p k inst) [
    | inl same_pool ↦ subst IsOneEach (sym same_pool) one
    | inr (new, more) ↦
        subst IsOneEach (sym more)
          (start_worker-IsOneEach p inst (ap (λ j. find p.running j) (sym filed) ∙ new) one)
  ]

  TaskStep-polling :
      {p q : Pool}
      → TaskStep build concurrency p q
      → IsOneEach p
      → count_polling p.tasks ≤ concurrency
      → count_polling q.tasks ≤ concurrency
  unfolding exit_task
  TaskStep-polling {p} (beginning t here idle free) one h =
      omega (arith, free, begun-polling t p.tasks one.1 here)
  TaskStep-polling {p} (returning t here busy) one h = omega (arith, h, left-polling t.id p.tasks)
  TaskStep-polling {p} (exiting t here over) one h =
      omega (arith, h, keep_if-polling (λ u. not (u.id == t.id)) p.tasks)

  RefreshStep-polling :
      {p q : Pool}
      → RefreshStep build concurrency p q
      → count_polling p.tasks ≤ concurrency
      → count_polling q.tasks ≤ concurrency
  RefreshStep-polling {p} (stopping want) h =
      omega (arith, h, stop_departed-polling want p.running p.tasks)
  RefreshStep-polling {p} (starting k inst filed) h = elim (start_one-cases p k inst) [
    | inl same_pool ↦ subst (λ (q : Pool). count_polling q.tasks ≤ concurrency) (sym same_pool) h
    | inr (new, more) ↦
        subst (λ (q : Pool). count_polling q.tasks ≤ concurrency) (sym more)
          (omega (arith, h, start_worker-polling p inst))
  ]

  -- A goroutine files nothing under a new key.
  TaskStep-find :
      {p q : Pool}
      → TaskStep build concurrency p q
      → (k : Bytes) → find p.running k ≡ none
      → find q.running k ≡ none
  unfolding exit_task
  TaskStep-find {p} (beginning t here idle free) k h = h
  TaskStep-find {p} (returning t here busy) k h = h
  TaskStep-find {p} (exiting t here over) k h = find-remove-none p.running t.key k h

  start_worker-find :
      (p : Pool) (inst : InstanceSpec) (k : Bytes)
      → spec_key inst ≢ k
      → find p.running k ≡ none
      → find (start_worker build inst p).1.running k ≡ none
  start_worker-find p inst k differs h = elim (start_worker-added inst p) [
    | inl same_pool ↦ subst (λ (q : Pool). find q.running k ≡ none) (sym same_pool) h
    | inr more ↦
        subst (λ (q : Pool). find q.running k ≡ none) (sym more)
          (find-put_ne p.running (spec_key inst) p.next_id k differs ∙ h)
  ]

  -- What holds of the pool, and of the instances that are still to be started.
  abbrev IsReached : List InstanceSpec → Pool → Type 0
  IsReached rest p =
      IsOneEach p
      × (count_polling p.tasks ≤ concurrency)
      × AreKeyed rest
      × All (λ inst. find p.running (spec_key inst) ≡ none) rest

  PoolSteps-IsReached :
      {instances rest : List InstanceSpec} {p : Pool}
      → PoolSteps build concurrency instances rest p
      → AreKeyed instances
      → IsReached rest p
  unfolding find
  PoolSteps-IsReached {instances} stay keyed =
      ((refl, tt, tt), omega arith, keyed, All-IsIn _ instances (λ inst here. refl))
  PoolSteps-IsReached (launching {inst} {rest} {p} steps built) keyed =
      let (one, few, (differs, keyed'), (new, absent)) = PoolSteps-IsReached steps keyed in
      (
        start_worker-IsOneEach p inst new one,
        omega (arith, few, start_worker-polling p inst),
        keyed',
        All-IsIn _ rest (λ other here.
            start_worker-find p inst (spec_key other) (All-at _ other rest differs here)
              (All-at _ other rest absent here)),
      )
  PoolSteps-IsReached (going {rest} steps step) keyed =
      let (one, few, keyed', absent) = PoolSteps-IsReached steps keyed in
      (
        TaskStep-IsOneEach step one,
        TaskStep-polling step one few,
        keyed',
        All-map _ _ rest (λ inst h. TaskStep-find step (spec_key inst) h) absent,
      )
  PoolSteps-IsReached (refreshing steps step) keyed =
      let (one, few, keyed', absent) = PoolSteps-IsReached steps keyed in
      (RefreshStep-IsOneEach step one, RefreshStep-polling step few, tt, tt)

  -- Where no two configured instances have one key: while these are started, and in any order of the
  -- steps of the goroutines and of the refreshes after that, no two live goroutines poll for one
  -- instance, the map holds exactly the live ones, each under its key, and no more workers poll than
  -- the semaphore has slots.
  pub PoolSteps-IsOneEach :
      {instances rest : List InstanceSpec} {p : Pool}
      → PoolSteps build concurrency instances rest p
      → AreKeyed instances
      → IsOneEach p × (count_polling p.tasks ≤ concurrency)
  PoolSteps-IsOneEach steps keyed =
      let (one, few, keyed', absent) = PoolSteps-IsReached steps keyed in (one, few)
