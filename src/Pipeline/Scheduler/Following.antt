-- ===== src/Pipeline/Scheduler/Following.antt =====
-- The workers after a refresh.
use rdstail.Prelude.{
  ℕ, ◌≡◌, ◌≢◌, ◌==◌, ◌++◌, false, arith, first, further, same, same_iff, All-at, Bool-cases,
  Option-cases, ◌⊎◌, inl, inr, refl, sym, ap, subst, ◌∙◌, true, Option, none, some, List, [], ◌∷◌,
  Bytes, All, All-map, All-append, IsIn,
}
use rdstail.Failure.{Failure}
use rdstail.State.{Entries, find, put}
use rdstail.State.Table.{find-put, find-put_ne, All-find}
use rdstail.Pipeline.Scheduler.Tasks.{entries_of, IsDistinct}
use rdstail.Pipeline.Scheduler.{
  Task, Pool, InstanceSpec, spec_key, start_worker, start_one, cancel, stop_departed, wanted_by_key,
  start_missing, reconcile,
}
use rdstail.Pipeline.Scheduler.Invariant.{IsOneEach, added, new_task}
use rdstail.Pipeline.Scheduler.Convergence.{
  IsHeld, put-IsHeld, IsFiled, wanted_by_key-IsFiled, wanted_by_key-IsHeld, IsSettled, IsDue,
  stop_departed-IsSettled, entries_of-IsIn,
}

-- Told to stop, or for a desired instance.
abbrev pub IsServed : List InstanceSpec → Task → Type 0
IsServed desired t =
    (t.cancelled ≡ true) ⊎ ((inst : InstanceSpec) × IsIn inst desired × (t.key ≡ spec_key inst))

-- A goroutine of `q` has the key; it is one of `p`, or is not told to stop.
abbrev pub HasWorker : Pool → Pool → Bytes → Type 0
HasWorker p q k =
    (t : Task) × IsIn t q.tasks × (t.key ≡ k) × (IsIn t p.tasks ⊎ (t.cancelled ≡ false))

-- Each entry of the map that is wanted stands for such a goroutine.
abbrev IsCovered : Pool → Entries InstanceSpec → Pool → Type 0
IsCovered p want q =
    (k : Bytes) (id : ℕ) → find q.running k ≡ some id → IsHeld want k → HasWorker p q k

IsIn-append {ℓ} : {A : Type ℓ} (x : A) (a b : List A) → IsIn x a → IsIn x (a ++ b)
IsIn-append x [] b here = elim here [ ]
IsIn-append x (_ ∷ a) b first = first
IsIn-append x (y ∷ a) b (further later) = further (IsIn-append x a b later)

IsIn-last {ℓ} : {A : Type ℓ} (x : A) (a : List A) → IsIn x (a ++ x ∷ [])
IsIn-last x [] = first
IsIn-last x (y ∷ a) = further (IsIn-last x a)

added-IsCovered :
    (p : Pool) (want : Entries InstanceSpec) (q : Pool) (inst : InstanceSpec)
    → IsCovered p want q
    → IsCovered p want (added inst q)
added-IsCovered p want q inst h k id there wanted = elim (Bool-cases (same (spec_key inst) k)) [
  | inl here ↦
      let t = new_task inst q.next_id in
      (t, IsIn-last t q.tasks, (same_iff (spec_key inst) k).0 here, inr refl)
  | inr other ↦
      let before =
        sym (
          find-put_ne q.running (spec_key inst) q.next_id k
            (λ e. absurd (ground (arith, e, other, same_iff (spec_key inst) k))))
        ∙ there in
      let (t, is_in, key_is, kept) = h k id before wanted in
      (t, IsIn-append t q.tasks (new_task inst q.next_id ∷ []) is_in, key_is, kept)
]

find-entries_of-some :
    (ts : List Task) (k : Bytes) (id : ℕ)
    → find (entries_of ts) k ≡ some id
    → (t : Task) × IsIn t ts × (t.key ≡ k)
unfolding find
find-entries_of-some [] k id h = absurd (ground (arith, h))
find-entries_of-some (t ∷ ts) k id h = elim (Bool-cases (same t.key k)) [
  | inl here ↦ (t, first, (same_iff t.key k).0 here)
  | inr other ↦
      let (u, is_in, key_is) = find-entries_of-some ts k id (ground (arith, other, h)) in
      (u, further is_in, key_is)
]

-- An entry is of the task's key, or of another number.
abbrev IsApart : Task → Bytes × ℕ → Type 0
IsApart t e = (e.0 ≡ t.key) ⊎ (e.1 ≢ t.id)

entries_of-IsApart :
    (ts : List Task) (t : Task) → IsDistinct ts → IsIn t ts → All (IsApart t) (entries_of ts)
entries_of-IsApart [] t d here = tt
entries_of-IsApart (_ ∷ ts) t d first = (inl refl, later-IsApart ts t d.0)
  where
    later-IsApart :
        (us : List Task) (v : Task)
        → All (λ u. (v.key ≢ u.key) × (v.id ≢ u.id)) us
        → All (IsApart v) (entries_of us)
    later-IsApart [] v h = tt
    later-IsApart (u ∷ us) v h = (inr (λ e. h.0.1 (sym e)), later-IsApart us v h.1)
entries_of-IsApart (u ∷ ts) t d (further later) =
    (inr (All-at _ t ts d.0 later).1, entries_of-IsApart ts t d.1 later)

cancel-IsIn : (id : ℕ) (ts : List Task) (t : Task) → id ≢ t.id → IsIn t ts → IsIn t (cancel id ts)
unfolding cancel
cancel-IsIn id [] t differs here = elim here [ ]
cancel-IsIn id (_ ∷ ts) t differs first =
    let other : (t.id == id) ≡ false = ground (arith, differs) in rw other first
cancel-IsIn id (u ∷ ts) t differs (further later) = further (cancel-IsIn id ts t differs later)

-- A wanted task is left as it is.
stop_departed-IsIn :
    (want : Entries InstanceSpec) (running : Entries ℕ) (ts : List Task) (t : Task)
    → IsHeld want t.key
    → All (IsApart t) running
    → IsIn t ts
    → IsIn t (stop_departed want running ts)
unfolding stop_departed
stop_departed-IsIn want [] ts t wanted apart here = here
stop_departed-IsIn want ((k, id) ∷ running) ts t wanted apart here =
    elim (Option-cases (find want k)) [
      | inr (inst, there) ↦
          rw (there, stop_departed) (stop_departed-IsIn want running ts t wanted apart.1 here)
      | inl left ↦ elim apart.0 [
        | inl key_is ↦
            let (v, there) = wanted in absurd (ground (arith, there, ap (find want) key_is, left))
        | inr differs ↦
            rw (left, stop_departed)
              (stop_departed-IsIn want running (cancel id ts) t wanted apart.1
                (cancel-IsIn id ts t differs here))
      ]
    ]

stopped-IsCovered :
    (p : Pool) (want : Entries InstanceSpec)
    → IsOneEach p
    → IsCovered p want (record p { tasks = stop_departed want p.running p.tasks })
stopped-IsCovered p want (held, distinct, below) k id there wanted =
    let (t, is_in, key_is) =
      find-entries_of-some p.tasks k id (ap (λ m. find m k) (sym held) ∙ there) in
    let apart = subst (All (IsApart t)) (sym held) (entries_of-IsApart p.tasks t distinct is_in) in
    (
      t,
      stop_departed-IsIn want p.running p.tasks t (subst (IsHeld want) (sym key_is) wanted) apart
          is_in,
      key_is,
      inl is_in,
    )

module _ (build : InstanceSpec → Option Failure)
    (builds : (inst : InstanceSpec) → build inst ≡ none) where
  start_worker-adds :
      (inst : InstanceSpec) (p : Pool) → (start_worker build inst p).1 ≡ added inst p
  unfolding start_worker
  start_worker-adds inst p = rw (builds inst, start_worker) refl

  start_one-adds :
      (k : Bytes) (inst : InstanceSpec) (p : Pool)
      → (start_one build k inst p ≡ p) ⊎ (start_one build k inst p ≡ added inst p)
  unfolding start_one
  start_one-adds k inst p = elim (Option-cases (find p.running k)) [
    | inr (id, alive) ↦ inl (rw (alive, start_one) refl)
    | inl new ↦ inr (rw (new, start_one) (start_worker-adds inst p))
  ]

  -- What holds of each entry's key and instance, and is kept by each start, is kept by the loop.
  module _ (P : Pool → Type 0) (Q : Bytes × InstanceSpec → Type 0)
      (kept : (p : Pool) (k : Bytes) (inst : InstanceSpec)
        → Q (k, inst)
        → P p
        → P (added inst p)) where
    start_missing-kept :
        (want : Entries InstanceSpec) (p : Pool) → All Q want → P p → P (start_missing build want p)
    unfolding start_missing
    start_missing-kept [] p q h = h
    start_missing-kept ((k, inst) ∷ want) p q h =
        start_missing-kept want (start_one build k inst p) q.1 (elim (start_one-adds k inst p) [
          | inl e ↦ subst P (sym e) h
          | inr e ↦ subst P (sym e) (kept p k inst q.0 h)
        ])

  start_one-IsHeld :
      (k : Bytes) (inst : InstanceSpec) (p : Pool)
      → k ≡ spec_key inst
      → IsHeld (start_one build k inst p).running k
  unfolding start_one
  start_one-IsHeld k inst p filed = elim (Option-cases (find p.running k)) [
    | inr (id, alive) ↦ rw (alive, start_one) (id, alive)
    | inl new ↦
        rw (new, start_one)
          (subst (λ (q : Pool). IsHeld q.running k) (sym (start_worker-adds inst p))
            (
              p.next_id,
              ap (λ j. find (put p.running (spec_key inst) p.next_id) j) filed
                  ∙ find-put p.running (spec_key inst) p.next_id,
            ))
  ]

  start_missing-IsHeld :
      (desired : List InstanceSpec) (want : Entries InstanceSpec) (p : Pool)
      → All (IsFiled desired) want
      → All (λ (e : Bytes × InstanceSpec). IsHeld (start_missing build want p).running e.0) want
  unfolding start_missing
  start_missing-IsHeld desired [] p filed = tt
  start_missing-IsHeld desired ((k, inst) ∷ want) p filed =
      let q = start_one build k inst p in
      (
        start_missing-kept (λ r. IsHeld r.running k) (IsFiled desired)
            (λ r j i f h. put-IsHeld r.running (spec_key i) r.next_id k h) want q filed.1
            (start_one-IsHeld k inst p filed.0.0),
        start_missing-IsHeld desired want q filed.1,
      )

  -- A refresh from a pool in which the map holds the live goroutines, when every worker can be built:
  -- each desired instance has a goroutine then, which was there before and is as it was, or is not told
  -- to stop; and each goroutine that is not told to stop is for a desired instance.
  pub reconcile-converges :
      (desired : List InstanceSpec) (p : Pool)
      → IsOneEach p
      → All (λ inst. HasWorker p (reconcile build desired p) (spec_key inst)) desired
        × All (IsServed desired) (reconcile build desired p).tasks
  unfolding reconcile
  reconcile-converges desired p (held, distinct, below) =
      let want = wanted_by_key desired [] in
      let filed = wanted_by_key-IsFiled desired desired [] (λ inst h. h) tt in
      let stopped : Pool = record p { tasks = stop_departed want p.running p.tasks } in
      let settled = stop_departed-IsSettled want p.running p.tasks (
        subst (λ m. All (IsDue want m) p.tasks) (sym held)
          (All-map _ _ p.tasks (λ t h. inr h) (entries_of-IsIn p.tasks))) in
      let running = start_missing-IsHeld desired want stopped filed in
      let covered =
        start_missing-kept (IsCovered p want) (IsFiled desired)
          (λ q k inst f h. added-IsCovered p want q inst h) want stopped filed
          (stopped-IsCovered p want (held, distinct, below)) in
      let served =
        All-map (IsSettled want) (IsServed desired) (stop_departed want p.running p.tasks)
          (λ t h. elim h [
            | inl told ↦ inl told
            | inr (inst, there) ↦
                let (key_is, here) = All-find (IsFiled desired) want t.key inst filed there in
                inr (inst, here, key_is)
          ])
          settled in
      (
        All-map (λ inst. IsHeld want (spec_key inst)) _ desired
            (λ inst (v, there).
              let (id, held_now) =
                All-find
                  (λ (e : Bytes × InstanceSpec).
                    IsHeld (start_missing build want stopped).running e.0)
                  want (spec_key inst) v running there in
              covered (spec_key inst) id held_now (v, there))
            (wanted_by_key-IsHeld desired []),
        start_missing-kept (λ q. All (IsServed desired) q.tasks) (IsFiled desired)
            (λ q k inst f h.
              All-append (IsServed desired) q.tasks (new_task inst q.next_id ∷ []) h
                (inr (inst, f.1, refl), tt))
            want stopped filed served,
      )
