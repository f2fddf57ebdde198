-- ===== src/Pipeline/Scheduler/Convergence.antt =====
-- What a refresh does to the set of workers.
use rdstail.Prelude.{
  ℕ, ◌==◌, ◌≡◌, ◌⊎◌, inl, inr, refl, sym, ap, ◌∙◌, true, Option, none, some, List, [], ◌∷◌, Bytes,
  arith, All, All-map, IsIn, IsIn-cases, first, further, Bool-cases, same, same_iff,
}
use rdstail.State.{Entries, find, put}
use rdstail.State.Table.{find-put, find-put_ne, All-put}
use rdstail.Pipeline.Scheduler.{
  Task, InstanceSpec, spec_key, cancel, stop_unless, stop_departed, wanted_by_key,
}
use rdstail.Pipeline.Scheduler.Tasks.{entries_of}

-- There is an entry for the key.
abbrev pub IsHeld {ℓ} : {V : Type ℓ} → Entries V → Bytes → Type ℓ
IsHeld {V = V} m k = (v : V) × (find m k ≡ some v)

pub put-IsHeld {ℓ} :
    {V : Type ℓ} (m : Entries V) (j : Bytes) (v : V) (k : Bytes) → IsHeld m k → IsHeld (put m j v) k
put-IsHeld m j v k (u, h) = elim (Bool-cases (same j k)) [
  | inl here ↦ (v, ap (λ i. find (put m j v) i) (sym ((same_iff j k).0 here)) ∙ find-put m j v)
  | inr other ↦ (u, find-put_ne m j v k (λ e. ground (arith, other, e, same_iff j k)) ∙ h)
]

pub IsIn-IsHeld {ℓ} : {V : Type ℓ} (m : Entries V) (k : Bytes) (v : V) → IsIn (k, v) m → IsHeld m k
unfolding find
IsIn-IsHeld [] k v h = elim h [ ]
IsIn-IsHeld ((j, u) ∷ m) k v h = elim (Bool-cases (same j k)) [
  | inl here ↦ (u, ground (arith, here))
  | inr other ↦ elim (IsIn-cases h) [
    | inl e ↦ absurd (ground (arith, e, other, same_iff j k))
    | inr later ↦ let (w, f) = IsIn-IsHeld m k v later in (w, ground (arith, other, f))
  ]
]

-- The instance is desired and filed under its key.
abbrev pub IsFiled : List InstanceSpec → Bytes × InstanceSpec → Type 0
IsFiled desired (k, inst) = (k ≡ spec_key inst) × IsIn inst desired

pub wanted_by_key-IsFiled :
    (all insts : List InstanceSpec) (want : Entries InstanceSpec)
    → ((inst : InstanceSpec) → IsIn inst insts → IsIn inst all)
    → All (IsFiled all) want
    → All (IsFiled all) (wanted_by_key insts want)
unfolding wanted_by_key
wanted_by_key-IsFiled all [] want part h = h
wanted_by_key-IsFiled all (inst ∷ insts) want part h =
    wanted_by_key-IsFiled all insts (put want (spec_key inst) inst)
      (λ i later. part i (further later))
      (All-put (IsFiled all) want (spec_key inst) inst h (refl, part inst first))

wanted_by_key-IsHeld_still :
    (insts : List InstanceSpec) (want : Entries InstanceSpec) (k : Bytes)
    → IsHeld want k
    → IsHeld (wanted_by_key insts want) k
unfolding wanted_by_key
wanted_by_key-IsHeld_still [] want k h = h
wanted_by_key-IsHeld_still (inst ∷ insts) want k h =
    wanted_by_key-IsHeld_still insts (put want (spec_key inst) inst) k
      (put-IsHeld want (spec_key inst) inst k h)

pub wanted_by_key-IsHeld :
    (insts : List InstanceSpec) (want : Entries InstanceSpec)
    → All (λ inst. IsHeld (wanted_by_key insts want) (spec_key inst)) insts
unfolding wanted_by_key
wanted_by_key-IsHeld [] want = tt
wanted_by_key-IsHeld (inst ∷ insts) want = (
  wanted_by_key-IsHeld_still insts (put want (spec_key inst) inst) (spec_key inst)
      (inst, find-put want (spec_key inst) inst),
  wanted_by_key-IsHeld insts (put want (spec_key inst) inst),
)

module _ (want : Entries InstanceSpec) where
  -- Wanted, or told to stop.
  abbrev pub IsSettled : Task → Type 0
  IsSettled t = (t.cancelled ≡ true) ⊎ IsHeld want t.key

  -- The same, or its entry is among those that are still to be looked at.
  abbrev pub IsDue : Entries ℕ → Task → Type 0
  IsDue running t = IsSettled t ⊎ IsIn (t.key, t.id) running

  cancel-IsDue :
      (k : Bytes) (id : ℕ) (running : Entries ℕ) (ts : List Task)
      → All (IsDue ((k, id) ∷ running)) ts
      → All (IsDue running) (cancel id ts)
  unfolding cancel
  cancel-IsDue k id running [] h = tt
  cancel-IsDue k id running (t ∷ ts) h = (
    elim (Bool-cases (t.id == id)) [
      | inl here ↦ rw here (inl (inl refl))
      | inr other ↦ rw other (elim h.0 [
        | inl settled ↦ inl settled
        | inr entry ↦ elim (IsIn-cases entry) [
          | inl e ↦ absurd (ground (arith, e, other))
          | inr later ↦ inr later
        ]
      ])
    ],
    cancel-IsDue k id running ts h.1,
  )

  stop_unless-IsDue :
      (o : Option InstanceSpec) (k : Bytes) (id : ℕ) (running : Entries ℕ) (ts : List Task)
      → find want k ≡ o
      → All (IsDue ((k, id) ∷ running)) ts
      → All (IsDue running) (stop_unless o id ts)
  stop_unless-IsDue none k id running ts e h = cancel-IsDue k id running ts h
  stop_unless-IsDue (some inst) k id running ts e h =
      All-map _ _ ts
        (λ t due. elim due [
          | inl settled ↦ inl settled
          | inr entry ↦ elim (IsIn-cases entry) [
            | inl f ↦ inl (inr (inst, ap (λ (x : Bytes × ℕ). find want x.0) (sym f) ∙ e))
            | inr later ↦ inr later
          ]
        ])
        h

  pub stop_departed-IsSettled :
      (running : Entries ℕ) (ts : List Task)
      → All (IsDue running) ts
      → All IsSettled (stop_departed want running ts)
  unfolding stop_departed
  stop_departed-IsSettled [] ts h =
      All-map _ _ ts (λ t due. elim due [ inl settled ↦ settled | inr nowhere ↦ elim nowhere [ ] ])
        h
  stop_departed-IsSettled ((k, id) ∷ running) ts h =
      stop_departed-IsSettled running (stop_unless (find want k) id ts)
        (stop_unless-IsDue (find want k) k id running ts refl h)

pub entries_of-IsIn : (ts : List Task) → All (λ t. IsIn (t.key, t.id) (entries_of ts)) ts
entries_of-IsIn [] = tt
entries_of-IsIn (t ∷ ts) = (first, All-map _ _ ts (λ u h. further h) (entries_of-IsIn ts))
