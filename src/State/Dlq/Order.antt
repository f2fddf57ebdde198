-- ===== src/State/Dlq/Order.antt =====
-- The identifiers of the dead-letter table.
use rdstail.Prelude.{
  ℕ, ◌+◌, ◌<◌, ◌≤◌, ◌==◌, ◌≡◌, refl, Bool, true, false, not, none, List, [], ◌∷◌, ◌++◌, Bytes,
  arith, keep_if, if◌then◌else◌, All, All-append, All-map, All-keep_if, subst, ◌⊎◌, inl, inr, sym,
  ap, ◌∙◌, IsIn, IsIn-cases, All-at, All-IsIn,
}
use rdstail.Record.{Time}
use rdstail.Failure.{ok, value_or}
use rdstail.State.Dlq.{
  DlqRow, Dlq, order_by_id, insert_by_id, dlq_put, dlq_delete, dlq_purge, is_of_sink,
}

-- The identifiers ascend, from above `low`.
abbrev pub IsAscending : ℕ → List DlqRow → Type 0
IsAscending low [] = Unit
IsAscending low (r ∷ rs) = (low < r.id) × IsAscending r.id rs

-- Rows in the order of positive identifiers, none above the last one that was given.
abbrev pub IsNumbered : Dlq → Type 0
IsNumbered d = IsAscending 0 d.rows × All (λ r. r.id ≤ d.last_id) d.rows

pub IsAscending-weaken :
    (low high : ℕ) (rs : List DlqRow) → low ≤ high → IsAscending high rs → IsAscending low rs
IsAscending-weaken low high [] h a = a
IsAscending-weaken low high (r ∷ rs) h a = (omega (arith, h, a.0), a.1)

pub IsAscending-keep_if :
    (p : DlqRow → Bool) (low : ℕ) (rs : List DlqRow)
    → IsAscending low rs
    → IsAscending low (keep_if p rs)
IsAscending-keep_if p low [] a = a
IsAscending-keep_if p low (r ∷ rs) a =
    elim (p r) as (λ b. IsAscending low (if b then r ∷ keep_if p rs else keep_if p rs)) [
      | true ↦ (a.0, IsAscending-keep_if p r.id rs a.1)
      | false ↦
          IsAscending-keep_if p low rs (IsAscending-weaken low r.id rs (omega (arith, a.0)) a.1)
    ]

insert_by_id-first :
    (r : DlqRow) (rs : List DlqRow) → IsAscending r.id rs → insert_by_id r rs ≡ r ∷ rs
unfolding insert_by_id
insert_by_id-first r [] a = refl
insert_by_id-first r (s ∷ ss) a = ground (arith, a)

-- ORDER BY id leaves rows that ascend as they are.
pub order_by_id-IsAscending :
    (low : ℕ) (rs : List DlqRow) → IsAscending low rs → order_by_id rs ≡ rs
unfolding order_by_id
order_by_id-IsAscending low [] a = refl
order_by_id-IsAscending low (r ∷ rs) a =
    rw (order_by_id-IsAscending r.id rs a.1) (insert_by_id-first r rs a.1)

IsAscending-append :
    (low : ℕ) (rs : List DlqRow) (new : DlqRow)
    → IsAscending low rs
    → All (λ r. r.id < new.id) rs
    → low < new.id
    → IsAscending low (rs ++ new ∷ [])
IsAscending-append low [] new a below h = (h, tt)
IsAscending-append low (r ∷ rs) new a below h =
    (a.0, IsAscending-append r.id rs new a.1 below.1 below.0)

-- A call of the store that changed the table, as other processes see it.
pub data DlqStep : Dlq → Dlq → Type 0 where
  putting :
      (now : Time) (sink_name batch_id payload reason : Bytes) {d d' : Dlq}
      → dlq_put none now d sink_name batch_id payload reason ≡ ok d'
      → DlqStep d d'
  deleting : (id : ℕ) {d d' : Dlq} → dlq_delete none d id ≡ ok d' → DlqStep d d'
  purging :
      (sink_name : Bytes) (n : ℕ) {d d' : Dlq}
      → dlq_purge none d sink_name ≡ ok (n, d')
      → DlqStep d d'

pub data DlqSteps (d : Dlq) : Dlq → Type 0 where
  stay : DlqSteps d d
  go_on : {e f : Dlq} → DlqSteps d e → DlqStep e f → DlqSteps d f

abbrev pub empty_dlq : Dlq
empty_dlq = record { rows = []; last_id = 0 }

pub IsNumbered-keep_if :
    (d : Dlq) (p : DlqRow → Bool) → IsNumbered d → IsNumbered (record d { rows = keep_if p d.rows })
IsNumbered-keep_if d p h =
    (IsAscending-keep_if p 0 d.rows h.0, All-keep_if (λ r. r.id ≤ d.last_id) p d.rows h.1)

IsNumbered-append :
    (d : Dlq) (new : DlqRow)
    → new.id ≡ d.last_id + 1
    → IsNumbered d
    → IsNumbered (record { rows = d.rows ++ new ∷ []; last_id = d.last_id + 1 })
IsNumbered-append d new e h = (
  IsAscending-append 0 d.rows new h.0
      (All-map (λ r. r.id ≤ d.last_id) (λ r. r.id < new.id) d.rows (λ r a. omega (arith, a, e)) h.1)
      (omega (arith, e)),
  All-append (λ r. r.id ≤ d.last_id + 1) d.rows (new ∷ [])
      (All-map (λ r. r.id ≤ d.last_id) (λ r. r.id ≤ d.last_id + 1) d.rows (λ r a. omega (arith, a))
        h.1)
      (omega (arith, e), tt),
)

DlqStep-IsNumbered : {d d' : Dlq} → DlqStep d d' → IsNumbered d → IsNumbered d'
unfolding dlq_put dlq_delete dlq_purge
DlqStep-IsNumbered (putting now s b p r {d} e) h =
    subst (λ x. IsNumbered (value_or d x)) e (IsNumbered-append d _ refl h)
DlqStep-IsNumbered (deleting id {d} e) h =
    subst (λ x. IsNumbered (value_or d x)) e (IsNumbered-keep_if d (λ r. not (r.id == id)) h)
DlqStep-IsNumbered (purging s n {d} e) h =
    subst (λ x. IsNumbered (value_or {A = ℕ × Dlq} (0, d) x).1) e
      (IsNumbered-keep_if d (λ r. not (is_of_sink s r)) h)

-- In a table that any calls of DLQPut, DLQDelete and DLQPurge made of the empty one, identifiers are
-- positive and ascend, and none is above the last one given.
pub DlqSteps-IsNumbered : {d : Dlq} → DlqSteps empty_dlq d → IsNumbered d
DlqSteps-IsNumbered stay = (tt, tt)
DlqSteps-IsNumbered (go_on steps step) = DlqStep-IsNumbered step (DlqSteps-IsNumbered steps)

-- Each row stood in the table before, or has a number that was not given before.
abbrev IsLater : Dlq → Dlq → Type 0
IsLater d e = (d.last_id ≤ e.last_id) × All (λ r. IsIn r d.rows ⊎ (d.last_id < r.id)) e.rows

IsLater-refl : (d : Dlq) → IsLater d d
IsLater-refl d = (omega arith, All-IsIn _ d.rows (λ r here. inl here))

IsLater-keep_if :
    (d e : Dlq) (p : DlqRow → Bool) → IsLater d e → IsLater d (record e { rows = keep_if p e.rows })
IsLater-keep_if d e p h = (h.0, All-keep_if _ p e.rows h.1)

IsLater-append :
    (d e : Dlq) (new : DlqRow)
    → new.id ≡ e.last_id + 1
    → IsLater d e
    → IsLater d (record { rows = e.rows ++ new ∷ []; last_id = e.last_id + 1 })
IsLater-append d e new n h =
    (omega (arith, h.0), All-append _ e.rows (new ∷ []) h.1 (inr (omega (arith, n, h.0)), tt))

DlqStep-IsLater : (d : Dlq) {e f : Dlq} → DlqStep e f → IsLater d e → IsLater d f
unfolding dlq_put dlq_delete dlq_purge
DlqStep-IsLater d (putting now s b p r {d = e} answer) h =
    subst (λ x. IsLater d (value_or e x)) answer (IsLater-append d e _ refl h)
DlqStep-IsLater d (deleting id {d = e} answer) h =
    subst (λ x. IsLater d (value_or e x)) answer (IsLater-keep_if d e (λ r. not (r.id == id)) h)
DlqStep-IsLater d (purging s n {d = e} answer) h =
    subst (λ x. IsLater d (value_or {A = ℕ × Dlq} (0, e) x).1) answer
      (IsLater-keep_if d e (λ r. not (is_of_sink s r)) h)

DlqSteps-IsLater : {d e : Dlq} → DlqSteps d e → IsLater d e
DlqSteps-IsLater {d} stay = IsLater-refl d
DlqSteps-IsLater {d} (go_on steps step) = DlqStep-IsLater d step (DlqSteps-IsLater steps)

IsAscending-above :
    (low : ℕ) (rs : List DlqRow) (r : DlqRow) → IsAscending low rs → IsIn r rs → low < r.id
IsAscending-above low [] r a h = elim h [ ]
IsAscending-above low (x ∷ rs) r a h = elim (IsIn-cases h) [
  | inl e ↦ subst (λ y. low < y.id) e a.0
  | inr later ↦ omega (arith, a.0, IsAscending-above x.id rs r a.1 later)
]

-- Of rows that ascend, one number is one row.
IsAscending-unique :
    (low : ℕ) (rs : List DlqRow) (r r' : DlqRow)
    → IsAscending low rs
    → IsIn r rs
    → IsIn r' rs
    → r.id ≡ r'.id
    → r ≡ r'
IsAscending-unique low [] r r' a h h' e = elim h [ ]
IsAscending-unique low (x ∷ rs) r r' a h h' e = elim (IsIn-cases h) [
  | inl here ↦ elim (IsIn-cases h') [
    | inl here' ↦ sym here ∙ here'
    | inr later' ↦
        absurd (
          omega (arith, e, ap (λ (y : DlqRow). y.id) here, IsAscending-above x.id rs r' a.1 later'))
  ]
  | inr later ↦ elim (IsIn-cases h') [
    | inl here' ↦
        absurd
          (omega (arith, e, ap (λ (y : DlqRow). y.id) here', IsAscending-above x.id rs r a.1 later))
    | inr later' ↦ IsAscending-unique x.id rs r r' a.1 later later' e
  ]
]

-- No identifier is given twice. In a table that any calls of DLQPut, DLQDelete and DLQPurge made of
-- the empty one, and in the one that any further calls make of it: a row of the later table that has
-- the identifier of a row of the earlier one is that row, also when rows were deleted in between.
pub DlqSteps-given_once :
    {d e : Dlq} (r r' : DlqRow)
    → DlqSteps empty_dlq d
    → DlqSteps d e
    → IsIn r d.rows
    → IsIn r' e.rows
    → r.id ≡ r'.id
    → r ≡ r'
DlqSteps-given_once {d} {e} r r' made further_steps here there one =
    let (ascending, below) = DlqSteps-IsNumbered made in
    elim (All-at _ r' e.rows (DlqSteps-IsLater further_steps).1 there) [
      | inl old ↦ IsAscending-unique 0 d.rows r r' ascending here old one
      | inr new ↦ absurd (omega (arith, one, new, All-at _ r d.rows below here))
    ]
