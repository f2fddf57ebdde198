-- ===== src/Pipeline/Rotation/HandOver.antt =====
-- The checkpoints that planRotation leaves for a base file and its rotated files.
use rdstail.Prelude.{
  ℕ, ◌≡◌, ◌≢◌, ◌⊎◌, ◌&&◌, not, IsIn, first, further, inl, inr, ◌∙◌, refl, sym, ap, Bool, true,
  false, ◌||◌, Option, none, some, List, [], ◌∷◌, ◌++◌, Bytes, arith, Bool-cases, update_self,
  update_ne, if◌then◌else◌,
}
use rdstail.Record.{Checkpoint}
use rdstail.Failure.{ok, err}
use rdstail.Source.FileMeta.{FileMeta}
use Prim.Native.Nat.{Ordering}
use rdstail.Source.Hour.{HourId, same_hour, compare_hour, parse_hour_marker}
use rdstail.Source.Hour.Order.{compare_hour-eq_iff}
use rdstail.Source.Marker.{marker_beginning}
use rdstail.Pipeline.Rotation.{
  RotatedFile, Store, at_marker, BaseState, base_state, seed_for, plan_base, plan_hours, reset_base,
  has_hour, before_last, is_before, Plan, base_with_hour,
}
use rdstail.Pipeline.Rotation.Hours.{
  no_faults, IsFresh, AreDistinct, planned, plan_hours-planned, plan_hours-fresh, files-plan_hours,
  fresh-at,
}

-- The base's checkpoint after a plan.
abbrev pub base_after : BaseState → Store → Bytes → Option Checkpoint
base_after b s base = if b.rotated || b.gap then some (at_marker marker_beginning) else s base

reset_base-other :
    (b : BaseState) (base : Bytes) (p : Plan) (files : List FileMeta) (name : Bytes)
    → p.0 ≡ ok files
    → base ≢ name
    → (reset_base no_faults b base p).1 name ≡ p.1 name
reset_base-other b base (ok fs, s) files name e h = elim (Bool-cases (b.rotated || b.gap)) [
  | inl t ↦ rw (t, reset_base) (update_ne s base (some (at_marker marker_beginning)) name h)
  | inr t ↦ rw (t, reset_base) refl
]
reset_base-other b base (err x, s) files name e h = refl

reset_base_self :
    (b : BaseState) (base : Bytes) (p : Plan) (files : List FileMeta)
    → p.0 ≡ ok files
    → (reset_base no_faults b base p).1 base ≡ base_after b p.1 base
reset_base_self b base (ok fs, s) files e = elim (Bool-cases (b.rotated || b.gap)) [
  | inl t ↦ rw (t, reset_base) (update_self s base (some (at_marker marker_beginning)))
  | inr t ↦ rw (t, reset_base) refl
]
reset_base_self b base (err x, s) files e = absurd (ground (arith, e))

-- A plan leaves every rotated file what it had or is seeded with, and the base file its checkpoint
-- unless it is reset.
pub plan_base-planned :
    (base : Bytes) (pre : List RotatedFile) (r : RotatedFile) (post : List RotatedFile)
    → (from_start : Bool) (s : Store) → AreDistinct (pre ++ r ∷ post)
    → IsFresh base (pre ++ r ∷ post)
    → let rs = pre ++ r ∷ post in
      let b = base_state (s base) rs from_start in
      let after = (plan_base no_faults base rs from_start s).1 in
      (after r.meta.name ≡ planned b s r) × (after base ≡ base_after b s base)
unfolding plan_base
plan_base-planned base pre r post from_start s d h =
    let rs = pre ++ r ∷ post in
    let b = base_state (s base) rs from_start in
    let plan = plan_hours no_faults b rs s in
    let (files, planned_ok) = files-plan_hours b rs s in
    (
      reset_base-other b base plan files r.meta.name planned_ok
            (λ e. fresh-at base pre r post h (sym e))
          ∙ plan_hours-planned b pre r post s d,
      reset_base_self b base plan files planned_ok
          ∙ ap (λ o. if b.rotated || b.gap then some (at_marker marker_beginning) else o)
              (plan_hours-fresh b rs s base h),
    )

or_true : (t : Bool) → (t || true) ≡ true
or_true true = refl
or_true false = refl

-- The base's hour is known.
base_state-known :
    (c : Checkpoint) (rs : List RotatedFile) (from_start : Bool) (hour : HourId) (off : ℕ)
    → parse_hour_marker c.marker ≡ some (hour, off)
    → base_state (some c) rs from_start ≡ base_with_hour c.marker rs from_start (some hour)
unfolding base_state
base_state-known c rs from_start hour off m = rw m refl

-- The hour was rotated out, or purged: a later hour was rotated out last.
abbrev pub IsOver : HourId → List RotatedFile → Type 0
IsOver hour rs =
    ((r : RotatedFile) × IsIn r rs × (r.id ≡ hour))
    ⊎ ((front : List RotatedFile) × (r : RotatedFile) × (rs ≡ front ++ r ∷ [])
        × (compare_hour hour r.id ≡ Ordering.lt))

-- What a rotated file with no checkpoint is left, by how its hour stands to the hour of the base's
-- checkpoint `c`: of an earlier hour nothing, of that hour the base's place, of a later one its
-- beginning.
abbrev pub left_for : Checkpoint → Ordering → Option Checkpoint
left_for c Ordering.lt = none
left_for c Ordering.eq = some (at_marker c.marker)
left_for c Ordering.gt = some (at_marker marker_beginning)

has_hour-IsIn :
    (hour : HourId) (rs : List RotatedFile) (r : RotatedFile)
    → IsIn r rs
    → r.id ≡ hour
    → has_hour hour rs ≡ true
unfolding has_hour
has_hour-IsIn hour [] r here e = elim here [ ]
has_hour-IsIn hour (_ ∷ rs) r first e = rw ((compare_hour-eq_iff r.id hour).1.1 e) refl
has_hour-IsIn hour (p ∷ rs) r (further later) e =
    rw (has_hour-IsIn hour rs r later e) (or_true (same_hour p.id hour))

is_before-lt : (a b : HourId) → compare_hour a b ≡ Ordering.lt → is_before a b ≡ true
is_before-lt a b h =
    ap (λ (o : Ordering). elim o as (λ p. Bool) [ Ordering.lt ↦ true | _ ↦ false ]) h

before_last-append :
    (hour : HourId) (front : List RotatedFile) (r : RotatedFile)
    → compare_hour hour r.id ≡ Ordering.lt
    → before_last hour (front ++ r ∷ []) ≡ true
unfolding before_last
before_last-append hour [] r h = is_before-lt hour r.id h
before_last-append hour (p ∷ []) r h = is_before-lt hour r.id h
before_last-append hour (p ∷ q ∷ front) r h = before_last-append hour (q ∷ front) r h

IsOver-lost :
    (hour : HourId) (rs : List RotatedFile)
    → IsOver hour rs
    → (has_hour hour rs || (not (has_hour hour rs) && before_last hour rs)) ≡ true
IsOver-lost hour rs (inl (r, here, e)) = rw (has_hour-IsIn hour rs r here e) refl
IsOver-lost hour rs (inr (front, r, e, h)) =
    let last_is = ap (before_last hour) e ∙ before_last-append hour front r h in
    elim (Bool-cases (has_hour hour rs)) [
      | inl there ↦ rw there refl
      | inr absent ↦ rw (absent, last_is) refl
    ]

Ordering-cases : (o : Ordering) → (o ≡ Ordering.lt) ⊎ ((o ≡ Ordering.eq) ⊎ (o ≡ Ordering.gt))
Ordering-cases Ordering.lt = inl refl
Ordering-cases Ordering.eq = inr (inl refl)
Ordering-cases Ordering.gt = inr (inr refl)

not_same_hour : (a b : HourId) → compare_hour a b ≢ Ordering.eq → same_hour a b ≡ false
not_same_hour a b differs = elim (Bool-cases (same_hour a b)) [
  | inr other ↦ other
  | inl equal ↦ let iff = compare_hour-eq_iff a b in absurd (differs (iff.0.1 (iff.1.0 equal)))
]

-- What a lost base seeds.
seed_for-left :
    (c : Checkpoint) (rs : List RotatedFile) (from_start : Bool) (hour id : HourId)
    → IsOver hour rs
    → (elim (seed_for (base_with_hour c.marker rs from_start (some hour)) id) [
      | none ↦ none
      | some seed ↦ some (at_marker seed)
    ])
      ≡ left_for c (compare_hour id hour)
unfolding seed_for
seed_for-left c rs from_start hour id over =
    let iff = compare_hour-eq_iff id hour in
    elim (Ordering-cases (compare_hour id hour)) [
      | inl earlier ↦
          let other = not_same_hour id hour (λ e. absurd (ground (arith, earlier, e))) in
          rw (other, seed_for, earlier) refl
      | inr (inl equal) ↦
          let same_one = iff.1.1 (iff.0.0 equal) in rw (same_one, seed_for, equal) refl
      | inr (inr later) ↦
          let other = not_same_hour id hour (λ e. absurd (ground (arith, later, e))) in
          rw (other, seed_for, later) (rw (IsOver-lost hour rs over) refl)
    ]

-- When the store answers, the names are distinct, and the base file's checkpoint points into an hour
-- that was rotated out or purged, a plan leaves a rotated file without a checkpoint: none if its hour is
-- earlier than that, one with the base's marker if it is that hour, and one at the beginning if it is
-- later; and it leaves the base file one at the beginning.
pub plan_base-left_for :
    (base : Bytes) (pre : List RotatedFile) (r : RotatedFile) (post : List RotatedFile)
    → (from_start : Bool) (s : Store) (c : Checkpoint) (hour : HourId) (off : ℕ)
    → AreDistinct (pre ++ r ∷ post)
    → IsFresh base (pre ++ r ∷ post)
    → s base ≡ some c
    → parse_hour_marker c.marker ≡ some (hour, off)
    → IsOver hour (pre ++ r ∷ post)
    → s r.meta.name ≡ none
    → let after = (plan_base no_faults base (pre ++ r ∷ post) from_start s).1 in
      (after r.meta.name ≡ left_for c (compare_hour r.id hour))
      × (after base ≡ some (at_marker marker_beginning))
plan_base-left_for base pre r post from_start s c hour off d h e m over n =
    let rs = pre ++ r ∷ post in
    let (there, here) = plan_base-planned base pre r post from_start s d h in
    let known =
      ap (λ o. base_state o rs from_start) e ∙ base_state-known c rs from_start hour off m in
    let seeded =
      ap (λ b. planned b s r) known
      ∙ rw (n, planned) (seed_for-left c rs from_start hour r.id over) in
    let reset = ap (λ b. b.rotated || b.gap) known ∙ IsOver-lost hour rs over in
    (there ∙ seeded, here ∙ rw (reset, base_after) refl)
