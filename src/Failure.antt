-- ===== src/Failure.antt =====
-- Go errors, as the list of the causes that `errors.Is` and `errors.As` find in them. `fmt.Errorf`
-- with `%w` keeps the causes, and `errors.Join` appends them.
use rdstail.Prelude.{◌≡◌, ◌⊎◌, inl, inr, refl, Bool, true, false, ◌||◌, List, [], ◌∷◌}

pub data Cause : Type 0 where
  -- context.Canceled and context.DeadlineExceeded
  canceled deadline_exceeded : Cause
  -- *sink.PermanentError
  permanent : Cause
  -- what rds.IsThrottle recognises
  throttle : Cause
  -- rds.ErrRangeUnsupported
  range_unsupported : Cause
  other : Cause

abbrev pub Failure : Type 0
Failure = List Cause

abbrev same_cause : Cause → Cause → Bool
same_cause canceled canceled = true
same_cause deadline_exceeded deadline_exceeded = true
same_cause permanent permanent = true
same_cause throttle throttle = true
same_cause range_unsupported range_unsupported = true
same_cause other other = true
same_cause _ _ = false

-- errors.Is(err, c)
unfoldable pub has_cause : Cause → Failure → Bool
has_cause c [] = false
has_cause c (d ∷ e) = same_cause d c || has_cause c e

pub data Result {ℓ} (A : Type ℓ) : Type ℓ where
  ok : A → Result A
  err : Failure → Result A

infixl 5 ◌>>=◌
abbrev pub ◌>>=◌ {ℓ κ} : {A : Type ℓ} {B : Type κ} → Result A → (A → Result B) → Result B
ok a >>= f = f a
err e >>= f = err e

-- The value, or the given one where there is an error.
abbrev pub value_or {ℓ} : {A : Type ℓ} → A → Result A → A
value_or a (ok b) = b
value_or a (err e) = a

pub Result-cases {ℓ} :
    {A : Type ℓ} (r : Result A) → ((a : A) × (r ≡ ok a)) ⊎ ((e : Failure) × (r ≡ err e))
Result-cases (ok a) = inl (a, refl)
Result-cases (err e) = inr (e, refl)
