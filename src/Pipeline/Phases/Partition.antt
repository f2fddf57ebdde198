-- ===== src/Pipeline/Phases/Partition.antt =====
-- The two phases of a poll as parts of the listed files.
use rdstail.Prelude.{
  ℕ, ◌+◌, ◌≡◌, Bool, true, false, ◌++◌, ◌⊎◌, not, List, [], ◌∷◌, arith, All, keep_if, length, inl,
  inr, Bool-cases,
}
use rdstail.Source.FileMeta.{FileMeta}
use rdstail.Pipeline.Errors.{is_error_log, is_error_running_log}
use rdstail.Pipeline.Phases.{has_realtime, split_error_log_phases}

-- How many of the files a test holds for.
abbrev pub count : (FileMeta → Bool) → List FileMeta → ℕ
count p files = length (keep_if p files)

count-keep_if :
    (p q : FileMeta → Bool) (files : List FileMeta)
    → count p (keep_if (λ f. not (q f)) files) + count p (keep_if q files) ≡ count p files
count-keep_if p q [] = omega arith
count-keep_if p q (f ∷ files) = ground (arith, count-keep_if p q files)

All-keep_if :
    (p : FileMeta → Bool) (files : List FileMeta) → All (λ f. p f ≡ true) (keep_if p files)
All-keep_if p [] = tt
All-keep_if p (f ∷ files) = elim (Bool-cases (p f)) [
  | inl kept ↦ rw kept (kept, All-keep_if p files)
  | inr dropped ↦ rw dropped (All-keep_if p files)
]

-- Every file is in exactly one phase, as often as it is listed; and the second phase has only files
-- of the running error log.
pub split_error_log_phases-count :
    (files : List FileMeta) (p : FileMeta → Bool)
    → (count p (split_error_log_phases files).0 + count p (split_error_log_phases files).1
        ≡ count p files)
      × All (λ f. is_error_running_log f.name ≡ true) (split_error_log_phases files).1
unfolding split_error_log_phases
split_error_log_phases-count files p = elim (Bool-cases (has_realtime files)) [
  | inl realtime ↦
      rw (realtime, split_error_log_phases)
        (
          count-keep_if p (λ f. is_error_running_log f.name) files,
          All-keep_if (λ f. is_error_running_log f.name) files,
        )
  | inr none' ↦ rw (none', split_error_log_phases) (omega arith, tt)
]

has_realtime-none :
    (files : List FileMeta)
    → has_realtime files ≡ false
    → All (λ f. is_error_log f.name ≡ false) files
unfolding has_realtime
has_realtime-none [] h = tt
has_realtime-none (f ∷ files) h = (ground (arith, h), has_realtime-none files (ground (arith, h)))

All-keep_if-not :
    (p : FileMeta → Bool) (files : List FileMeta)
    → All (λ f. p f ≡ false) (keep_if (λ f. not (p f)) files)
All-keep_if-not p [] = tt
All-keep_if-not p (f ∷ files) = elim (Bool-cases (p f)) [
  | inl dropped ↦ rw dropped (All-keep_if-not p files)
  | inr kept ↦ rw kept (kept, All-keep_if-not p files)
]

-- If the real-time error log is listed, the first phase has no file of the running error log.
pub split_error_log_phases-first :
    (files : List FileMeta)
    → All (λ f. is_error_log f.name ≡ false) files
      ⊎ All (λ f. is_error_running_log f.name ≡ false) (split_error_log_phases files).0
unfolding split_error_log_phases
split_error_log_phases-first files = elim (Bool-cases (has_realtime files)) [
  | inl realtime ↦ inr (
      rw (realtime, split_error_log_phases)
        (All-keep_if-not (λ f. is_error_running_log f.name) files))
  | inr none' ↦ inl (has_realtime-none files none')
]

pub count-append :
    (p : FileMeta → Bool) (a b : List FileMeta) → count p (a ++ b) ≡ count p a + count p b
count-append p [] b = omega arith
count-append p (f ∷ a) b = ground (arith, count-append p a b)
