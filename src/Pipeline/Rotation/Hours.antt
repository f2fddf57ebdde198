-- ===== src/Pipeline/Rotation/Hours.antt =====
-- The loop of planRotation over the rotated files of one base.
use rdstail.Prelude.{
  ◌≡◌, ◌≢◌, ◌∙◌, inl, inr, refl, sym, ap, false, Option, none, some, List, [], ◌∷◌, ◌++◌, Bytes,
  Bool-cases, Option-cases, update, update_self, update_ne, All,
}
use rdstail.Record.{Checkpoint}
use rdstail.Failure.{ok, err}
use rdstail.Source.FileMeta.{FileMeta}
use rdstail.Pipeline.Rotation.{
  RotatedFile, Store, Faults, at_marker, BaseState, seed_for, is_unfinished, plan_hours, Plan,
  add_file,
}

-- The store answers.
abbrev pub no_faults : Faults
no_faults = record { get_fails = λ f. false; set_fails = λ f. false }

-- What becomes of a rotated file's checkpoint: its own stays; without one it is seeded, or left out.
abbrev pub planned : BaseState → Store → RotatedFile → Option Checkpoint
planned b s r = elim (s r.meta.name) [
  | some c ↦ some c
  | none ↦ elim (seed_for b r.id) [ none ↦ none | some seed ↦ some (at_marker seed) ]
]

-- Names that a list of rotated files does not have.
abbrev pub IsFresh : Bytes → List RotatedFile → Type 0
IsFresh name rs = All (λ (r : RotatedFile). r.meta.name ≢ name) rs

abbrev pub AreDistinct : List RotatedFile → Type 0
AreDistinct [] = Unit
AreDistinct (r ∷ rs) = IsFresh r.meta.name rs × AreDistinct rs

-- The store after a rotated file was looked at.
abbrev handed_over : BaseState → Store → RotatedFile → Store
handed_over b s r = elim (s r.meta.name) [
  | some c ↦ s
  | none ↦ elim (seed_for b r.id) [
    | none ↦ s
    | some seed ↦ update s r.meta.name (some (at_marker seed))
  ]
]

store-add_file : (f : FileMeta) (p : Plan) → (add_file f p).1 ≡ p.1
store-add_file f (ok files, s) = refl
store-add_file f (err e, s) = refl

files-add_file :
    (f : FileMeta) (p : Plan)
    → ((files : List FileMeta) × (p.0 ≡ ok files))
    → (files : List FileMeta) × ((add_file f p).0 ≡ ok files)
files-add_file f (ok files, s) h = (f ∷ files, refl)
files-add_file f (err e, s) (files, h) = (files, h)

store-plan_hours :
    (b : BaseState) (r : RotatedFile) (rs : List RotatedFile) (s : Store)
    → (plan_hours no_faults b (r ∷ rs) s).1 ≡ (plan_hours no_faults b rs (handed_over b s r)).1
unfolding plan_hours
store-plan_hours b r rs s = elim (Option-cases (s r.meta.name)) [
  | inl e ↦ elim (Option-cases (seed_for b r.id)) [
    | inl e' ↦ rw (e, e', handed_over) refl
    | inr (seed, e') ↦
        rw (e, e', handed_over)
          (store-add_file r.meta
            (plan_hours no_faults b rs (update s r.meta.name (some (at_marker seed)))))
  ]
  | inr (c, e) ↦ elim (Bool-cases (is_unfinished c r.meta)) [
    | inl e' ↦ rw (e, e', handed_over) (store-add_file r.meta (plan_hours no_faults b rs s))
    | inr e' ↦ rw (e, e', handed_over) refl
  ]
]

handed_over_ne :
    (b : BaseState) (s : Store) (r : RotatedFile) (name : Bytes)
    → r.meta.name ≢ name
    → handed_over b s r name ≡ s name
handed_over_ne b s r name h = elim (Option-cases (s r.meta.name)) [
  | inl e ↦ elim (Option-cases (seed_for b r.id)) [
    | inl e' ↦ rw (e, e', handed_over) refl
    | inr (seed, e') ↦
        rw (e, e', handed_over) (update_ne s r.meta.name (some (at_marker seed)) name h)
  ]
  | inr (c, e) ↦ rw (e, handed_over) refl
]

handed_over_self :
    (b : BaseState) (s : Store) (r : RotatedFile) → handed_over b s r r.meta.name ≡ planned b s r
handed_over_self b s r = elim (Option-cases (s r.meta.name)) [
  | inl e ↦ elim (Option-cases (seed_for b r.id)) [
    | inl e' ↦ rw (e, e', handed_over, planned) e
    | inr (seed, e') ↦
        rw (e, e', handed_over, planned) (update_self s r.meta.name (some (at_marker seed)))
  ]
  | inr (c, e) ↦ rw (e, handed_over, planned) e
]

-- Files that are not among the rotated ones keep their checkpoints.
pub plan_hours-fresh :
    (b : BaseState) (rs : List RotatedFile) (s : Store) (name : Bytes)
    → IsFresh name rs
    → (plan_hours no_faults b rs s).1 name ≡ s name
unfolding plan_hours
plan_hours-fresh b [] s name h = refl
plan_hours-fresh b (r ∷ rs) s name (h, hs) =
    ap (λ (t : Store). t name) (store-plan_hours b r rs s)
    ∙ plan_hours-fresh b rs (handed_over b s r) name hs
    ∙ handed_over_ne b s r name h

planned-handed_over :
    (b : BaseState) (s : Store) (r r' : RotatedFile)
    → r.meta.name ≢ r'.meta.name
    → planned b (handed_over b s r) r' ≡ planned b s r'
planned-handed_over b s r r' h = rw (handed_over_ne b s r r'.meta.name h, planned) refl

pub fresh-at :
    (name : Bytes) (pre : List RotatedFile) (r : RotatedFile) (post : List RotatedFile)
    → IsFresh name (pre ++ r ∷ post)
    → r.meta.name ≢ name
fresh-at name [] r post (h, hs) = h
fresh-at name (p ∷ pre) r post (h, hs) = fresh-at name pre r post hs

pub plan_hours-planned :
    (b : BaseState) (pre : List RotatedFile) (r : RotatedFile) (post : List RotatedFile) (s : Store)
    → AreDistinct (pre ++ r ∷ post)
    → (plan_hours no_faults b (pre ++ r ∷ post) s).1 r.meta.name ≡ planned b s r
plan_hours-planned b [] r post s (h, hs) =
    ap (λ (t : Store). t r.meta.name) (store-plan_hours b r post s)
    ∙ plan_hours-fresh b post (handed_over b s r) r.meta.name h
    ∙ handed_over_self b s r
plan_hours-planned b (p ∷ pre) r post s (h, hs) =
    ap (λ (t : Store). t r.meta.name) (store-plan_hours b p (pre ++ r ∷ post) s)
    ∙ plan_hours-planned b pre r post (handed_over b s p) hs
    ∙ planned-handed_over b s p r (λ e. fresh-at p.meta.name pre r post h (sym e))

-- Without faults a plan is made.
pub files-plan_hours :
    (b : BaseState) (rs : List RotatedFile) (s : Store)
    → (files : List FileMeta) × ((plan_hours no_faults b rs s).0 ≡ ok files)
unfolding plan_hours
files-plan_hours b [] s = ([], refl)
files-plan_hours b (r ∷ rs) s = elim (Option-cases (s r.meta.name)) [
  | inl e ↦ elim (Option-cases (seed_for b r.id)) [
    | inl e' ↦ rw (e, e') (files-plan_hours b rs s)
    | inr (seed, e') ↦
        rw (e, e')
          (files-add_file r.meta
            (plan_hours no_faults b rs (update s r.meta.name (some (at_marker seed))))
            (files-plan_hours b rs (update s r.meta.name (some (at_marker seed)))))
  ]
  | inr (c, e) ↦ elim (Bool-cases (is_unfinished c r.meta)) [
    | inl e' ↦
        rw (e, e') (files-add_file r.meta (plan_hours no_faults b rs s) (files-plan_hours b rs s))
    | inr e' ↦ rw (e, e') (files-plan_hours b rs s)
  ]
]
