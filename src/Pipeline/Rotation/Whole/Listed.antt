-- ===== src/Pipeline/Rotation/Whole/Listed.antt =====
-- Which of the listed files planRotation has drained.
use rdstail.Prelude.{
  ℕ, suc, ◌+◌, ◌≤◌, ◌≡◌, inl, inr, refl, sym, ap, subst, Bool, false, ◌||◌, none, some, List, [],
  ◌∷◌, ◌++◌, ◌≢◌, ◌⊎◌, All, IsIn, first, further, Bytes, map, same, same_iff, arith, if◌then◌else◌,
  Bool-cases, Option-cases, update,
}
use rdstail.Failure.{ok, err, Result-cases}
use rdstail.Source.FileMeta.{FileMeta}
use rdstail.Source.Hour.{HourId, split_rotated}
use rdstail.Pipeline.Phases.Partition.{count, count-append}
use rdstail.Pipeline.Rotation.{
  RotatedFile, Store, Faults, Plan, BaseState, base_state, plan_base, plan_hours, reset_base,
  is_present, rotated_base, add_file, seed_for, is_unfinished, at_marker,
}
use rdstail.Pipeline.Rotation.Whole.{
  ordinary, group, add_base, bases_of, base_meta, no_file, add_files, plan_bases, plan_rotation,
}

abbrev pub metas : List RotatedFile → List FileMeta
metas rs = map (λ (r : RotatedFile). r.meta) rs

-- A plan has no file more often than that.
abbrev Within : (FileMeta → Bool) → Plan → ℕ → Type 0
Within p (ok files, s) n = count p files ≤ n
Within p (err e, s) n = Unit

Within-add_file :
    (p : FileMeta → Bool) (f : FileMeta) (plan : Plan) (n : ℕ)
    → Within p plan n
    → Within p (add_file f plan) (count p (f ∷ []) + n)
Within-add_file p f (ok files, s) n h = ground (arith, h)
Within-add_file p f (err e, s) n h = tt

Within-more :
    (p : FileMeta → Bool) (plan : Plan) (n m : ℕ) → Within p plan n → n ≤ m → Within p plan m
Within-more p (ok files, s) n m h le = omega (arith, h, le)
Within-more p (err e, s) n m h le = tt

plan_hours-Within :
    (p : FileMeta → Bool) (x : Faults) (b : BaseState) (rs : List RotatedFile) (s : Store)
    → Within p (plan_hours x b rs s) (count p (metas rs))
unfolding plan_hours
plan_hours-Within p x b [] s = omega arith
plan_hours-Within p x b (r ∷ rs) s =
    let name = r.meta.name in
    let skipped =
      Within-more p (plan_hours x b rs s) (count p (metas rs)) (count p (metas (r ∷ rs)))
        (plan_hours-Within p x b rs s) (ground arith) in
    let drained = λ (s' : Store) (h : Within p (plan_hours x b rs s') (count p (metas rs))).
      Within-more p (add_file r.meta (plan_hours x b rs s'))
        (count p (r.meta ∷ []) + count p (metas rs)) (count p (metas (r ∷ rs)))
        (Within-add_file p r.meta (plan_hours x b rs s') (count p (metas rs)) h) (ground arith) in
    elim (Bool-cases (x.get_fails name)) [
      | inl fails ↦ rw (fails, Within) tt
      | inr reads ↦ elim (Option-cases (s name)) [
        | inr (c, found) ↦ elim (Bool-cases (is_unfinished c r.meta)) [
          | inl more ↦
              rw (reads, Within)
                (rw (found, Within) (rw (more, Within) (drained s (plan_hours-Within p x b rs s))))
          | inr done ↦ rw (reads, Within) (rw (found, Within) (rw (done, Within) skipped))
        ]
        | inl fresh ↦ elim (Option-cases (seed_for b r.id)) [
          | inl unread ↦ rw (reads, Within) (rw (fresh, Within) (rw (unread, Within) skipped))
          | inr (seed, seeded) ↦ elim (Bool-cases (x.set_fails name)) [
            | inl fails ↦
                rw (reads, Within)
                  (rw (fresh, Within) (rw (seeded, Within) (rw (fails, Within) tt)))
            | inr writes ↦
                let s' = update s name (some (at_marker seed)) in
                rw (reads, Within)
                  (rw (fresh, Within)
                    (rw (seeded, Within)
                      (rw (writes, Within) (drained s' (plan_hours-Within p x b rs s')))))
          ]
        ]
      ]
    ]

reset_base-Within :
    (p : FileMeta → Bool) (x : Faults) (b : BaseState) (base : Bytes) (plan : Plan) (n : ℕ)
    → Within p plan n
    → Within p (reset_base x b base plan) n
reset_base-Within p x b base (err e, s) n h = tt
reset_base-Within p x b base (ok files, s) n h = elim (Bool-cases (b.rotated || b.gap)) [
  | inr kept ↦ rw (kept, Within, reset_base) h
  | inl reset ↦ elim (Bool-cases (x.set_fails base)) [
    | inl fails ↦ rw (reset, Within, reset_base) (rw (fails, Within) tt)
    | inr writes ↦ rw (reset, Within, reset_base) (rw (writes, Within) h)
  ]
]

plan_base-Within :
    (p : FileMeta → Bool) (x : Faults) (base : Bytes) (rs : List RotatedFile) (from_start : Bool)
    (s : Store)
    → Within p (plan_base x base rs from_start s) (count p (metas rs))
unfolding plan_base
plan_base-Within p x base rs from_start s =
    let b = base_state (s base) rs from_start in
    elim (Bool-cases (x.get_fails base)) [
      | inl fails ↦ rw (fails, Within) tt
      | inr reads ↦
          rw (reads, Within)
            (reset_base-Within p x b base (plan_hours x b rs s) (count p (metas rs))
              (plan_hours-Within p x b rs s))
    ]

Within-add_files :
    (p : FileMeta → Bool) (files : List FileMeta) (plan : Plan) (n m : ℕ)
    → count p files ≤ m
    → Within p plan n
    → Within p (add_files files plan) (m + n)
Within-add_files p files (ok more, s) n m le h = omega (arith, le, h, count-append p files more)
Within-add_files p files (err e, s) n m le h = tt

-- How many of the names are that name.
abbrev pub times : Bytes → List Bytes → ℕ
times b [] = 0
times b (c ∷ bases) = if same b c then suc (times b bases) else times b bases

times-add_base_ne :
    (x b : Bytes) (bases : List Bytes)
    → same x b ≡ false
    → times x (add_base b bases) ≡ times x bases
times-add_base_ne x b [] h = rw h refl
times-add_base_ne x b (c ∷ bases) h = ground (arith, h, times-add_base_ne x b bases h)

times-add_base :
    (x b : Bytes) (bases : List Bytes) → times x bases ≤ 1 → times x (add_base b bases) ≤ 1
times-add_base x b [] h = ground arith
times-add_base x b (c ∷ bases) h = elim (Bool-cases (same x b)) [
  | inr other ↦ rw (times-add_base_ne x b (c ∷ bases) other) h
  | inl self ↦
      ground (arith, h, self, same_iff x b, same_iff b c, same_iff x c, times-add_base x b bases)
]

times-bases_of : (x : Bytes) (all files : List FileMeta) → times x (bases_of all files) ≤ 1
unfolding bases_of
times-bases_of x all [] = omega arith
times-bases_of x all (f ∷ files) = elim (Option-cases (rotated_base all f)) [
  | inl plain ↦ rw (plain, times) (times-bases_of x all files)
  | inr ((b, r), rotated) ↦
      rw (rotated, times) (times-add_base x b (bases_of all files) (times-bases_of x all files))
]

meta-rotated_base :
    (all : List FileMeta) (f : FileMeta) (b : Bytes) (r : RotatedFile)
    → rotated_base all f ≡ some (b, r)
    → r.meta ≡ f
unfolding rotated_base
meta-rotated_base all f b r h = ground (arith, h)

module _ (p : FileMeta → Bool) (all : List FileMeta) where
  -- The rotated files of some bases that the test holds for.
  abbrev in_groups : List Bytes → List FileMeta → ℕ
  in_groups [] files = 0
  in_groups (b ∷ bases) files = count p (metas (group b all files)) + in_groups bases files

  in_groups-nil : (bases : List Bytes) → in_groups bases [] ≡ 0
  unfolding group
  in_groups-nil [] = refl
  in_groups-nil (b ∷ bases) = omega (arith, in_groups-nil bases)

  in_groups-ordinary :
      (bases : List Bytes) (f : FileMeta) (files : List FileMeta)
      → rotated_base all f ≡ none
      → in_groups bases (f ∷ files) ≡ in_groups bases files
  unfolding group
  in_groups-ordinary [] f files h = refl
  in_groups-ordinary (b ∷ bases) f files h =
      rw (h, group) (omega (arith, in_groups-ordinary bases f files h))

  in_groups-absent :
      (bases : List Bytes) (f : FileMeta) (files : List FileMeta) (b : Bytes) (r : RotatedFile)
      → rotated_base all f ≡ some (b, r)
      → times b bases ≡ 0
      → in_groups bases (f ∷ files) ≡ in_groups bases files
  unfolding group
  in_groups-absent [] f files b r h e = refl
  in_groups-absent (c ∷ bases) f files b r h e =
      ground (arith, h, e, in_groups-absent bases f files b r h)

  in_groups-rotated :
      (bases : List Bytes) (f : FileMeta) (files : List FileMeta) (b : Bytes) (r : RotatedFile)
      → rotated_base all f ≡ some (b, r)
      → times b bases ≤ 1
      → in_groups bases (f ∷ files) ≤ count p (r.meta ∷ []) + in_groups bases files
  unfolding group
  in_groups-rotated [] f files b r h le = omega arith
  in_groups-rotated (c ∷ bases) f files b r h le = elim (Bool-cases (same b c)) [
    | inl self ↦ ground (arith, h, self, le, in_groups-absent bases f files b r h)
    | inr other ↦ ground (arith, h, other, le, in_groups-rotated bases f files b r h)
  ]

  -- The ordinary files and the groups are apart.
  in_groups-bound :
      (bases : List Bytes)
      → ((b : Bytes) → times b bases ≤ 1)
      → (files : List FileMeta)
      → count p (ordinary all files) + in_groups bases files ≤ count p files
  unfolding ordinary
  in_groups-bound bases once [] = omega (arith, in_groups-nil bases)
  in_groups-bound bases once (f ∷ files) = elim (Option-cases (rotated_base all f)) [
    | inl plain ↦
        ground
          (arith, plain, in_groups-ordinary bases f files plain, in_groups-bound bases once files)
    | inr ((b, r), rotated) ↦
        let same_file = ap (λ g. count p (g ∷ [])) (meta-rotated_base all f b r rotated) in
        ground (
          arith,
          rotated,
          same_file,
          in_groups-rotated bases f files b r rotated (once b),
          in_groups-bound bases once files,
        )
  ]

  module _ (x : Faults) (sort : List RotatedFile → List RotatedFile) (from_start : FileMeta → Bool)
      (sorts : (rs : List RotatedFile) → count p (metas (sort rs)) ≡ count p (metas rs)) where
    plan_bases-Within :
        (bases : List Bytes) (s : Store)
        → Within p (plan_bases x sort from_start all bases s) (in_groups bases all)
    unfolding plan_bases
    plan_bases-Within [] s = omega arith
    plan_bases-Within (b ∷ bases) s =
        let rs = sort (group b all all) in
        let start = from_start (base_meta b (ordinary all all) no_file) in
        let plan = plan_base x b rs start s in
        let within : Within p plan (count p (metas (group b all all))) =
          subst (Within p plan) (sorts (group b all all)) (plan_base-Within p x b rs start s) in
        elim (Result-cases plan.0) [
          | inr (e, bad) ↦ rw (bad, Within, plan_bases) tt
          | inl (files, good) ↦
              rw (good, Within, plan_bases)
                (Within-add_files p files (plan_bases x sort from_start all bases plan.1)
                  (in_groups bases all) (count p (metas (group b all all)))
                  (subst (λ r. Within p (r, plan.1) (count p (metas (group b all all)))) good
                    within)
                  (plan_bases-Within bases plan.1))
        ]

-- The name of a file is not one of a rotated file, or no file is listed that has the name of its base.
abbrev pub IsOrdinary : List FileMeta → FileMeta → Type 0
IsOrdinary files f =
    (split_rotated f.name ≡ none)
    ⊎ ((base : Bytes) × (id : HourId) × (split_rotated f.name ≡ some (base, id))
        × All (λ (g : FileMeta). g.name ≢ base) files)

is_present-absent :
    (name : Bytes) (files : List FileMeta)
    → All (λ (g : FileMeta). g.name ≢ name) files
    → is_present name files ≡ false
unfolding is_present
is_present-absent name [] h = refl
is_present-absent name (g ∷ files) h =
    ground (arith, h.0, same_iff g.name name, is_present-absent name files h.1)

rotated_base-IsOrdinary :
    (files : List FileMeta) (f : FileMeta) → IsOrdinary files f → rotated_base files f ≡ none
unfolding rotated_base
rotated_base-IsOrdinary files f (inl plain) = rw (plain, rotated_base) refl
rotated_base-IsOrdinary files f (inr (base, id, rotated, absent)) =
    rw (rotated, rotated_base, is_present-absent base files absent) refl

IsIn-ordinary :
    (all files : List FileMeta) (f : FileMeta)
    → rotated_base all f ≡ none
    → IsIn f files
    → IsIn f (ordinary all files)
unfolding ordinary
IsIn-ordinary all [] f plain here = elim here [ ]
IsIn-ordinary all (_ ∷ files) f plain first = rw (plain, ordinary) first
IsIn-ordinary all (g ∷ files) f plain (further later) =
    let rest = IsIn-ordinary all files f plain later in
    elim (Option-cases (rotated_base all g)) [
      | inl kept ↦ rw (kept, ordinary) (further rest)
      | inr (r, left) ↦ rw (left, ordinary) rest
    ]

IsIn-append : (f : FileMeta) (a b : List FileMeta) → IsIn f a → IsIn f (a ++ b)
IsIn-append f [] b here = elim here [ ]
IsIn-append f (_ ∷ a) b first = first
IsIn-append f (g ∷ a) b (further later) = further (IsIn-append f a b later)

-- Where planRotation returns files to drain, sorting keeps the files and each base is visited once: no
-- test holds for more of the returned files than of the listed ones, so that no file is drained twice
-- that is listed once; and a listed file is among them if its name is not that of a rotated file, or no
-- file with the name of its base is listed.
pub plan_rotation-count :
    (x : Faults) (sort : List RotatedFile → List RotatedFile) (from_start : FileMeta → Bool)
    (order : List Bytes → List Bytes) (files out : List FileMeta) (s s' : Store)
    (p : FileMeta → Bool) (f : FileMeta)
    → ((rs : List RotatedFile) → count p (metas (sort rs)) ≡ count p (metas rs))
    → ((b : Bytes) (bases : List Bytes) → times b (order bases) ≡ times b bases)
    → plan_rotation x sort from_start order files s ≡ (ok out, s')
    → IsIn f files
    → IsOrdinary files f
    → (count p out ≤ count p files) × IsIn f out
unfolding plan_rotation
plan_rotation-count x sort from_start order files out s s' p f sorts orders h listed plain =
    let bases = order (bases_of files files) in
    let plan = plan_bases x sort from_start files bases s in
    let once = λ (b : Bytes).
      subst (λ n. n ≤ 1) (sym (orders b (bases_of files files))) (times-bases_of b files files) in
    let within : Within p plan (in_groups p files bases files) =
      plan_bases-Within p files x sort from_start sorts bases s in
    elim (Result-cases plan.0) [
      | inr (e, bad) ↦ absurd (ground (arith, bad, h))
      | inl (more, good) ↦
          let out_is : ordinary files files ++ more ≡ out = ground (arith, good, h) in
          let some_more : count p more ≤ in_groups p files bases files =
            subst (λ r. Within p (r, plan.1) (in_groups p files bases files)) good within in
          let total = count-append p (ordinary files files) more in
          (
            omega (
              arith,
              ap (count p) out_is,
              total,
              some_more,
              in_groups-bound p files bases once files,
            ),
            subst (IsIn f) out_is (
                IsIn-append f (ordinary files files) more
                  (IsIn-ordinary files files f (rotated_base-IsOrdinary files f plain) listed)),
          )
    ]
