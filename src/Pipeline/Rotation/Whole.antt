-- ===== src/Pipeline/Rotation/Whole.antt =====
-- planRotation over all the files of an instance. In what order Go ranges over the map of base files,
-- and how sort.Slice places rotated files of one hour, are arguments.
pub mod Listed
use rdstail.Prelude.{
  ℕ, Bool, true, false, Option, none, some, List, [], ◌∷◌, ◌++◌, Bytes, same, if◌then◌else◌,
}
use rdstail.Record.{Checkpoint}
use rdstail.Failure.{Failure, Result, ok, err}
use rdstail.Source.FileMeta.{FileMeta}
use rdstail.Pipeline.Rotation.{RotatedFile, Store, Faults, Plan, plan_base, rotated_base}

-- The files that go to out at once, from those of `all` that are left.
unfoldable pub ordinary : List FileMeta → List FileMeta → List FileMeta
ordinary all [] = []
ordinary all (f ∷ files) = elim (rotated_base all f) [
  | none ↦ f ∷ ordinary all files
  | some r ↦ ordinary all files
]

-- byBase[base]
unfoldable pub group : Bytes → List FileMeta → List FileMeta → List RotatedFile
unfolding same
group base all [] = []
group base all (f ∷ files) =
    let rest = group base all files in
    elim (rotated_base all f) [ none ↦ rest | some (b, r) ↦ if same b base then r ∷ rest else rest ]

abbrev pub add_base : Bytes → List Bytes → List Bytes
add_base b [] = b ∷ []
add_base b (c ∷ bases) = if same b c then c ∷ bases else c ∷ add_base b bases

-- The keys of byBase, each once.
unfoldable pub bases_of : List FileMeta → List FileMeta → List Bytes
bases_of all [] = []
bases_of all (f ∷ files) = elim (rotated_base all f) [
  | none ↦ bases_of all files
  | some (b, r) ↦ add_base b (bases_of all files)
]

-- baseMeta[base]: the last ordinary file of that name, or rdssrc.FileMeta{}
unfoldable pub base_meta : Bytes → List FileMeta → FileMeta → FileMeta
base_meta base [] found = found
base_meta base (f ∷ files) found = base_meta base files (if same f.name base then f else found)

abbrev pub no_file : FileMeta
no_file = record { name = []; size = 0; last_written_ms = 0 }

abbrev pub add_files : List FileMeta → Plan → Plan
add_files files (ok more, s) = (ok (files ++ more), s)
add_files files (err e, s) = (err e, s)

module _ (x : Faults) (sort : List RotatedFile → List RotatedFile)
    (from_start : FileMeta → Bool) where
  -- The loop over byBase; `from_start` is startFor(f) == config.StartFromBeginning.
  unfoldable pub plan_bases : List FileMeta → List Bytes → Store → Plan
  unfolding group base_meta ordinary plan_base
  plan_bases all [] s = (ok [], s)
  plan_bases all (base ∷ bases) s =
      let meta = base_meta base (ordinary all all) no_file in
      let (planned, s') = plan_base x base (sort (group base all all)) (from_start meta) s in
      elim planned [ err e ↦ (err e, s') | ok files ↦ add_files files (plan_bases all bases s') ]

  -- planRotation
  unfoldable pub plan_rotation : (List Bytes → List Bytes) → List FileMeta → Store → Plan
  unfolding ordinary bases_of plan_bases
  plan_rotation order files s =
      add_files (ordinary files files) (plan_bases files (order (bases_of files files)) s)
