-- ===== src/State/Sqlite/Migration.antt =====
-- Migrations that stop between two statements and are run again.
use rdstail.Prelude.{
  ◌≤◌, ◌≡◌, inl, inr, refl, true, false, Option, none, some, List, [], ◌∷◌, ℕ, leb, arith,
  Bool-cases,
}
use rdstail.Failure.{Failure}
use rdstail.State.Sqlite.{
  Schema, Statement, schema_version, newest_version, insert_version, is_version, record_version,
  migrate,
}

-- A recorded version 2 or later means that the column is there.
abbrev pub IsConsistent : Schema → Type 0
IsConsistent s = schema_version ≤ newest_version s.versions → s.has_skip ≡ true

-- What the statements of the store need.
abbrev pub IsCurrent : Schema → Type 0
IsCurrent s =
    (s.has_tables ≡ true) × (s.has_skip ≡ true) × (schema_version ≤ newest_version s.versions)

abbrev pub never : Statement → Option Failure
never q = none

is_version-newest : (v : ℕ) (vs : List ℕ) → is_version v vs ≡ true → v ≤ newest_version vs
is_version-newest v [] h = absurd (ground (arith, h))
is_version-newest v (u ∷ vs) h = grind (arith, is_version-newest v vs)

insert_version-new :
    (s : Schema)
    → leb schema_version (newest_version s.versions) ≡ false
    → insert_version s ≡ some (record s { versions = schema_version ∷ s.versions })
insert_version-new s old = elim (Bool-cases (is_version schema_version s.versions)) [
  | inl here ↦ absurd (ground (arith, old, is_version-newest schema_version s.versions here))
  | inr new ↦ rw new refl
]

module _ (refused : Statement → Option Failure) where
  record_version-column : (s : Schema) → (record_version refused s).1.has_skip ≡ s.has_skip
  unfolding record_version
  record_version-column s = ground arith

  migrate-column :
      (s : Schema)
      → IsConsistent s
      → schema_version ≤ newest_version (migrate refused s).1.versions
      → (migrate refused s).1.has_skip ≡ true
  unfolding migrate
  migrate-column s consistent h = ground (
    arith,
    consistent,
    h,
    record_version-column (record s { has_tables = true }),
    record_version-column (record s { has_tables = true; has_skip = true }),
  )

record_version-new :
    (s : Schema)
    → leb schema_version (newest_version s.versions) ≡ false
    → record_version never s ≡ (none, record s { versions = schema_version ∷ s.versions })
unfolding record_version
record_version-new s old = rw (insert_version-new s old, record_version) refl

migrate-IsCurrent :
    (s : Schema) → IsConsistent s → ((migrate never s).0 ≡ none) × IsCurrent (migrate never s).1
unfolding migrate
migrate-IsCurrent s consistent =
    elim (Bool-cases (leb schema_version (newest_version s.versions))) [
      | inl new ↦ ground (arith, consistent, new)
      | inr old ↦ elim (Bool-cases s.has_skip) [
        | inl there ↦
            let e = record_version-new (record s { has_tables = true }) old in
            ground (arith, old, there, e)
        | inr missing ↦
            let e = record_version-new (record s { has_tables = true; has_skip = true }) old in
            ground (arith, old, missing, e)
      ]
    ]

-- Whatever statements of a migration the engine refuses, and so wherever it stops, a later migration
-- whose statements are all executed returns nil and leaves the tables, the column skip_continuation
-- and a version that is at least 2, if a database of version 2 or later had the column to begin with.
pub migrate-resumes :
    (refused : Statement → Option Failure) (s : Schema)
    → IsConsistent s
    → ((migrate never (migrate refused s).1).0 ≡ none)
      × IsCurrent (migrate never (migrate refused s).1).1
migrate-resumes refused s consistent =
    migrate-IsCurrent (migrate refused s).1 (migrate-column refused s consistent)
