-- ===== src/Source/Discovery.antt =====
-- internal/source/rds/fetcher.go: DiscoverFiles, and internal/source/rds/classifier.go. The API,
-- strings.ToLower and path.Base are arguments.
pub mod Complete
use rdstail.Prelude.{
  ℕ, zero, suc, ◌||◌, ◌&&◌, Bool, true, false, Option, none, some, List, [], ◌∷◌, ◌++◌, Bytes,
  codes, same, has_prefix, if◌then◌else◌,
}
use rdstail.Failure.{Result, ok, err}
use rdstail.Source.FileMeta.{FileMeta}

pub data Classifier : Type 0 where
  postgres_classifier all_classifier : Classifier
  mysql_classifier : Bool → Classifier

-- NewClassifier
abbrev pub new_classifier : Bytes → Bool → Classifier
new_classifier engine include_audit =
    if same engine (codes "postgres")
    then postgres_classifier
    else if same engine (codes "mysql") || same engine (codes "mariadb")
    then mysql_classifier include_audit
    else all_classifier

-- FilenameContains
abbrev pub filename_contains : Classifier → Bytes
filename_contains postgres_classifier = codes "postgres"
filename_contains (mysql_classifier include_audit) = []
filename_contains all_classifier = []

abbrev pub has_one_prefix : Bytes → List Bytes → Bool
has_one_prefix s [] = false
has_one_prefix s (p ∷ ps) = has_prefix s p || has_one_prefix s ps

module _ (to_lower base_of : Bytes → Bytes) where
  -- Accepts
  unfoldable pub accepts : Classifier → Bytes → Bool
  unfolding has_prefix
  accepts all_classifier name = true
  accepts postgres_classifier name =
      let base = to_lower (base_of name) in
      has_prefix base (codes "postgresql.log") || has_prefix base (codes "postgres.log")
  accepts (mysql_classifier include_audit) name =
      let base = to_lower (base_of name) in
      let lower = to_lower name in
      if include_audit
        && (has_prefix base (codes "server_audit.log") || has_prefix lower (codes "audit/"))
      then true
      else if has_one_prefix base (
          codes "mysql-error"
          ∷ codes "mysql-slowquery"
          ∷ codes "mysql-general"
          ∷ codes "mariadb-error"
          ∷ codes "mariadb-slowquery"
          ∷ codes "mariadb-general"
          ∷ [])
      then true
      else has_one_prefix lower (codes "error/" ∷ codes "slowquery/" ∷ codes "general/" ∷ [])

  -- The loop over the files of a page.
  unfoldable pub accepted : Classifier → List FileMeta → List FileMeta
  unfolding accepts
  accepted c [] = []
  accepted c (f ∷ fs) = if accepts c f.name then f ∷ accepted c fs else accepted c fs

-- DescribeDBLogFilesInput
pub record FilesCall : Type 0 where
  pub contains : Option Bytes
  pub marker : Option Bytes

-- What is read of its answer; a missing marker and an empty one are one.
pub record FilesPage : Type 0 where
  pub files : List FileMeta
  pub marker : Bytes

-- if s := FilenameContains(); s != ""
abbrev pub filter_for : Classifier → Option Bytes
filter_for c = elim (filename_contains c) [ [] ↦ none | ◌∷◌ b s ↦ some (b ∷ s) ]

module _ (to_lower base_of : Bytes → Bytes) (api : FilesCall → Result FilesPage)
    (c : Classifier) where
  -- The loop of DiscoverFiles: `none` if there are more pages than that.
  unfoldable pub discover_from : ℕ → Option Bytes → List FileMeta → Option (Result (List FileMeta))
  unfolding accepted
  discover_from zero marker out = none
  discover_from (suc n) marker out =
      elim (api (record { contains = filter_for c; marker = marker })) [
        | err e ↦ some (err e)
        | ok page ↦
            let out' = out ++ accepted to_lower base_of c page.files in
            elim page.marker [
              | [] ↦ some (ok out')
              | ◌∷◌ b next ↦ discover_from n (some (b ∷ next)) out'
            ]
      ]

  -- DiscoverFiles
  unfoldable pub discover_files : ℕ → Option (Result (List FileMeta))
  unfolding discover_from
  discover_files n = discover_from n none []
