-- ===== src/Source/Instances.antt =====
-- internal/source/rds/discovery.go: DiscoverInstances, which lists the RDS instances of a region that
-- match tags. The API, strings.ToLower and sort.Slice are arguments; a Go map that is only searched is a
-- list of its entries.
pub mod Matching
pub mod Tagging
use rdstail.Prelude.{
  ℕ, zero, suc, ◌&&◌, ◌||◌, Bool, true, false, not, Option, none, some, List, [], ◌∷◌, ◌++◌, Bytes,
  codes, same, is_empty, if◌then◌else◌,
}
use rdstail.Failure.{Failure, Result, ok, err, other}

abbrev pub Tags : Type 0
Tags = List (Bytes × Bytes)

-- What of a DBInstance is read.
pub record DbInstance : Type 0 where
  pub id : Bytes
  pub engine : Bytes
  pub status : Bytes
  pub tag_list : Tags

-- DiscoverFilter
pub record DiscoverFilter : Type 0 where
  pub tags : Tags
  pub exclude_tags : Tags
  pub all : Bool
  pub engine : Bytes

pub record DiscoveredInstance : Type 0 where
  pub id : Bytes
  pub engine : Bytes
  pub status : Bytes

-- tags[k], where the last entry of a key holds
unfoldable pub tag_value : Tags → Bytes → Option Bytes
unfolding same
tag_value [] k = none
tag_value ((k', v) ∷ tags) k = elim (tag_value tags k) [
  | some w ↦ some w
  | none ↦ if same k' k then some v else none
]

abbrev pub or_empty : Option Bytes → Bytes
or_empty none = []
or_empty (some v) = v

-- tagsMatch: a tag that is missing reads as an empty value.
unfoldable pub tags_match : Tags → Tags → Bool
unfolding tag_value same
tags_match [] got = true
tags_match ((k, v) ∷ want) got = same (or_empty (tag_value got k)) v && tags_match want got

abbrev pub is_excluded_value : Bytes → Option Bytes → Bool
is_excluded_value v none = false
is_excluded_value v (some g) = same v (codes "*") || same g v

-- excluded
unfoldable pub excluded : Tags → Tags → Bool
unfolding tag_value
excluded [] got = false
excluded ((k, v) ∷ exclude) got = is_excluded_value v (tag_value got k) || excluded exclude got

-- NormalizeEngine, of the name in lower case: `none` for "".
unfoldable pub normalize_engine : Bytes → Option Bytes
unfolding same
normalize_engine e =
    if same e (codes "postgres") || same e (codes "aurora-postgresql")
    then some (codes "postgres")
    else if same e (codes "mysql") || same e (codes "aurora-mysql") || same e (codes "aurora")
    then some (codes "mysql")
    else if same e (codes "mariadb")
    then some (codes "mariadb")
    else none

abbrev pub DbPage : Type 0
DbPage = List DbInstance × Bytes

module _ (to_lower : Bytes → Bytes) (engine_filter : Bytes) (tag_filter exclude : Tags) where
  -- The body of the loop over a page: `continue` is `none`.
  unfoldable pub selected : DbInstance → Option DiscoveredInstance
  selected db = elim (normalize_engine (to_lower db.engine)) [
    | none ↦ none
    | some engine ↦
        if not (is_empty engine_filter) && not (same engine engine_filter)
        then none
        else if not (is_empty tag_filter) && not (tags_match tag_filter db.tag_list)
        then none
        else if excluded exclude db.tag_list
        then none
        else some (record { id = db.id; engine = engine; status = db.status })
  ]

  unfoldable pub select_all : List DbInstance → List DiscoveredInstance
  select_all [] = []
  select_all (db ∷ dbs) = elim (selected db) [ none ↦ select_all dbs | some d ↦ d ∷ select_all dbs ]

  module _ (api : Option Bytes → Result DbPage) where
    -- The loop over pages, for at most so many: `none` if there are more.
    unfoldable pub list_from :
        ℕ → Option Bytes → List DiscoveredInstance → Option (Result (List DiscoveredInstance))
    unfolding select_all
    list_from zero marker out = none
    list_from (suc n) marker out = elim (api marker) [
      | err e ↦ some (err e)
      | ok (dbs, []) ↦ some (ok (out ++ select_all dbs))
      | ok (dbs, b ∷ next) ↦ list_from n (some (b ∷ next)) (out ++ select_all dbs)
    ]

    abbrev pub sorted_by :
        (List DiscoveredInstance → List DiscoveredInstance)
        → Option (Result (List DiscoveredInstance))
        → Option (Result (List DiscoveredInstance))
    sorted_by sort none = none
    sorted_by sort (some (err e)) = some (err e)
    sorted_by sort (some (ok out)) = some (ok (sort out))

    -- listInstances
    unfoldable pub list_instances :
        (List DiscoveredInstance → List DiscoveredInstance)
        → ℕ
        → Option (Result (List DiscoveredInstance))
    unfolding list_from
    list_instances sort n = sorted_by sort (list_from n none [])

-- DiscoverInstances
unfoldable pub discover_instances :
    (Bytes → Bytes)
    → (List DiscoveredInstance → List DiscoveredInstance)
    → (Option Bytes → Result DbPage)
    → DiscoverFilter
    → ℕ
    → Option (Result (List DiscoveredInstance))
unfolding list_instances
discover_instances to_lower sort api filter n =
    if is_empty filter.tags && not filter.all
    then some (err (other ∷ []))
    else list_instances to_lower filter.engine filter.tags filter.exclude_tags api sort n
