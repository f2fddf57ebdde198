-- ===== src/Source/Instances/Matching.antt =====
-- Which instances are discovered.
use rdstail.Prelude.{
  ℕ, ◌≡◌, ◌⊎◌, same, Bool, not, ◌&&◌, Option, some, List, [], ◌∷◌, ◌++◌, Bytes, is_empty,
}
use rdstail.Failure.{Result, ok}
use rdstail.Source.Instances.{
  DbInstance, DiscoverFilter, DiscoveredInstance, DbPage, tags_match, select_all,
}
use rdstail.Source.Instances.Tagging.{HasTags, NoTags, IsTailed}

-- The pages that the API has from a marker on, up to the last.
pub data DbPages (api : Option Bytes → Result DbPage)
    : Option Bytes → List (List DbInstance) → Type 0 where
  last_db_page :
      (marker : Option Bytes) (dbs : List DbInstance)
      → api marker ≡ ok (dbs, [])
      → DbPages api marker (dbs ∷ [])
  next_db_page :
      (marker : Option Bytes) (dbs : List DbInstance) (b : ℕ) (next : Bytes)
      {rest : List (List DbInstance)}
      → api marker ≡ ok (dbs, b ∷ next)
      → DbPages api (some (b ∷ next)) rest
      → DbPages api marker (dbs ∷ rest)

abbrev pub all_dbs : List (List DbInstance) → List DbInstance
all_dbs [] = []
all_dbs (dbs ∷ pages) = dbs ++ all_dbs pages

module _ (to_lower : Bytes → Bytes) (filter : DiscoverFilter) where
  abbrev pub select_by : List DbInstance → List DiscoveredInstance
  select_by = select_all to_lower filter.engine filter.tags filter.exclude_tags

-- An instance that a filter selects: its engine can be tailed and is the one asked for, it has every
-- wanted tag, and none of the excluded ones.
abbrev pub IsWanted : (Bytes → Bytes) → DiscoverFilter → DbInstance → DiscoveredInstance → Type 0
IsWanted to_lower filter db d =
    (d.id ≡ db.id)
    × IsTailed (to_lower db.engine) d.engine
    × (d.status ≡ db.status)
    × ((filter.engine ≡ []) ⊎ (d.engine ≡ filter.engine))
    × HasTags filter.tags db.tag_list
    × NoTags filter.exclude_tags db.tag_list

module _ (to_lower : Bytes → Bytes) (filter : DiscoverFilter) where
  abbrev other_engine : Bytes → Bool
  other_engine engine = not (is_empty filter.engine) && not (same engine filter.engine)

  abbrev other_tags : DbInstance → Bool
  other_tags db = not (is_empty filter.tags) && not (tags_match filter.tags db.tag_list)
