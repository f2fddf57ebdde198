-- ===== src/Config/Regions.antt =====
-- internal/config/config.go: expandRegions, one source for each region. strings.TrimSpace is an
-- argument.
use rdstail.Prelude.{
  ◌≡◌, ◌≢◌, ◌⊎◌, inl, inr, refl, ap₂, List, [], ◌∷◌, ◌++◌, Bytes, arith, All, All-append,
}
use rdstail.Config.{Source}

-- The sources of one block that lists regions.
unfoldable pub per_region : (Bytes → Bytes) → Source → List Bytes → List Source
per_region trim_space src [] = []
per_region trim_space src (r ∷ rs) =
    record src { region = trim_space r; regions = [] } ∷ per_region trim_space src rs

-- The body of the loop, by the source's regions and its region.
abbrev pub expand_as : (Bytes → Bytes) → Source → List Bytes → Bytes → List Source
expand_as trim_space src [] region = src ∷ []
expand_as trim_space src (r ∷ rs) [] = per_region trim_space src (r ∷ rs)
expand_as trim_space src (r ∷ rs) (c ∷ cs) = src ∷ []

abbrev pub expand_region : (Bytes → Bytes) → Source → List Source
expand_region trim_space src = expand_as trim_space src src.regions src.region

-- expandRegions
unfoldable pub expand_regions : (Bytes → Bytes) → List Source → List Source
unfolding per_region
expand_regions trim_space [] = []
expand_regions trim_space (src ∷ srcs) =
    expand_region trim_space src ++ expand_regions trim_space srcs

-- The source names at most one region in one way, or in both ways, which Validate rejects.
abbrev pub IsExpanded : Source → Type 0
IsExpanded src = (src.regions ≡ []) ⊎ (src.region ≢ [])

per_region-IsExpanded :
    (trim_space : Bytes → Bytes) (src : Source) (rs : List Bytes)
    → All IsExpanded (per_region trim_space src rs)
unfolding per_region
per_region-IsExpanded trim_space src [] = tt
per_region-IsExpanded trim_space src (r ∷ rs) = (inl refl, per_region-IsExpanded trim_space src rs)

expand_as-IsExpanded :
    (trim_space : Bytes → Bytes) (src : Source) (rs : List Bytes) (region : Bytes)
    → src.regions ≡ rs
    → src.region ≡ region
    → All IsExpanded (expand_as trim_space src rs region)
unfolding per_region
expand_as-IsExpanded trim_space src [] region e f = (inl e, tt)
expand_as-IsExpanded trim_space src (r ∷ rs) [] e f =
    (inl refl, per_region-IsExpanded trim_space src rs)
expand_as-IsExpanded trim_space src (r ∷ rs) (c ∷ cs) e f = (inr (λ g. ground (arith, f, g)), tt)

expand_regions-IsExpanded :
    (trim_space : Bytes → Bytes) (srcs : List Source)
    → All IsExpanded (expand_regions trim_space srcs)
unfolding expand_regions
expand_regions-IsExpanded trim_space [] = tt
expand_regions-IsExpanded trim_space (src ∷ srcs) =
    All-append IsExpanded (expand_region trim_space src) (expand_regions trim_space srcs)
      (expand_as-IsExpanded trim_space src src.regions src.region refl refl)
      (expand_regions-IsExpanded trim_space srcs)

expand_as-expanded :
    (trim_space : Bytes → Bytes) (src : Source) (rs : List Bytes) (region : Bytes)
    → src.regions ≡ rs
    → src.region ≡ region
    → IsExpanded src
    → expand_as trim_space src rs region ≡ src ∷ []
expand_as-expanded trim_space src [] region e f h = refl
expand_as-expanded trim_space src (r ∷ rs) [] e f (inl h) = absurd (ground (arith, e, h))
expand_as-expanded trim_space src (r ∷ rs) [] e f (inr h) = absurd (h f)
expand_as-expanded trim_space src (r ∷ rs) (c ∷ cs) e f h = refl

expand_regions-expanded :
    (trim_space : Bytes → Bytes) (srcs : List Source)
    → All IsExpanded srcs
    → expand_regions trim_space srcs ≡ srcs
unfolding expand_regions
expand_regions-expanded trim_space [] h = refl
expand_regions-expanded trim_space (src ∷ srcs) h =
    ap₂ (λ a b. a ++ b) (expand_as-expanded trim_space src src.regions src.region refl refl h.0)
      (expand_regions-expanded trim_space srcs h.1)

-- Every source that expandRegions returns has no list of regions left, unless it names a region too,
-- which Validate rejects; expanding again changes nothing.
pub expand_regions-expand_regions :
    (trim_space : Bytes → Bytes) (srcs : List Source)
    → All IsExpanded (expand_regions trim_space srcs)
      × (expand_regions trim_space (expand_regions trim_space srcs)
          ≡ expand_regions trim_space srcs)
expand_regions-expand_regions trim_space srcs = (
  expand_regions-IsExpanded trim_space srcs,
  expand_regions-expanded trim_space (expand_regions trim_space srcs)
      (expand_regions-IsExpanded trim_space srcs),
)
