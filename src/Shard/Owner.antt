-- ===== src/Shard/Owner.antt =====
-- Which shards own an instance, and what a further shard changes.
use rdstail.Prelude.{
  ℕ, zero, suc, ◌+◌, ◌≤◌, ◌<◌, ◌≡◌, ◌⊎◌, inl, inr, refl, true, Bytes, arith, ap, [], ◌∷◌, take,
  drop, Option, none, some, Option-cases, Bool-cases, leb,
}
use rdstail.Prelude.Int.{ℤ, pos, negsuc}
use rdstail.Failure.{Result, ok, err}
use rdstail.Text.{parse_int, index_byte}
use rdstail.Shard.{Shard, check_range, parse_trimmed, parse, owner_from, score_of, owns}

-- One of at most 1024.
abbrev pub IsPosition : Shard → Type 0
IsPosition sh = (1 ≤ sh.index) × (sh.index ≤ sh.count) × (sh.count ≤ 1024)

abbrev index_of : Result Shard → ℕ
index_of (ok sh) = sh.index
index_of (err e) = 0

abbrev count_of : Result Shard → ℕ
count_of (ok sh) = sh.count
count_of (err e) = 0

check_range-IsPosition : (a b : Option ℤ) (sh : Shard) → check_range a b ≡ ok sh → IsPosition sh
check_range-IsPosition (some (pos i)) (some (pos n)) sh h =
    ground (arith, ap index_of h, ap count_of h)
check_range-IsPosition none b sh h = absurd (ground (arith, h))
check_range-IsPosition (some (negsuc i)) b sh h = absurd (ground (arith, h))
check_range-IsPosition (some (pos i)) none sh h = absurd (ground (arith, h))
check_range-IsPosition (some (pos i)) (some (negsuc n)) sh h = absurd (ground (arith, h))

parse_trimmed-IsPosition : (s : Bytes) (sh : Shard) → parse_trimmed s ≡ ok sh → IsPosition sh
parse_trimmed-IsPosition [] sh h = ground (arith, ap index_of h, ap count_of h)
parse_trimmed-IsPosition (c ∷ s) sh h = elim (Option-cases (index_byte b'/' (c ∷ s))) [
  | inl none' ↦ absurd (ground (arith, none', h))
  | inr (i, some') ↦
      check_range-IsPosition (parse_int (take i (c ∷ s))) (parse_int (drop (suc i) (c ∷ s))) sh
        (rw (some', parse_trimmed) at h)
]

-- What Parse accepts is a position among at most 1024 shards.
pub parse-IsPosition :
    (trim_space : Bytes → Bytes) (s : Bytes) (sh : Shard)
    → parse trim_space s ≡ ok sh
    → IsPosition sh
unfolding parse
parse-IsPosition trim_space s sh h = parse_trimmed-IsPosition (trim_space s) sh h

-- The owner is the one so far or one of the shards that are compared.
owner_from-bounds :
    (score : ℕ → ℕ) (n j best owner : ℕ)
    → (owner_from score n j best owner ≡ owner)
      ⊎ ((j ≤ owner_from score n j best owner) × (owner_from score n j best owner < j + n))
unfolding owner_from
owner_from-bounds score zero j best owner = inl refl
owner_from-bounds score (suc n) j best owner = ground (
  arith,
  owner_from-bounds score n (j + 1) (score j) j,
  owner_from-bounds score n (j + 1) best owner,
)

-- One more shard leaves the owner or takes its place.
owner_from-suc :
    (score : ℕ → ℕ) (n j best owner : ℕ)
    → (owner_from score (suc n) j best owner ≡ owner_from score n j best owner)
      ⊎ (owner_from score (suc n) j best owner ≡ j + n)
unfolding owner_from
owner_from-suc score zero j best owner = ground arith
owner_from-suc score (suc n) j best owner =
    ground
      (arith, owner_from-suc score n (j + 1) (score j) j, owner_from-suc score n (j + 1) best owner)

owner-range :
    (score : ℕ → ℕ) (n : ℕ)
    → 1 ≤ n
    → (1 ≤ owner_from score n 1 0 0) × (owner_from score n 1 0 0 ≤ n)
unfolding owner_from
owner-range score zero h = absurd (omega arith)
owner-range score (suc n) h = ground (arith, owner_from-bounds score n 2 (score 1) 1)

abbrev pub at : ℕ → ℕ → Shard
at i n = record { index = i; count = n }

module _ (sum64 : Bytes → ℕ) (key : Bytes) where
  -- Of the shards 1 to n, for n at least 1, one owns the instance.
  pub owns-owner : (n : ℕ) → 1 ≤ n → (i : ℕ) × (1 ≤ i) × (i ≤ n) × (owns sum64 (at i n) key ≡ true)
  unfolding owns
  owns-owner n h = elim (Bool-cases (leb n 1)) [
    | inl one ↦ (1, omega arith, h, ground (arith, one))
    | inr more ↦
        let (low, high) = owner-range (score_of sum64 key) n h in
        (owner_from (score_of sum64 key) n 1 0 0, low, high, ground (arith, more))
  ]

  -- Of the shards 1 to n, no two own the same instance.
  pub owns_unique :
      (i k n : ℕ)
      → (1 ≤ i) × (i ≤ n)
      → (1 ≤ k) × (k ≤ n)
      → owns sum64 (at i n) key ≡ true
      → owns sum64 (at k n) key ≡ true
      → i ≡ k
  unfolding owns
  owns_unique i k n hi hk a b = ground (arith, a, b)

  -- With one more shard, an instance of one of the earlier shards was that shard's before.
  pub owns-suc :
      (i n : ℕ)
      → (1 ≤ i) × (i ≤ n)
      → owns sum64 (at i (suc n)) key ≡ true
      → owns sum64 (at i n) key ≡ true
  unfolding owns
  owns-suc i n hi a = ground (arith, a, owner_from-suc (score_of sum64 key) n 1 0 0)
