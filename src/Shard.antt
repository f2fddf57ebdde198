-- ===== src/Shard.antt =====
-- internal/shard/shard.go: which process of several owns an instance. FNV-1a (hash/fnv) and
-- strings.TrimSpace are arguments.
pub mod Owner
use Prim.Native.Nat.{bit_xor}
use rdstail.Prelude.{
  ℕ, zero, suc, ◌+◌, ◌*◌, ◌/◌, ◌%◌, ◌^◌, ◌||◌, Bool, true, false, Option, none, some, [], ◌∷◌, ◌++◌,
  Bytes, ltb, leb, ◌==◌, take, drop, if◌then◌else◌,
}
use rdstail.Prelude.Int.{ℤ, pos, negsuc}
use rdstail.Failure.{Result, ok, err, other}
use rdstail.Text.{parse_int, format_int, index_byte}

pub record Shard : Type 0 where
  pub index : ℕ
  pub count : ℕ

-- All
abbrev pub all : Shard
all = record { index = 1; count = 1 }

abbrev pub check_range : Option ℤ → Option ℤ → Result Shard
check_range (some (pos i)) (some (pos n)) =
    if ltb n 1 || ltb 1024 n || ltb i 1 || ltb n i
    then err (other ∷ [])
    else ok (record { index = i; count = n })
check_range _ _ = err (other ∷ [])

abbrev pub parse_trimmed : Bytes → Result Shard
parse_trimmed [] = ok all
parse_trimmed (c ∷ s) = elim (index_byte b'/' (c ∷ s)) [
  | none ↦ err (other ∷ [])
  | some i ↦ check_range (parse_int (take i (c ∷ s))) (parse_int (drop (suc i) (c ∷ s)))
]

-- Parse
unfoldable pub parse : (Bytes → Bytes) → Bytes → Result Shard
unfolding parse_int index_byte
parse trim_space s = parse_trimmed (trim_space s)

-- mix, on 64 bits
unfoldable pub mix : ℕ → ℕ
mix x =
    let a = bit_xor x (x / 2 ^ 30) in
    let b = a * 13787848793156543929 % 2 ^ 64 in
    let c = bit_xor b (b / 2 ^ 27) in
    let d = c * 10723151780598845931 % 2 ^ 64 in bit_xor d (d / 2 ^ 31)

-- The loop of Owns over so many more shards from the j-th on, by the score of each.
unfoldable pub owner_from : (ℕ → ℕ) → ℕ → ℕ → ℕ → ℕ → ℕ
owner_from score zero j best owner = owner
owner_from score (suc n) j best owner =
    let wins = owner_from score n (j + 1) (score j) j in
    let stays = owner_from score n (j + 1) best owner in
    if j == 1 || ltb best (score j) then wins else stays

-- The j-th shard's score for the key.
unfoldable pub score_of : (Bytes → ℕ) → Bytes → ℕ → ℕ
unfolding mix format_int
score_of sum64 key j = mix (sum64 (key ++ 0 ∷ format_int j))

-- Owns
unfoldable pub owns : (Bytes → ℕ) → Shard → Bytes → Bool
unfolding owner_from score_of
owns sum64 s key =
    if leb s.count 1 then true else owner_from (score_of sum64 key) s.count 1 0 0 == s.index
