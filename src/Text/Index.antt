-- ===== src/Text/Index.antt =====
-- strings.IndexByte, strings.LastIndexByte and strings.Split by one byte.
use rdstail.Prelude.{
  ℕ, suc, ◌≡◌, refl, Bool, false, ◌||◌, Option, none, some, List, [], ◌∷◌, ◌++◌, arith, Bytes,
  length, ◌==◌, if◌then◌else◌,
}

unfoldable pub has_byte : ℕ → Bytes → Bool
has_byte c [] = false
has_byte c (x ∷ s) = (x == c) || has_byte c s

unfoldable pub index_byte : ℕ → Bytes → Option ℕ
index_byte c [] = none
index_byte c (x ∷ s) =
    if x == c then some 0 else elim (index_byte c s) [ none ↦ none | some i ↦ some (suc i) ]

unfoldable pub last_index_byte : ℕ → Bytes → Option ℕ
last_index_byte c [] = none
last_index_byte c (x ∷ s) = elim (last_index_byte c s) [
  | none ↦ if x == c then some 0 else none
  | some i ↦ some (suc i)
]

last_index_byte-none : (c : ℕ) (s : Bytes) → has_byte c s ≡ false → last_index_byte c s ≡ none
unfolding has_byte last_index_byte
last_index_byte-none c [] h = refl
last_index_byte-none c (x ∷ s) h = ground (arith, last_index_byte-none c s)

pub last_index_byte-split :
    (c : ℕ) (p s : Bytes) → has_byte c s ≡ false → last_index_byte c (p ++ c ∷ s) ≡ some (length p)
unfolding last_index_byte
last_index_byte-split c [] s h = ground (arith, last_index_byte-none c s h)
last_index_byte-split c (x ∷ p) s h = ground (arith, last_index_byte-split c p s h)

-- Puts a byte before the first piece.
abbrev pub cons_first : ℕ → List Bytes → List Bytes
cons_first x [] = (x ∷ []) ∷ []
cons_first x (l ∷ ls) = (x ∷ l) ∷ ls

-- strings.Split(s, string(c)): always at least one piece.
unfoldable pub split_on : ℕ → Bytes → List Bytes
split_on c [] = [] ∷ []
split_on c (x ∷ s) = if x == c then [] ∷ split_on c s else cons_first x (split_on c s)
