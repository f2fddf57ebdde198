-- ===== src/Source/Ranges/Prefixes.antt =====
-- Parts of a text, and the newlines in them.
use rdstail.Prelude.{
  ℕ, zero, suc, ◌+◌, ◌-◌, ◌≤◌, ◌<◌, ◌==◌, ◌≡◌, inl, inr, refl, sym, ap, ◌∙◌, Option, none, some, [],
  ◌∷◌, ◌++◌, Bytes, take, drop, length, length-drop, arith, Bool-cases, Option-cases,
}
use rdstail.Text.{index_byte, last_index_byte}
use rdstail.Source.Ranges.{range_end, complete_end}

pub index_byte-bound : (c : ℕ) (s : Bytes) (i : ℕ) → index_byte c s ≡ some i → i < length s
unfolding index_byte
index_byte-bound c [] i h = absurd (ground (arith, h))
index_byte-bound c (x ∷ s) i h = elim (Option-cases (index_byte c s)) [
  | inl nowhere ↦ ground (arith, h, nowhere)
  | inr (j, there) ↦ ground (arith, h, there, index_byte-bound c s j there)
]

pub last_index_byte-bound : (c : ℕ) (s : Bytes) → complete_end (last_index_byte c s) ≤ length s
unfolding last_index_byte
last_index_byte-bound c [] = omega arith
last_index_byte-bound c (x ∷ s) = ground (arith, last_index_byte-bound c s)

pub range_end-bound :
    (text : Bytes) (buf_start : ℕ) (end : Option ℕ) (idx : ℕ)
    → range_end text buf_start end ≡ some idx
    → idx ≤ length text
unfolding range_end
range_end-bound text buf_start none idx h = absurd (ground (arith, h))
range_end-bound text buf_start (some e) idx h =
    let from = e - 1 - buf_start in
    elim (Option-cases (index_byte b'\n' (drop from text))) [
      | inl nowhere ↦ absurd (ground (arith, h, nowhere))
      | inr (i, there) ↦
          ground (
            arith,
            h,
            there,
            index_byte-bound b'\n' (drop from text) i there,
            length-drop from text,
          )
    ]

pub take-take : (n m : ℕ) (s : Bytes) → n ≤ m → take n (take m s) ≡ take n s
take-take zero m s h = refl
take-take (suc n) zero s h = absurd (omega (arith, h))
take-take (suc n) (suc m) [] h = refl
take-take (suc n) (suc m) (x ∷ s) h = ap (λ t. x ∷ t) (take-take n m s (omega (arith, h)))

pub take-nil : (n : ℕ) → take {A = ℕ} n [] ≡ []
take-nil zero = refl
take-nil (suc n) = refl

pub drop-nil : (n : ℕ) → drop {A = ℕ} n [] ≡ []
drop-nil zero = refl
drop-nil (suc n) = refl

pub add_zero : (n : ℕ) → 0 + n ≡ n
add_zero n = omega arith

pub add_suc : (f n : ℕ) → suc f + n ≡ suc (f + n)
add_suc f n = omega arith

pub drop-take : (f n : ℕ) (s : Bytes) → drop f (take (f + n) s) ≡ take n (drop f s)
drop-take zero n s = ap (λ k. take k s) (add_zero n)
drop-take (suc f) n [] = ap (drop (suc f)) (take-nil (suc f + n)) ∙ sym (take-nil n)
drop-take (suc f) n (x ∷ s) =
    ap (λ k. drop (suc f) (take k (x ∷ s))) (add_suc f n) ∙ drop-take f n s

pub drop-drop : (b f : ℕ) (s : Bytes) → drop f (drop b s) ≡ drop (b + f) s
drop-drop zero f s = ap (λ k. drop k s) (sym (add_zero f))
drop-drop (suc b) f [] = drop-nil f ∙ sym (drop-nil (suc b + f))
drop-drop (suc b) f (x ∷ s) = drop-drop b f s ∙ ap (λ k. drop k (x ∷ s)) (sym (add_suc b f))

pub length-take : (n : ℕ) (s : Bytes) → n ≤ length s → length (take n s) ≡ n
length-take zero s h = refl
length-take (suc n) [] h = absurd (omega (arith, h))
length-take (suc n) (x ∷ s) h = omega (arith, length-take n s (omega (arith, h)))

pub take-add : (n m : ℕ) (s : Bytes) → take (n + m) s ≡ take n s ++ take m (drop n s)
take-add zero m s = ap (λ k. take k s) (add_zero m)
take-add (suc n) m [] = take-nil (suc n + m) ∙ sym (take-nil m)
take-add (suc n) m (x ∷ s) =
    ap (λ k. take k (x ∷ s)) (add_suc n m) ∙ ap (λ t. x ∷ t) (take-add n m s)

pub index_byte-take :
    (c n : ℕ) (s : Bytes) (i : ℕ) → index_byte c (take n s) ≡ some i → index_byte c s ≡ some i
unfolding index_byte
index_byte-take c zero s i h = absurd (ground (arith, h))
index_byte-take c (suc n) [] i h = absurd (ground (arith, h))
index_byte-take c (suc n) (x ∷ s) i h = elim (Bool-cases (x == c)) [
  | inl is_it ↦ ground (arith, h, is_it)
  | inr other ↦ elim (Option-cases (index_byte c (take n s))) [
    | inl nowhere ↦ absurd (ground (arith, h, other, nowhere))
    | inr (j, there) ↦ ground (arith, h, other, there, index_byte-take c n s j there)
  ]
]

pub length-take_bound : (n : ℕ) (s : Bytes) → length (take n s) ≤ length s
length-take_bound zero s = omega arith
length-take_bound (suc n) [] = omega arith
length-take_bound (suc n) (x ∷ s) = omega (arith, length-take_bound n s)
