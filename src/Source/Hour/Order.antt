-- ===== src/Source/Hour/Order.antt =====
-- HourID.Compare as an order.
use Prim.Native.Nat.{Ordering}
use rdstail.Prelude.{◌≡◌, ◌↔◌, true, refl, [], ◌∷◌, Bytes, arith, same_iff}
use rdstail.Source.Hour.{HourId, compare_bytes, compare_hour, same_hour}

-- Comparing the other way round.
abbrev pub flip : Ordering → Ordering
flip Ordering.lt = Ordering.gt
flip Ordering.eq = Ordering.eq
flip Ordering.gt = Ordering.lt

compare_bytes-eq : (a b : Bytes) → compare_bytes a b ≡ Ordering.eq → a ≡ b
unfolding compare_bytes
compare_bytes-eq [] [] h = refl
compare_bytes-eq [] (y ∷ ys) h = cc
compare_bytes-eq (x ∷ xs) [] h = cc
compare_bytes-eq (x ∷ xs) (y ∷ ys) h = ground (arith, compare_bytes-eq xs ys)

compare_bytes_refl : (a : Bytes) → compare_bytes a a ≡ Ordering.eq
unfolding compare_bytes
compare_bytes_refl [] = refl
compare_bytes_refl (x ∷ xs) = ground (arith, compare_bytes_refl xs)

compare_bytes-flip : (a b : Bytes) → compare_bytes b a ≡ flip (compare_bytes a b)
unfolding compare_bytes
compare_bytes-flip [] [] = refl
compare_bytes-flip [] (y ∷ ys) = refl
compare_bytes-flip (x ∷ xs) [] = refl
compare_bytes-flip (x ∷ xs) (y ∷ ys) = ground (arith, compare_bytes-flip xs ys)

compare_bytes_trans :
    (a b c : Bytes)
    → compare_bytes a b ≡ Ordering.lt
    → compare_bytes b c ≡ Ordering.lt
    → compare_bytes a c ≡ Ordering.lt
unfolding compare_bytes
compare_bytes_trans [] [] c h k = cc
compare_bytes_trans [] (y ∷ ys) [] h k = cc
compare_bytes_trans [] (y ∷ ys) (z ∷ zs) h k = refl
compare_bytes_trans (x ∷ xs) [] c h k = cc
compare_bytes_trans (x ∷ xs) (y ∷ ys) [] h k = cc
compare_bytes_trans (x ∷ xs) (y ∷ ys) (z ∷ zs) h k = ground (arith, compare_bytes_trans xs ys zs)

-- Two hours compare as 0 exactly when they are one, and exactly when `==` holds of them.
pub compare_hour-eq_iff :
    (h o : HourId)
    → ((compare_hour h o ≡ Ordering.eq) ↔ (h ≡ o)) × ((same_hour h o ≡ true) ↔ (h ≡ o))
unfolding compare_hour same_hour
compare_hour-eq_iff h o = (
  (
    λ e. ground (arith, compare_bytes-eq h.date o.date),
    λ e. ground (arith, e, compare_bytes_refl h.date),
  ),
  (λ e. ground (arith, same_iff h.date o.date), λ e. ground (arith, e, same_iff h.date o.date)),
)

-- Compare turned round gives the opposite sign.
pub compare_hour-flip : (h o : HourId) → compare_hour o h ≡ flip (compare_hour h o)
unfolding compare_hour
compare_hour-flip h o = ground (arith, compare_bytes-flip h.date o.date)

-- "Earlier than" is transitive.
pub compare_hour_trans :
    (h o p : HourId)
    → compare_hour h o ≡ Ordering.lt
    → compare_hour o p ≡ Ordering.lt
    → compare_hour h p ≡ Ordering.lt
unfolding compare_hour
compare_hour_trans h o p a b = ground (
  arith,
  compare_bytes_trans h.date o.date p.date,
  compare_bytes-eq h.date o.date,
  compare_bytes-eq o.date p.date,
  compare_bytes_refl h.date,
)
