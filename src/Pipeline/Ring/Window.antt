-- ===== src/Pipeline/Ring/Window.antt =====
-- What the ring remembers.
use rdstail.Prelude.{
  ℕ, suc, ◌+◌, ◌-◌, ◌≤◌, ◌<◌, ◌≡◌, ◌∙◌, ◌⊎◌, inl, inr, ◌||◌, refl, ap, sym, Bool, true, List, [],
  ◌∷◌, ◌++◌, arith, Bytes, ltb, leb, ◌==◌, length, map, append_assoc, append-nil, Bool-cases,
  update_ℕ, subst, if◌then◌else◌,
}
use rdstail.Record.{LogRecord}
use rdstail.Pipeline.Ring.{
  ShipKey, ShippedRing, empty_ring, add_key, add_keys, drop_oldest, ship_key, remember_shipped,
  ship_ring_bytes, ship_ring_max_keys,
}

abbrev pub sizes : List ShipKey → ℕ
sizes [] = 0
sizes (k ∷ ks) = k.n + sizes ks

-- How often a hash is among the keys.
abbrev pub occurrences : ℕ → List ShipKey → ℕ
occurrences h [] = 0
occurrences h (k ∷ ks) = (if k.h == h then 1 else 0) + occurrences h ks

-- The byte total and the counts are those of the keys.
pub record IsConsistent (r : ShippedRing) : Type 0 where
  pub total : r.bytes ≡ sizes r.keys
  pub counts : (h : ℕ) → r.set h ≡ occurrences h r.keys

sizes-append : (a b : List ShipKey) → sizes (a ++ b) ≡ sizes a + sizes b
sizes-append [] b = omega arith
sizes-append (k ∷ a) b = omega (arith, sizes-append a b)

occurrences-append :
    (h : ℕ) (a b : List ShipKey) → occurrences h (a ++ b) ≡ occurrences h a + occurrences h b
occurrences-append h [] b = omega arith
occurrences-append h (k ∷ a) b = omega (arith, occurrences-append h a b)

add_key-IsConsistent : (r : ShippedRing) (k : ShipKey) → IsConsistent r → IsConsistent (add_key r k)
unfolding add_key
add_key-IsConsistent r k c = record {
  total = omega (arith, sizes-append r.keys (k ∷ []));
  counts = λ h. ground (arith, occurrences-append h r.keys (k ∷ []), c.counts h, c.counts k.h);
}

add_keys_lem :
    (r : ShippedRing) (ks : List ShipKey)
    → IsConsistent r
    → IsConsistent (add_keys r ks) × ((add_keys r ks).keys ≡ r.keys ++ ks)
unfolding add_keys
add_keys_lem r [] c = (c, sym (append-nil r.keys))
add_keys_lem r (k ∷ ks) c =
    let (consistent, keys) = add_keys_lem (add_key r k) ks (add_key-IsConsistent r k c) in
    (consistent, unfold add_key in keys ∙ append_assoc r.keys (k ∷ []) ks)

-- A ring within both bounds.
pub record IsWithin (r : ShippedRing) : Type 0 where
  pub few : length r.keys ≤ ship_ring_max_keys
  pub tight : (k : ShipKey) (ks : List ShipKey) → r.keys ≡ k ∷ ks → r.bytes < ship_ring_bytes + k.n

-- `r` is what is left of `keys` when the oldest are dropped, as far as the bounds ask for it.
pub record IsTrimmed (keys : List ShipKey) (r : ShippedRing) : Type 0 where
  pub dropped : List ShipKey
  pub split : keys ≡ dropped ++ r.keys
  pub consistent : IsConsistent r
  pub within : IsWithin r
  -- Something was dropped only with a full window left.
  pub full : (dropped ≡ []) ⊎ ((ship_ring_bytes ≤ r.bytes) ⊎ (ship_ring_max_keys ≤ length r.keys))

abbrev must_drop : ShipKey → List ShipKey → ℕ → Bool
must_drop old keys bytes =
    leb ship_ring_bytes (bytes - old.n) || ltb ship_ring_max_keys (suc (length keys))

IsTrimmed-cons :
    (old : ShipKey) (keys : List ShipKey) (bytes : ℕ) (r : ShippedRing)
    → must_drop old keys bytes ≡ true
    → bytes ≡ old.n + sizes keys
    → IsTrimmed keys r
    → IsTrimmed (old ∷ keys) r
IsTrimmed-cons old keys bytes r test total t = record {
  dropped = old ∷ t.dropped;
  split = ap (◌∷◌ old) t.split;
  consistent = t.consistent;
  within = t.within;
  full = inr (elim t.full [
    | inl nothing ↦
        let same_keys : keys ≡ r.keys = t.split ∙ ap (λ (d : List ShipKey). d ++ r.keys) nothing in
        still_full same_keys
    | inr full ↦ full
  ]);
}
  where
    still_full : keys ≡ r.keys → (ship_ring_bytes ≤ r.bytes) ⊎ (ship_ring_max_keys ≤ length r.keys)
    still_full e = ground (arith, t.consistent.total, ap sizes e, ap length e)

drop_oldest-IsTrimmed :
    (keys : List ShipKey) (bytes : ℕ) (set : ℕ → ℕ)
    → IsConsistent (record { keys = keys; bytes = bytes; set = set })
    → IsTrimmed keys (drop_oldest keys bytes set)
unfolding drop_oldest
drop_oldest-IsTrimmed [] bytes set c = record {
  dropped = [];
  split = refl;
  consistent = c;
  within = record { few = omega arith; tight = λ k ks e. cc };
  full = inl refl;
}
drop_oldest-IsTrimmed (old ∷ keys) bytes set c = elim (Bool-cases (must_drop old keys bytes)) [
  | inl test ↦ rw test (
      IsTrimmed-cons old keys bytes _ test c.total (
        drop_oldest-IsTrimmed keys (bytes - old.n) (update_ℕ set old.h (set old.h - 1)) (record {
          total = omega (arith, c.total);
          counts = λ h. ground (arith, c.counts h, c.counts old.h);
        })))
  | inr test ↦ rw test (record {
    dropped = [];
    split = refl;
    consistent = c;
    within = record { few = ground arith; tight = λ k ks e. ground arith };
    full = inl refl;
  })
]

-- On a consistent ring, remembering records appends their keys and then drops the oldest ones: the
-- byte total and the counts stay those of the keys; at most 50,000 keys are kept, and without the
-- oldest of them less than 2 MiB; and if any key was dropped, at least 2 MiB or 50,000 keys are left.
pub remember_shipped-IsTrimmed :
    (error_key : Bytes → ℕ) (r : ShippedRing) (recs : List LogRecord)
    → IsConsistent r
    → IsTrimmed (r.keys ++ map (ship_key error_key) recs) (remember_shipped error_key r recs)
unfolding remember_shipped
remember_shipped-IsTrimmed error_key r recs c =
    let (consistent, keys) = add_keys_lem r (map (ship_key error_key) recs) c in
    subst (λ ks. IsTrimmed ks (remember_shipped error_key r recs)) keys
      (drop_oldest-IsTrimmed _ _ _ consistent)

pub IsConsistent-empty_ring : IsConsistent empty_ring
IsConsistent-empty_ring = record { total = refl; counts = λ h. refl }
