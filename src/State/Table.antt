-- ===== src/State/Table.antt =====
-- The checkpoints of different instances and log files.
use rdstail.Prelude.{
  ◌⊎◌, ◌≡◌, ◌≢◌, refl, false, inl, inr, some, [], ◌∷◌, Bytes, arith, same_iff, same, Bool-cases,
  ap₂, sym, subst, All, if◌then◌else◌, true,
}
use rdstail.Record.{Checkpoint}
use rdstail.Text.{has_byte}
use rdstail.State.{Entries, find, put, key, MemoryStore, memory_get, memory_set}

pub find-put {ℓ} : {V : Type ℓ} (m : Entries V) (k : Bytes) (v : V) → find (put m k v) k ≡ some v
unfolding find put
find-put [] k v = ground (arith, same_iff k k)
find-put ((j, u) ∷ m) k v = ground (arith, find-put m k v)

pub find-put_ne {ℓ} :
    {V : Type ℓ} (m : Entries V) (k : Bytes) (v : V) (i : Bytes)
    → k ≢ i
    → find (put m k v) i ≡ find m i
unfolding find put
find-put_ne [] k v i h = ground (arith, same_iff k i)
find-put_ne ((j, u) ∷ m) k v i h = ground (arith, find-put_ne m k v i h, same_iff j k, same_iff j i)

-- What holds of every pair of a map.
module _ {ℓ} {V : Type ℓ} (P : Bytes × V → Type 0) where
  pub All-find : (m : Entries V) (k : Bytes) (v : V) → All P m → find m k ≡ some v → P (k, v)
  unfolding find
  All-find [] k v h e = absurd (ground (arith, e))
  All-find ((j, u) ∷ m) k v h e = elim (Bool-cases (same j k)) [
    | inl here ↦
        let key_is = (same_iff j k).0 here in
        let value_is : u ≡ v = ground (arith, here, e) in
        subst P (ap₂ (λ a b. (a, b)) key_is value_is) h.0
    | inr later ↦ All-find m k v h.1 (ground (arith, later, e))
  ]

  pub All-put : (m : Entries V) (k : Bytes) (v : V) → All P m → P (k, v) → All P (put m k v)
  unfolding put
  All-put [] k v h p = (p, tt)
  All-put ((j, u) ∷ m) k v h p =
      (elim (same j k)
          as (λ b. same j k ≡ b → All P (if b then (j, v) ∷ m else (j, u) ∷ put m k v)) [
            | true ↦ λ e. (subst (λ i. P (i, v)) (sym ((same_iff j k).0 e)) p, h.1)
            | false ↦ λ e. (h.0, All-put m k v h.1 p)
          ])
        refl

-- An instance's name holds no `|`, so the key determines the instance and the log file.
key-injective :
    (a b f g : Bytes)
    → has_byte b'|' a ≡ false
    → has_byte b'|' b ≡ false
    → key a f ≡ key b g
    → (a ≡ b) × (f ≡ g)
unfolding has_byte
key-injective [] [] f g ha hb e = (refl, cc)
key-injective [] (y ∷ b) f g ha hb e = absurd (ground (arith, hb, e))
key-injective (x ∷ a) [] f g ha hb e = absurd (ground (arith, ha, e))
key-injective (x ∷ a) (y ∷ b) f g ha hb e =
    let (ea, ef) =
      key-injective a b f g (ground (arith, ha)) (ground (arith, hb)) (ground (arith, e)) in
    (ground (arith, e, ea), ef)

-- What was set for one instance and log file is what is read for it, and nothing else changes, when
-- the instances' names hold no `|`.
pub memory_get-memory_set :
    (s : MemoryStore) (a f : Bytes) (c : Checkpoint) (b g : Bytes)
    → has_byte b'|' a ≡ false
    → has_byte b'|' b ≡ false
    → (a ≢ b) ⊎ (f ≢ g)
    → (memory_get (memory_set s a f c) a f ≡ some c)
      × (memory_get (memory_set s a f c) b g ≡ memory_get s b g)
unfolding memory_get memory_set
memory_get-memory_set s a f c b g ha hb other = (
  find-put s (key a f) c,
  find-put_ne s (key a f) c (key b g) (λ e.
      let (ea, ef) = key-injective a b f g ha hb e in
      elim other [ inl ne ↦ ne ea | inr ne ↦ ne ef ]),
)
