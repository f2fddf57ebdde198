-- ===== src/Prelude/Maps.antt =====
-- Go maps that are only read and written, never ranged over, as functions.
use Prim.Native.Nat.{ℕ}
use mathlib.Core.Path.{◌≡◌}
use mathlib.Core.Logic.{◌≢◌}
use native.Mathlib.Omega.{arith}
use rdstail.Prelude.Tests.{◌==◌, if◌then◌else◌}
use rdstail.Prelude.Strings.{Bytes, same, same_iff}

-- m[k] = v, for string keys
abbrev pub update {ℓ} : {V : Type ℓ} → (Bytes → V) → Bytes → V → Bytes → V
update m k v j = if same k j then v else m j

-- m[k] = v, for numeric keys
abbrev pub update_ℕ {ℓ} : {V : Type ℓ} → (ℕ → V) → ℕ → V → ℕ → V
update_ℕ m k v j = if k == j then v else m j

pub update_self {ℓ} : {V : Type ℓ} (m : Bytes → V) (k : Bytes) (v : V) → update m k v k ≡ v
update_self m k v = ground (arith, same_iff k k)

pub update_ne {ℓ} :
    {V : Type ℓ} (m : Bytes → V) (k : Bytes) (v : V) (j : Bytes) → k ≢ j → update m k v j ≡ m j
update_ne m k v j h = ground (arith, same_iff k j)
