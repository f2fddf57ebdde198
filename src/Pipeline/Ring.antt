-- ===== src/Pipeline/Ring.antt =====
-- internal/pipeline/worker.go: the per-file memory of records that were shipped, from which a
-- re-read after a restart is de-duplicated. The hash (hash/fnv's FNV-1a) is an argument.
pub mod Window
pub mod Dedupe
use rdstail.Prelude.{
  ℕ, suc, ◌+◌, ◌-◌, ◌*◌, ◌^◌, ◌||◌, Bool, Option, none, some, List, [], ◌∷◌, ◌++◌, Bytes, ltb, leb,
  length, map, update_ℕ, if◌then◌else◌,
}
use rdstail.Record.{LogRecord}

abbrev pub ship_ring_bytes : ℕ
ship_ring_bytes = 2 * 2 ^ 20

abbrev pub ship_ring_max_keys : ℕ
ship_ring_max_keys = 50000

-- shipKey: a record's hash, and its length with the newline
pub record ShipKey : Type 0 where
  pub h : ℕ
  pub n : ℕ

-- shippedRing: `set` is a map to counts, in which a missing key is 0.
pub record ShippedRing : Type 0 where
  pub keys : List ShipKey
  pub bytes : ℕ
  pub set : ℕ → ℕ

abbrev pub empty_ring : ShippedRing
empty_ring = record { keys = []; bytes = 0; set = λ h. 0 }

-- The first loop of rememberShipped, for one record.
unfoldable pub add_key : ShippedRing → ShipKey → ShippedRing
add_key r k = record {
  keys = r.keys ++ k ∷ [];
  bytes = r.bytes + k.n;
  set = update_ℕ r.set k.h (r.set k.h + 1);
}

unfoldable pub add_keys : ShippedRing → List ShipKey → ShippedRing
unfolding add_key
add_keys r [] = r
add_keys r (k ∷ ks) = add_keys (add_key r k) ks

-- The second loop, which drops the oldest keys: `keys` are those from `drop` on.
unfoldable pub drop_oldest : List ShipKey → ℕ → (ℕ → ℕ) → ShippedRing
drop_oldest [] bytes set = record { keys = []; bytes = bytes; set = set }
drop_oldest (old ∷ keys) bytes set =
    let rest = drop_oldest keys (bytes - old.n) (update_ℕ set old.h (set old.h - 1)) in
    let stop : ShippedRing = record { keys = old ∷ keys; bytes = bytes; set = set } in
    if leb ship_ring_bytes (bytes - old.n) || ltb ship_ring_max_keys (suc (length keys))
    then rest
    else stop

module _ (error_key : Bytes → ℕ) where
  abbrev pub ship_key : LogRecord → ShipKey
  ship_key r = record { h = error_key r.message; n = length r.message + 1 }

  -- rememberShipped, on the file's ring
  unfoldable pub remember_shipped : ShippedRing → List LogRecord → ShippedRing
  unfolding add_keys drop_oldest
  remember_shipped r recs =
      let filled = add_keys r (map ship_key recs) in drop_oldest filled.keys filled.bytes filled.set

  -- The loop of dropAlreadyShipped, where the file has a ring: what is kept, and the counts consumed.
  unfoldable pub drop_known : ShippedRing → List LogRecord → (ℕ → ℕ) → List LogRecord × (ℕ → ℕ)
  drop_known r [] consumed = ([], consumed)
  drop_known r (rec ∷ recs) consumed =
      let h = error_key rec.message in
      let (kept, consumed') =
        drop_known r recs
          (if ltb (consumed h) (r.set h) then update_ℕ consumed h (consumed h + 1) else consumed) in
      (if ltb (consumed h) (r.set h) then kept else rec ∷ kept, consumed')

  -- dropAlreadyShipped: a file with no ring keeps everything.
  unfoldable pub drop_already_shipped :
      Option ShippedRing → List LogRecord → (ℕ → ℕ) → List LogRecord × (ℕ → ℕ)
  unfolding drop_known
  drop_already_shipped none recs consumed = (recs, consumed)
  drop_already_shipped (some r) recs consumed = drop_known r recs consumed
