-- ===== src/State.antt =====
-- internal/state: the checkpoints by instance and log file, as the backends keep
-- them. A Go map is a list of pairs with distinct keys; its order is not relied on.
pub mod Table
pub mod File
pub mod Sqlite
pub mod Dlq
use rdstail.Prelude.{
  ℕ, ◌+◌, ◌-◌, ◌*◌, ◌/◌, ◌^◌, Bool, true, false, Option, none, some, List, [], ◌∷◌, ◌++◌, Bytes,
  leb, ltb, same, has_prefix, length, drop, if◌then◌else◌,
}
use rdstail.Prelude.Int.{ℤ, pos, negsuc, negate}
use rdstail.Record.{Checkpoint, Time}
use rdstail.Source.FileMeta.{unix_epoch, unix_milli}

-- map[string]V
abbrev pub Entries {ℓ} : Type ℓ → Type ℓ
Entries V = List (Bytes × V)

-- m[k]
unfoldable pub find {ℓ} : {V : Type ℓ} → Entries V → Bytes → Option V
find [] k = none
find ((j, v) ∷ m) k = if same j k then some v else find m k

-- m[k] = v
unfoldable pub put {ℓ} : {V : Type ℓ} → Entries V → Bytes → V → Entries V
put [] k v = (k, v) ∷ []
put ((j, u) ∷ m) k v = if same j k then (j, v) ∷ m else (j, u) ∷ put m k v

-- delete(m, k)
unfoldable pub remove {ℓ} : {V : Type ℓ} → Entries V → Bytes → Entries V
remove [] k = []
remove ((j, u) ∷ m) k = if same j k then m else (j, u) ∷ remove m k

-- key
abbrev pub key : Bytes → Bytes → Bytes
key instance_id logfile = instance_id ++ b'|' ∷ logfile

-- Store of the memory backend
abbrev pub MemoryStore : Type 0
MemoryStore = Entries Checkpoint

unfoldable pub memory_get : MemoryStore → Bytes → Bytes → Option Checkpoint
unfolding find
memory_get s instance_id logfile = find s (key instance_id logfile)

unfoldable pub memory_set : MemoryStore → Bytes → Bytes → Checkpoint → MemoryStore
unfolding put
memory_set s instance_id logfile c = put s (key instance_id logfile) c

unfoldable pub memory_delete : MemoryStore → Bytes → Bytes → MemoryStore
unfolding remove
memory_delete s instance_id logfile = remove s (key instance_id logfile)

-- List: a key that is only the prefix is left out.
unfoldable pub memory_list : MemoryStore → Bytes → List (Bytes × Checkpoint)
memory_list [] instance_id = []
memory_list ((k, c) ∷ s) instance_id =
    let prefix = instance_id ++ b'|' ∷ [] in
    let rest = memory_list s instance_id in
    if ltb (length prefix) (length k)
    then (if has_prefix k prefix then (drop (length prefix) k, c) ∷ rest else rest)
    else rest

-- entry, of the file backend
pub record Entry : Type 0 where
  pub marker : Bytes
  pub bytes_written : ℕ
  pub file_size : ℕ
  pub last_written_ms : ℤ
  pub skip_cont : Bool

-- t.UnixMilli(), which rounds down
unfoldable pub to_unix_milli : Time → ℤ
to_unix_milli t =
    if leb unix_epoch t
    then pos ((t - unix_epoch) / 10 ^ 6)
    else negate ((unix_epoch - t + (10 ^ 6 - 1)) / 10 ^ 6)

-- What Set keeps of a checkpoint.
unfoldable pub entry_of : Checkpoint → Entry
unfolding to_unix_milli
entry_of c = record {
  marker = c.marker;
  bytes_written = c.bytes_written;
  file_size = c.file_size;
  last_written_ms = to_unix_milli c.last_written;
  skip_cont = c.skip_continuation;
}

abbrev pub time_of : ℤ → Time
time_of (pos ms) = if ltb 0 ms then unix_milli ms else 0
time_of (negsuc n) = 0

-- What Get and List make of an entry.
unfoldable pub checkpoint_of : Entry → Checkpoint
checkpoint_of e = record {
  marker = e.marker;
  bytes_written = e.bytes_written;
  file_size = e.file_size;
  last_written = time_of e.last_written_ms;
  skip_continuation = e.skip_cont;
}
