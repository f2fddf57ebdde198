-- ===== src/State/File.antt =====
-- internal/state/file/store.go: checkpoints in one JSON document, which each write replaces. The
-- encoding (encoding/json) and which file operations fail are arguments; a document that is there can
-- be read.
pub mod Durable
pub mod Listing
pub mod Precision
use rdstail.Prelude.{
  Bool, Option, none, some, List, [], ◌∷◌, ◌++◌, Bytes, has_prefix, drop, length, if◌then◌else◌,
}
use rdstail.Record.{Checkpoint}
use rdstail.Failure.{Failure, Result, ok, err, other}
use rdstail.State.{Entries, find, put, remove, key, Entry, entry_of, checkpoint_of}

-- The file operations of persistLocked.
pub data FileOp : Type 0 where
  make_dir create_temp sync_temp close_temp remove_temp rename_temp : FileOp
  write_temp : Bytes → FileOp

-- The document at the store's path, and the temporary file.
pub record Disk : Type 0 where
  pub doc : Option Bytes
  pub temp : Option Bytes

unfoldable pub apply_op : FileOp → Disk → Disk
apply_op make_dir d = d
apply_op create_temp d = record d { temp = some [] }
apply_op sync_temp d = d
apply_op close_temp d = d
apply_op remove_temp d = record d { temp = none }
apply_op rename_temp d = record { doc = d.temp; temp = none }
apply_op (write_temp body) d = record d { temp = some body }

unfoldable pub apply_ops : List FileOp → Disk → Disk
unfolding apply_op
apply_ops [] d = d
apply_ops (op ∷ ops) d = apply_ops ops (apply_op op d)

-- persistLocked: its error, and the operations that succeeded, in order. Removing and closing the
-- temporary file after an error are not checked.
unfoldable pub persist : (FileOp → Bool) → Option Bytes → Option Failure × List FileOp
persist fails body =
    let failed : Option Failure = some (other ∷ []) in
    let created : List FileOp = make_dir ∷ create_temp ∷ [] in
    if fails make_dir
    then (failed, [])
    else if fails create_temp
    then (failed, make_dir ∷ [])
    else (elim body [
      | none ↦ (failed, created ++ close_temp ∷ remove_temp ∷ [])
      | some text ↦
          let written = created ++ write_temp text ∷ [] in
          if fails (write_temp text)
          then (failed, created ++ close_temp ∷ remove_temp ∷ [])
          else if fails sync_temp
          then (failed, written ++ close_temp ∷ remove_temp ∷ [])
          else if fails close_temp
          then (failed, written ++ sync_temp ∷ remove_temp ∷ [])
          else if fails rename_temp
          then (failed, written ++ sync_temp ∷ close_temp ∷ remove_temp ∷ [])
          else (none, written ++ sync_temp ∷ close_temp ∷ rename_temp ∷ [])
    ])

-- What Set and Delete leave: their error, the map in memory, and what was done to the disk.
pub record Saved : Type 0 where
  pub failure : Option Failure
  pub entries : Entries Entry
  pub ops : List FileOp

module _ (marshal : Entries Entry → Option Bytes) (unmarshal : Bytes → Option (Entries Entry)) where
  -- load
  unfoldable pub load : Disk → Result (Entries Entry)
  load d = elim d.doc [
    | none ↦ ok []
    | some body ↦ elim body [
      | [] ↦ ok []
      | ◌∷◌ c rest ↦ elim (unmarshal (c ∷ rest)) [ none ↦ err (other ∷ []) | some m ↦ ok m ]
    ]
  ]

  unfoldable pub save : (FileOp → Bool) → Entries Entry → Saved
  unfolding persist
  save fails m =
      let (e, ops) = persist fails (marshal m) in record { failure = e; entries = m; ops = ops }

  -- Set
  unfoldable pub file_set : (FileOp → Bool) → Entries Entry → Bytes → Bytes → Checkpoint → Saved
  unfolding save put entry_of
  file_set fails m instance_id logfile c = save fails (put m (key instance_id logfile) (entry_of c))

  -- Delete
  unfoldable pub file_delete : (FileOp → Bool) → Entries Entry → Bytes → Bytes → Saved
  unfolding save remove
  file_delete fails m instance_id logfile = save fails (remove m (key instance_id logfile))

abbrev read_entry : Option Entry → Option Checkpoint
read_entry none = none
read_entry (some e) = some (checkpoint_of e)

-- Get
unfoldable pub file_get : Entries Entry → Bytes → Bytes → Option Checkpoint
unfolding find checkpoint_of
file_get m instance_id logfile = read_entry (find m (key instance_id logfile))

-- List: each entry whose key has the prefix, a key that is only the prefix included.
unfoldable pub file_list : Entries Entry → Bytes → List (Bytes × Checkpoint)
unfolding has_prefix checkpoint_of
file_list [] instance_id = []
file_list ((k, e) ∷ m) instance_id =
    let prefix = instance_id ++ b'|' ∷ [] in
    let rest = file_list m instance_id in
    if has_prefix k prefix then (drop (length prefix) k, checkpoint_of e) ∷ rest else rest
