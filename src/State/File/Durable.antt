-- ===== src/State/File/Durable.antt =====
-- The document after a write of the store, also when the process dies.
use rdstail.Prelude.{
  ℕ, zero, suc, take, ◌≡◌, ◌≢◌, ◌⊎◌, ◌∙◌, refl, inl, inr, Bool, true, false, Option, none, some,
  List, [], ◌∷◌, Bytes, arith, Option-cases,
}
use rdstail.Record.{Checkpoint}
use rdstail.Failure.{Failure, ok}
use rdstail.State.{Entries, Entry, entry_of, checkpoint_of, key, put}
use rdstail.State.Table.{find-put}
use rdstail.State.File.{
  FileOp, make_dir, create_temp, sync_temp, close_temp, remove_temp, rename_temp, write_temp, Disk,
  apply_ops, persist, load, save, file_set, file_get,
}

persist_failed :
    (fails : FileOp → Bool) (body : Option Bytes) (d : Disk) (e : Failure)
    → (persist fails body).0 ≡ some e
    → (apply_ops (persist fails body).1 d).doc ≡ d.doc
unfolding persist apply_ops
persist_failed fails none d e h = ground (arith, h)
persist_failed fails (some t) d e h = ground (arith, h)

persist_done :
    (fails : FileOp → Bool) (body : Option Bytes) (d : Disk)
    → (persist fails body).0 ≡ none
    → ((apply_ops (persist fails body).1 d).doc ≡ body) × (body ≢ none)
unfolding persist apply_ops
persist_done fails none d h = absurd (ground (arith, h))
persist_done fails (some t) d h = (ground (arith, h), ground arith)

-- The document is only replaced by the last operation.
abbrev renames_last : List FileOp → Bool
renames_last [] = true
renames_last (rename_temp ∷ []) = true
renames_last (rename_temp ∷ op ∷ ops) = false
renames_last (op ∷ ops) = renames_last ops

renames_last-persist :
    (fails : FileOp → Bool) (body : Option Bytes) → renames_last (persist fails body).1 ≡ true
unfolding persist
renames_last-persist fails none = ground arith
renames_last-persist fails (some t) = ground arith

apply_ops-take :
    (n : ℕ) (ops : List FileOp) (d : Disk)
    → renames_last ops ≡ true
    → ((apply_ops (take n ops) d).doc ≡ d.doc)
      ⊎ ((apply_ops (take n ops) d).doc ≡ (apply_ops ops d).doc)
unfolding apply_ops
apply_ops-take zero [] d h = inl refl
apply_ops-take (suc n) [] d h = inl refl
apply_ops-take zero (op ∷ ops) d h = inl refl
apply_ops-take (suc zero) (rename_temp ∷ []) d h = inr refl
apply_ops-take (suc (suc n)) (rename_temp ∷ []) d h = inr refl
apply_ops-take (suc n) (rename_temp ∷ op ∷ ops) d h = absurd (ground (arith, h))
apply_ops-take (suc n) (make_dir ∷ ops) d h = apply_ops-take n ops d h
apply_ops-take (suc n) (create_temp ∷ ops) d h =
    apply_ops-take n ops (record d { temp = some [] }) h
apply_ops-take (suc n) (sync_temp ∷ ops) d h = apply_ops-take n ops d h
apply_ops-take (suc n) (close_temp ∷ ops) d h = apply_ops-take n ops d h
apply_ops-take (suc n) (remove_temp ∷ ops) d h = apply_ops-take n ops (record d { temp = none }) h
apply_ops-take (suc n) (write_temp t ∷ ops) d h =
    apply_ops-take n ops (record d { temp = some t }) h

load-doc :
    (marshal : Entries Entry → Option Bytes) (unmarshal : Bytes → Option (Entries Entry)) (d : Disk)
    (body : Option Bytes) (m : Entries Entry)
    → ((text : Bytes) → body ≡ some text → (text ≢ []) × (unmarshal text ≡ some m))
    → (d.doc ≡ body) × (body ≢ none)
    → load marshal unmarshal d ≡ ok m
unfolding load
load-doc marshal unmarshal d none m decodes (e, some') = absurd (some' refl)
load-doc marshal unmarshal d (some []) m decodes h = absurd ((decodes [] refl).0 refl)
load-doc marshal unmarshal d (some (c ∷ text)) m decodes (e, some') =
    rw (e, (decodes (c ∷ text) refl).1, load) refl

module _ (marshal : Entries Entry → Option Bytes) (unmarshal : Bytes → Option (Entries Entry))
    (fails : FileOp → Bool) (m : Entries Entry) (instance_id logfile : Bytes) (c : Checkpoint)
    (d : Disk) where
  -- If the process dies after any number of the file operations of a Set, the document is the one
  -- from before, or Set succeeds and the document is the encoded map with the new checkpoint.
  pub file_set-crash :
      (n : ℕ)
      → let saved = file_set marshal unmarshal fails m instance_id logfile c in
        ((apply_ops (take n saved.ops) d).doc ≡ d.doc)
        ⊎ ((saved.failure ≡ none) × ((apply_ops (take n saved.ops) d).doc ≡ marshal saved.entries))
  unfolding file_set save
  file_set-crash n =
      let body = marshal (put m (key instance_id logfile) (entry_of c)) in
      elim (apply_ops-take n (persist fails body).1 d (renames_last-persist fails body)) [
        | inl old ↦ inl old
        | inr whole ↦ elim (Option-cases (persist fails body).0) [
          | inl done ↦ inr (done, whole ∙ (persist_done fails body d done).0)
          | inr (e, failed) ↦ inl (whole ∙ persist_failed fails body d e failed)
        ]
      ]

  -- When Set returns nil, a store that is opened on the disk afterwards reads the entry that was set,
  -- if what the new map is encoded to is not empty and decodes to the map.
  pub file_set-load :
      let saved = file_set marshal unmarshal fails m instance_id logfile c in
      ((body : Bytes)
        → marshal saved.entries ≡ some body
        → (body ≢ []) × (unmarshal body ≡ some saved.entries))
      → saved.failure ≡ none
      → (m' : Entries Entry) × (load marshal unmarshal (apply_ops saved.ops d) ≡ ok m')
        × (file_get m' instance_id logfile ≡ some (checkpoint_of (entry_of c)))
  unfolding file_set save load file_get
  file_set-load decodes done =
      let m' = put m (key instance_id logfile) (entry_of c) in
      (
        m',
        load-doc marshal unmarshal (apply_ops (persist fails (marshal m')).1 d) (marshal m') m'
            decodes (persist_done fails (marshal m') d done),
        rw (find-put m (key instance_id logfile) (entry_of c)) refl,
      )
