-- ===== src/State/File/Listing.antt =====
-- What List of the file store returns.
use rdstail.Prelude.{
  ◌≡◌, ◌&&◌, refl, sym, ap, ◌∙◌, [], ◌∷◌, ◌++◌, Bytes, same, has_prefix, drop, length, arith,
  append_assoc,
}
use rdstail.State.{Entries, find, key, Entry}
use rdstail.State.File.{file_get, file_list}

same-append : (k p f : Bytes) → same k (p ++ f) ≡ (has_prefix k p && same (drop (length p) k) f)
unfolding same has_prefix
same-append k [] f = refl
same-append [] (x ∷ p) f = refl
same-append (y ∷ k) (x ∷ p) f = ground (arith, same-append k p f)

same-key :
    (k a f : Bytes)
    → same k (key a f)
      ≡ (has_prefix k (a ++ b'|' ∷ []) && same (drop (length (a ++ b'|' ∷ [])) k) f)
same-key k a f = ap (same k) (sym (append_assoc a (b'|' ∷ []) f)) ∙ same-append k (a ++ b'|' ∷ []) f

-- List of the file store has, for each file of the instance, what Get returns of it.
pub find-file_list :
    (m : Entries Entry) (instance_id logfile : Bytes)
    → find (file_list m instance_id) logfile ≡ file_get m instance_id logfile
unfolding file_list file_get find
find-file_list [] a f = refl
find-file_list ((k, e) ∷ m) a f = ground (arith, same-key k a f, find-file_list m a f)
