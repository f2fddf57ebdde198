-- ===== src/Pipeline/Errors.antt =====
-- internal/pipeline/worker.go: the memory of mysql-error.log records, from which
-- mysql-error-running.log is de-duplicated. A map from hashes to times is a list of pairs with
-- distinct keys. Both operations hold errMu.
use rdstail.Prelude.{
  ℕ, ◌+◌, ◌-◌, ◌*◌, ◌/◌, ◌||◌, Bool, false, not, List, [], ◌∷◌, Bytes, ltb, leb, ◌==◌, length,
  keep_if, codes, has_prefix, Option, none, some, drop, suc, same, if◌then◌else◌,
}
use rdstail.Record.{LogRecord, Time}
use rdstail.Pipeline.Restart.{minute}
use rdstail.Text.{last_index_byte}

abbrev pub recent_errors_ttl : ℕ
recent_errors_ttl = 60 * minute

abbrev pub recent_errors_max : ℕ
recent_errors_max = 200000

-- The fields recentErrors and errPruned of a worker.
pub record Errors : Type 0 where
  pub recent : List (ℕ × Time)
  pub pruned : Time

abbrev after_slash : Bytes → Option ℕ → Bytes
after_slash name none = name
after_slash name (some i) = drop (suc i) name

-- path.Base of a name that does not end in a slash
unfoldable pub base_name : Bytes → Bytes
unfolding last_index_byte
base_name name = after_slash name (last_index_byte b'/' name)

-- isErrorLog
unfoldable pub is_error_log : Bytes → Bool
unfolding base_name same
is_error_log name = same (base_name name) (codes "mysql-error.log")

-- isErrorRunningLog
unfoldable pub is_error_running_log : Bytes → Bool
unfolding base_name has_prefix
is_error_running_log name = has_prefix (base_name name) (codes "mysql-error-running.log")

-- Drops the entries older than `ttl`.
abbrev pub prune : ℕ → Time → List (ℕ × Time) → List (ℕ × Time)
prune ttl now m = keep_if (λ e. not (ltb ttl (now - e.1))) m

unfoldable pub insert : ℕ → Time → List (ℕ × Time) → List (ℕ × Time)
insert k t [] = (k, t) ∷ []
insert k t ((j, u) ∷ m) = if j == k then (k, t) ∷ m else (j, u) ∷ insert k t m

unfoldable pub has_key : ℕ → List (ℕ × Time) → Bool
has_key k [] = false
has_key k ((j, u) ∷ m) = j == k || has_key k m

module _ (error_key : Bytes → ℕ) where
  unfoldable pub insert_all : Time → List LogRecord → List (ℕ × Time) → List (ℕ × Time)
  unfolding insert
  insert_all now [] m = m
  insert_all now (r ∷ recs) m =
      let rest = insert_all now recs (insert (error_key r.message) now m) in
      if leb recent_errors_max (length m) then m else rest

  -- rememberErrors
  unfoldable pub remember_errors : Time → List LogRecord → Errors → Errors
  unfolding insert_all
  remember_errors now recs e = record e {
    recent = insert_all now recs (
        if ltb recent_errors_max (length e.recent + length recs)
        then prune (recent_errors_ttl / 4) now e.recent
        else e.recent);
  }

  abbrev expire : Time → Errors → Errors
  expire now e =
      if ltb minute (now - e.pruned)
      then record { recent = prune recent_errors_ttl now e.recent; pruned = now }
      else e

  abbrev first_seen : List LogRecord → Errors → Bool
  first_seen [] e = false
  first_seen (r ∷ recs) e = has_key (error_key r.message) e.recent

  -- dropShippedErrors: what is kept, whether the first record was dropped, and the memory
  unfoldable pub drop_shipped_errors :
      Time → List LogRecord → Errors → List LogRecord × Bool × Errors
  unfolding has_key
  drop_shipped_errors now recs e =
      let e' = expire now e in
      (keep_if (λ r. not (has_key (error_key r.message) e'.recent)) recs, first_seen recs e', e')
