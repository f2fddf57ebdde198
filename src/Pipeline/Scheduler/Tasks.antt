-- ===== src/Pipeline/Scheduler/Tasks.antt =====
-- The goroutines of the scheduler, and the map that stands for them.
use rdstail.Prelude.{
  ℕ, ◌+◌, ◌==◌, ◌≡◌, ◌≢◌, ◌≤◌, ◌<◌, refl, ap, subst, ◌∙◌, Bool, true, false, not, Option, none,
  some, List, [], ◌∷◌, ◌++◌, Bytes, arith, All, All-map, All-append, All-keep_if, IsIn, first,
  further, All-at, same_iff, length, keep_if, if◌then◌else◌,
}
use rdstail.State.{Entries, find, put, remove}
use rdstail.Pipeline.Scheduler.{
  Task, Phase, polling, leaving, cancel, set_phase, stop_departed, stop_unless, is_polling,
  InstanceSpec,
}

-- What the map should hold.
abbrev pub entries_of : List Task → Entries ℕ
entries_of [] = []
entries_of (t ∷ ts) = (t.key, t.id) ∷ entries_of ts

-- No two tasks have the same key, nor the same number.
abbrev pub IsDistinct : List Task → Type 0
IsDistinct [] = Unit
IsDistinct (t ∷ ts) = All (λ u. (t.key ≢ u.key) × (t.id ≢ u.id)) ts × IsDistinct ts

abbrev pub count_polling : List Task → ℕ
count_polling ts = length (keep_if is_polling ts)

pub put-new : (m : Entries ℕ) (k : Bytes) (v : ℕ) → find m k ≡ none → put m k v ≡ m ++ (k, v) ∷ []
unfolding find put
put-new [] k v h = refl
put-new ((j, u) ∷ m) k v h = ground (arith, h, put-new m k v)

pub entries_of-append :
    (ts : List Task) (t : Task) → entries_of (ts ++ t ∷ []) ≡ entries_of ts ++ (t.key, t.id) ∷ []
entries_of-append [] t = refl
entries_of-append (u ∷ ts) t = ap (λ m. (u.key, u.id) ∷ m) (entries_of-append ts t)

pub find-entries_of :
    (ts : List Task) (k : Bytes) → find (entries_of ts) k ≡ none → All (λ u. u.key ≢ k) ts
unfolding find
find-entries_of [] k h = tt
find-entries_of (t ∷ ts) k h =
    (λ e. ground (arith, h, e, same_iff t.key k), find-entries_of ts k (ground (arith, h)))

pub IsDistinct-append :
    (ts : List Task) (t : Task)
    → IsDistinct ts
    → All (λ u. (u.key ≢ t.key) × (u.id ≢ t.id)) ts
    → IsDistinct (ts ++ t ∷ [])
IsDistinct-append [] t d new = (tt, tt)
IsDistinct-append (u ∷ ts) t d new =
    (All-append _ ts (t ∷ []) d.0 (new.0, tt), IsDistinct-append ts t d.1 new.1)

-- A change of tasks that leaves keys and numbers as they are.
abbrev pub IsSameTasks : List Task → List Task → Type 0
IsSameTasks [] [] = Unit
IsSameTasks (t ∷ ts) (u ∷ us) = (t.key ≡ u.key) × (t.id ≡ u.id) × IsSameTasks ts us
IsSameTasks [] (u ∷ us) = ⊥
IsSameTasks (t ∷ ts) [] = ⊥

pub IsSameTasks-entries_of : (ts us : List Task) → IsSameTasks ts us → entries_of ts ≡ entries_of us
IsSameTasks-entries_of [] [] h = refl
IsSameTasks-entries_of [] (u ∷ us) h = absurd h
IsSameTasks-entries_of (t ∷ ts) [] h = absurd h
IsSameTasks-entries_of (t ∷ ts) (u ∷ us) h =
    ground (arith, h.0, h.1, IsSameTasks-entries_of ts us h.2)

IsSameTasks-All :
    (P : Bytes → ℕ → Type 0) (ts us : List Task)
    → IsSameTasks ts us
    → All (λ t. P t.key t.id) ts
    → All (λ t. P t.key t.id) us
IsSameTasks-All P [] [] h a = tt
IsSameTasks-All P [] (u ∷ us) h a = absurd h
IsSameTasks-All P (t ∷ ts) [] h a = absurd h
IsSameTasks-All P (t ∷ ts) (u ∷ us) h a =
    (subst (P u.key) h.1 (subst (λ k. P k t.id) h.0 a.0), IsSameTasks-All P ts us h.2 a.1)

pub IsSameTasks-bounded :
    (ts us : List Task) (n : ℕ)
    → IsSameTasks ts us
    → All (λ t. t.id < n) ts
    → All (λ t. t.id < n) us
IsSameTasks-bounded ts us n h a = IsSameTasks-All (λ k id. id < n) ts us h a

pub IsSameTasks-IsDistinct : (ts us : List Task) → IsSameTasks ts us → IsDistinct ts → IsDistinct us
IsSameTasks-IsDistinct [] [] h d = tt
IsSameTasks-IsDistinct [] (u ∷ us) h d = absurd h
IsSameTasks-IsDistinct (t ∷ ts) [] h d = absurd h
IsSameTasks-IsDistinct (t ∷ ts) (u ∷ us) h d = (
  IsSameTasks-All (λ k id. (u.key ≢ k) × (u.id ≢ id)) ts us h.2
      (subst (λ i. All (λ w. (u.key ≢ w.key) × (i ≢ w.id)) ts) h.1
        (subst (λ k. All (λ w. (k ≢ w.key) × (t.id ≢ w.id)) ts) h.0 d.0)),
  IsSameTasks-IsDistinct ts us h.2 d.1,
)

pub IsSameTasks-refl : (ts : List Task) → IsSameTasks ts ts
IsSameTasks-refl [] = tt
IsSameTasks-refl (t ∷ ts) = (refl, refl, IsSameTasks-refl ts)

pub IsSameTasks-trans :
    (ts us ws : List Task) → IsSameTasks ts us → IsSameTasks us ws → IsSameTasks ts ws
IsSameTasks-trans [] [] [] h k = tt
IsSameTasks-trans [] [] (w ∷ ws) h k = absurd k
IsSameTasks-trans [] (u ∷ us) ws h k = absurd h
IsSameTasks-trans (t ∷ ts) [] ws h k = absurd h
IsSameTasks-trans (t ∷ ts) (u ∷ us) [] h k = absurd k
IsSameTasks-trans (t ∷ ts) (u ∷ us) (w ∷ ws) h k =
    (h.0 ∙ k.0, h.1 ∙ k.1, IsSameTasks-trans ts us ws h.2 k.2)

pub cancel-IsSameTasks : (id : ℕ) (ts : List Task) → IsSameTasks ts (cancel id ts)
unfolding cancel
cancel-IsSameTasks id [] = tt
cancel-IsSameTasks id (t ∷ ts) = (ground arith, ground arith, cancel-IsSameTasks id ts)

pub set_phase-IsSameTasks :
    (id : ℕ) (phase : Phase) (ts : List Task) → IsSameTasks ts (set_phase id phase ts)
unfolding set_phase
set_phase-IsSameTasks id phase [] = tt
set_phase-IsSameTasks id phase (t ∷ ts) =
    (ground arith, ground arith, set_phase-IsSameTasks id phase ts)

stop_unless-IsSameTasks :
    (o : Option InstanceSpec) (id : ℕ) (ts : List Task) → IsSameTasks ts (stop_unless o id ts)
stop_unless-IsSameTasks (some inst) id ts = IsSameTasks-refl ts
stop_unless-IsSameTasks none id ts = cancel-IsSameTasks id ts

pub stop_departed-IsSameTasks :
    (want : Entries InstanceSpec) (running : Entries ℕ) (ts : List Task)
    → IsSameTasks ts (stop_departed want running ts)
unfolding stop_departed
stop_departed-IsSameTasks want [] ts = IsSameTasks-refl ts
stop_departed-IsSameTasks want ((k, id) ∷ running) ts =
    IsSameTasks-trans ts (stop_unless (find want k) id ts) _
      (stop_unless-IsSameTasks (find want k) id ts)
      (stop_departed-IsSameTasks want running (stop_unless (find want k) id ts))

cancel-polling : (id : ℕ) (ts : List Task) → count_polling (cancel id ts) ≡ count_polling ts
unfolding cancel
cancel-polling id [] = refl
cancel-polling id (t ∷ ts) = ground (arith, cancel-polling id ts)

stop_unless-polling :
    (o : Option InstanceSpec) (id : ℕ) (ts : List Task)
    → count_polling (stop_unless o id ts) ≡ count_polling ts
stop_unless-polling (some inst) id ts = refl
stop_unless-polling none id ts = cancel-polling id ts

pub stop_departed-polling :
    (want : Entries InstanceSpec) (running : Entries ℕ) (ts : List Task)
    → count_polling (stop_departed want running ts) ≡ count_polling ts
unfolding stop_departed
stop_departed-polling want [] ts = refl
stop_departed-polling want ((k, id) ∷ running) ts =
    stop_departed-polling want running (stop_unless (find want k) id ts)
    ∙ stop_unless-polling (find want k) id ts

set_phase-later :
    (id : ℕ) (phase : Phase) (ts : List Task) → All (λ u. id ≢ u.id) ts → set_phase id phase ts ≡ ts
unfolding set_phase
set_phase-later id phase [] h = refl
set_phase-later id phase (t ∷ ts) h = ground (arith, h.0, set_phase-later id phase ts h.1)

-- One more task polls at most.
pub begun-polling :
    (t : Task) (ts : List Task)
    → IsDistinct ts
    → IsIn t ts
    → count_polling (set_phase t.id polling ts) ≤ count_polling ts + 1
unfolding set_phase
begun-polling t [] d h = elim h [ ]
begun-polling t (_ ∷ ts) d first =
    let same_rest = set_phase-later t.id polling ts (All-map _ _ ts (λ u k. k.1) d.0) in
    ground (arith, same_rest)
begun-polling t (u ∷ ts) d (further h) =
    let differ = (All-at _ t ts d.0 h).1 in
    let rest = begun-polling t ts d.1 h in ground (arith, differ, rest)

pub left-polling :
    (id : ℕ) (ts : List Task) → count_polling (set_phase id leaving ts) ≤ count_polling ts
unfolding set_phase
left-polling id [] = omega arith
left-polling id (t ∷ ts) = ground (arith, left-polling id ts)

pub keep_if-polling :
    (p : Task → Bool) (ts : List Task) → count_polling (keep_if p ts) ≤ count_polling ts
keep_if-polling p [] = omega arith
keep_if-polling p (t ∷ ts) = ground (arith, keep_if-polling p ts)

keep_if-later :
    (id : ℕ) (ts : List Task) → All (λ u. id ≢ u.id) ts → keep_if (λ u. not (u.id == id)) ts ≡ ts
keep_if-later id [] h = refl
keep_if-later id (t ∷ ts) h = ground (arith, h.0, keep_if-later id ts h.1)

-- A task that removes itself takes its own entry with it.
pub remove-entries_of :
    (t : Task) (ts : List Task)
    → IsDistinct ts
    → IsIn t ts
    → remove (entries_of ts) t.key ≡ entries_of (keep_if (λ u. not (u.id == t.id)) ts)
unfolding remove
remove-entries_of t [] d h = elim h [ ]
remove-entries_of t (_ ∷ ts) d first =
    let same_rest = keep_if-later t.id ts (All-map _ _ ts (λ u k. k.1) d.0) in
    ground (arith, same_rest, same_iff t.key t.key)
remove-entries_of t (u ∷ ts) d (further h) =
    let differ = All-at _ t ts d.0 h in
    let rest = remove-entries_of t ts d.1 h in
    ground (arith, differ.0, differ.1, rest, same_iff u.key t.key)

pub IsDistinct-keep_if :
    (p : Task → Bool) (ts : List Task) → IsDistinct ts → IsDistinct (keep_if p ts)
IsDistinct-keep_if p [] d = tt
IsDistinct-keep_if p (t ∷ ts) d =
    elim (p t) as (λ b. IsDistinct (if b then t ∷ keep_if p ts else keep_if p ts)) [
      | true ↦ (All-keep_if _ p ts d.0, IsDistinct-keep_if p ts d.1)
      | false ↦ IsDistinct-keep_if p ts d.1
    ]
