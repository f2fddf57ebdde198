-- ===== src/Pipeline/Drain/Flushed.antt =====
-- The checkpoint that a flush of a plain drain stores.
use rdstail.Prelude.{
  is_empty, ◌≡◌, ◌⊎◌, ◌∙◌, refl, sym, ap, Bool, true, false, not, ◌&&◌, inl, inr, none, some, List,
  [], ◌∷◌, ◌++◌, Bytes, arith, append_assoc, append-nil, init, last, Option-cases, Bool-cases,
  init-append-last, same, subst,
}
use rdstail.Record.{LogRecord, Checkpoint, text}
use rdstail.Source.Lines.Conservation.{text-append}
use rdstail.Pipeline.Drain.{delivered, stored, Journal, Outside, Memory, Drain}
use rdstail.Pipeline.Drain.Absorbed.{IsPlain, Inv}
use rdstail.Pipeline.Drain.Flush.{Held, hold_back, Step, ship_batch, store_ckpt, flush, then_store}
use rdstail.Pipeline.Drain.Journal.{
  pulled_text, delivered_text, read_up_to, CoversBefore, CoversBefore-cons, IsSafe, AllSafe,
}

-- What the batch, the held record and the checkpoint are when the batch is to be shipped next, and
-- `done` is the text that is then delivered.
record IsReady (last_start : Bytes) (h : Held) (log : Journal) (done : Bytes) : Type 0 where
  accounted : done ++ text h.carry ≡ pulled_text log
  inits : init h.carry ≡ []
  resumes :
      ((h.carry ≡ []) × (read_up_to log ≡ some h.ckpt.marker))
      ⊎ ((h.ckpt.marker ≡ last_start) × CoversBefore log last_start done)

init-last : (rs : List LogRecord) → init (last rs) ≡ []
init-last [] = refl
init-last (r ∷ []) = refl
init-last (r ∷ r' ∷ rs) = init-last (r' ∷ rs)

hold_back-IsReady :
    (d : Drain) (ckpt : Checkpoint) (hold : Bool) (log : Journal)
    → Inv d log
    → read_up_to log ≡ some ckpt.marker
    → IsReady d.last_start
        (hold_back d ckpt hold)
        log
        (delivered_text log ++ text (hold_back d ckpt hold).batch)
unfolding hold_back
hold_back-IsReady d ckpt hold log inv read = elim (Bool-cases (hold && not (is_empty d.pending))) [
  | inl held ↦ rw held (record {
    accounted =
        append_assoc (delivered_text log) (text (init d.pending)) (text (last d.pending))
        ∙ (ap (λ (t : Bytes). delivered_text log ++ t)
              (sym (text-append (init d.pending) (last d.pending))
                ∙ ap text (init-append-last d.pending))
            ∙ inv.conserved);
    inits = init-last d.pending;
    resumes = inr (refl, inv.begun (ground (arith, held)));
  })
  | inr whole ↦ rw whole (record {
    accounted = append-nil (delivered_text log ++ text d.pending) ∙ inv.conserved;
    inits = refl;
    resumes = inl (refl, read);
  })
]

-- After a flush from a journal: what is stored is safe, and on success the invariant goes on.
pub record IsFlushed (hold : Bool) (log : Journal) (s : Step) : Type 0 where
  pub safe : AllSafe s.log
  pub reads : read_up_to s.log ≡ read_up_to log
  pub pulls : pulled_text s.log ≡ pulled_text log
  pub goes_on : s.failure ≡ none → Inv s.drain s.log
  pub emptied : s.failure ≡ none → hold ≡ false → s.drain.pending ≡ []

-- With only the carry pending the invariant holds again.
ready-Inv :
    (d : Drain) (h : Held) (log : Journal)
    → IsPlain d
    → AllSafe log
    → d.pending ≡ h.carry
    → IsReady d.last_start h log (delivered_text log)
    → Inv d log
ready-Inv d h log plain safe carry ready = record {
  plain = plain;
  conserved = ap (λ (rs : List LogRecord). delivered_text log ++ text rs) carry ∙ ready.accounted;
  begun = λ some'. elim ready.resumes [
    | inl (none', _) ↦ absurd (ground (arith, some', carry, none'))
    | inr (_, covers) ↦ rw (carry, ready.inits, append-nil (delivered_text log)) covers
  ];
  safe = safe;
}

ready-IsSafe :
    (last_start : Bytes) (h : Held) (log : Journal)
    → IsReady last_start h log (delivered_text log)
    → IsSafe h.ckpt log
ready-IsSafe last_start h log ready = record {
  held = text h.carry;
  accounted = ready.accounted;
  resumes = elim ready.resumes [
    | inl (none', read) ↦ inl (ap text none', read)
    | inr (at, covers) ↦ inr (rw at covers)
  ];
}

-- A checkpoint that is stored is an event more.
IsReady-stored :
    (last_start : Bytes) (h : Held) (log : Journal)
    → IsReady last_start h log (delivered_text log)
    → IsReady last_start h (stored h.ckpt ∷ log) (delivered_text log)
IsReady-stored last_start h log ready = record {
  accounted = ready.accounted;
  inits = ready.inits;
  resumes = elim ready.resumes [
    | inl whole ↦ inl whole
    | inr (at, covers) ↦ inr (at, CoversBefore-cons (stored h.ckpt) covers)
  ];
}

module _ (o : Outside) (file : Bytes) (h : Held) where
  store_ckpt-IsFlushed :
      (d : Drain) (mem : Memory) (log : Journal) (hold : Bool)
      → IsPlain d
      → AllSafe log
      → d.pending ≡ h.carry
      → (hold ≡ false → h.carry ≡ [])
      → IsReady d.last_start h log (delivered_text log)
      → IsFlushed hold log (store_ckpt o file h d mem log)
  unfolding store_ckpt
  store_ckpt-IsFlushed d mem log hold plain safe carry held ready =
      elim (Bool-cases (same h.ckpt.marker d.prev.marker && not (is_empty h.carry))) [
        | inl stays ↦ rw stays (record {
          safe = safe;
          reads = refl;
          pulls = refl;
          goes_on = λ _. ready-Inv d h log plain safe carry ready;
          emptied = λ _ e. carry ∙ held e;
        })
        | inr moves ↦ rw moves (elim (Option-cases (o.set log file h.ckpt)) [
          | inr (e, failed) ↦ rw failed (record {
            safe = safe;
            reads = refl;
            pulls = refl;
            goes_on = λ e. cc;
            emptied = λ e. cc;
          })
          | inl done ↦ rw done (record {
            safe = (ready-IsSafe d.last_start h log ready, safe);
            reads = refl;
            pulls = refl;
            goes_on = λ _.
                ready-Inv (record d { prev = h.ckpt; restarted = false }) h (stored h.ckpt ∷ log)
                  (record {
                    dedupe = plain.dedupe;
                    drop_first = plain.drop_first;
                    skip_leading = plain.skip_leading;
                  })
                  (ready-IsSafe d.last_start h log ready, safe) carry
                  (IsReady-stored d.last_start h log ready);
            emptied = λ _ e. carry ∙ held e;
          })
        ])
      ]

hold_back-carry :
    (d : Drain) (ckpt : Checkpoint) (hold : Bool)
    → hold ≡ false
    → (hold_back d ckpt hold).carry ≡ []
unfolding hold_back
hold_back-carry d ckpt hold h = ground (arith, h)

is_empty-eq : (rs : List LogRecord) → is_empty rs ≡ true → rs ≡ []
is_empty-eq [] h = refl
is_empty-eq (r ∷ rs) h = cc

-- A batch that is shipped is an event more.
IsReady-shipped :
    (last_start : Bytes) (h : Held) (log : Journal)
    → IsReady last_start h log (delivered_text log ++ text h.batch)
    → IsReady last_start h (delivered h.batch ∷ log) (delivered_text log ++ text h.batch)
IsReady-shipped last_start h log ready = record {
  accounted = ready.accounted;
  inits = ready.inits;
  resumes = elim ready.resumes [
    | inl whole ↦ inl whole
    | inr (at, covers) ↦ inr (at, CoversBefore-cons (delivered h.batch) covers)
  ];
}

-- With no batch, nothing has to be shipped.
IsReady-nothing :
    (last_start : Bytes) (h : Held) (log : Journal)
    → h.batch ≡ []
    → IsReady last_start h log (delivered_text log ++ text h.batch)
    → IsReady last_start h log (delivered_text log)
IsReady-nothing last_start h log e ready =
    subst (IsReady last_start h log)
      (ap (λ (rs : List LogRecord). delivered_text log ++ text rs) e
        ∙ append-nil (delivered_text log))
      ready

IsFlushed-shipped :
    (hold : Bool) (recs : List LogRecord) (log : Journal) (s : Step)
    → IsFlushed hold (delivered recs ∷ log) s
    → IsFlushed hold log s
IsFlushed-shipped hold recs log s f = record {
  safe = f.safe;
  reads = f.reads;
  pulls = f.pulls;
  goes_on = f.goes_on;
  emptied = f.emptied;
}

IsPlain-as :
    (d e : Drain)
    → IsPlain d
    → e.dedupe ≡ d.dedupe
    → e.drop_first ≡ d.drop_first
    → e.skip_leading ≡ d.skip_leading
    → IsPlain e
IsPlain-as d e p a b c = record {
  dedupe = a ∙ p.dedupe;
  drop_first = b ∙ p.drop_first;
  skip_leading = c ∙ p.skip_leading;
}

module _ (o : Outside) (file : Bytes) (ckpt : Checkpoint) (hold : Bool) (d : Drain) (mem : Memory)
    (log : Journal) where
  ship_then_store :
      (h : Held)
      → Inv d log
      → (hold ≡ false → h.carry ≡ [])
      → IsReady d.last_start h log (delivered_text log ++ text h.batch)
      → IsFlushed hold log (then_store o file h (ship_batch o file h d mem log))
  unfolding ship_batch
  ship_then_store h inv held ready = elim (Bool-cases (is_empty h.batch)) [
    | inl nothing ↦ rw (nothing) (
        store_ckpt-IsFlushed o file h (record d { pending = h.carry }) mem log hold
          (IsPlain-as d _ inv.plain refl refl refl) inv.safe refl held
          (IsReady-nothing d.last_start h log (is_empty-eq h.batch nothing) ready))
    | inr some' ↦ rw (some') (elim (Option-cases (o.write log h.batch)) [
      | inr (e, failed) ↦ rw failed (record {
        safe = inv.safe;
        reads = refl;
        pulls = refl;
        goes_on = λ e. cc;
        emptied = λ e. cc;
      })
      | inl done ↦ rw done (
          IsFlushed-shipped hold h.batch log _ (
            store_ckpt-IsFlushed o file h _ _ (delivered h.batch ∷ log) hold
              (IsPlain-as d _ inv.plain refl refl refl) inv.safe refl held
              (IsReady-shipped d.last_start h log ready)))
    ])
  ]

  -- A flush of a plain drain: whatever the sink and the store answer, each checkpoint that is stored
  -- is safe; and when both succeed, the invariant holds again.
  pub flush-IsFlushed :
      Inv d log
      → read_up_to log ≡ some ckpt.marker
      → IsFlushed hold log (flush o file ckpt hold d mem log)
  unfolding flush
  flush-IsFlushed inv read =
      ship_then_store (hold_back d ckpt hold) inv (hold_back-carry d ckpt hold)
        (hold_back-IsReady d ckpt hold log inv read)
