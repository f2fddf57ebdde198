-- ===== src/Pipeline/Drain/Safety.antt =====
-- The checkpoints that the loop of drainFile stores, and the text that the sink acknowledged.
use rdstail.Prelude.{
  ℕ, zero, suc, ◌≡◌, ◌∙◌, refl, ap, sym, Bool, true, false, inl, inr, Option, none, some, List, ◌∷◌,
  ◌++◌, Bytes, Bool-cases, Option-cases, append-nil,
}
use rdstail.Record.{LogRecord, Checkpoint, text}
use rdstail.Failure.{Failure, Result-cases}
use rdstail.Source.FileMeta.{FileMeta}
use rdstail.Source.Portion.{Chunk}
use rdstail.Pipeline.Errors.{is_error_running_log}
use rdstail.Pipeline.Drain.{pulled, Journal, Outside, Settings, Memory, Drain}
use rdstail.Pipeline.Drain.Absorb.{absorb}
use rdstail.Pipeline.Drain.Absorbed.{Inv, absorb-Inv}
use rdstail.Pipeline.Drain.Flush.{Step}
use rdstail.Pipeline.Drain.Flushed.{IsFlushed, flush-IsFlushed}
use rdstail.Pipeline.Drain.Journal.{pulled_text, delivered_text, AllSafe}
use rdstail.Pipeline.Drain.Loop.{
  turn, turn_chunk, drain_loop, end_poll, checkpoint_after, must_flush, is_ok,
}

-- What a round leaves.
record IsTurned (more : Bool) (s : Step) : Type 0 where
  safe : AllSafe s.log
  goes_on : more ≡ true → Inv s.drain s.log
  ended : more ≡ false → s.failure ≡ none → delivered_text s.log ≡ pulled_text s.log

is_ok-none : (f : Option Failure) → is_ok f ≡ true → f ≡ none
is_ok-none none h = refl
is_ok-none (some e) h = cc

is_ok-fails : (f : Option Failure) → is_ok f ≡ false → ¬ (f ≡ none)
is_ok-fails none h e = cc
is_ok-fails (some x) h e = cc

-- The last flush of a poll leaves nothing pending.
flushed_all :
    (log : Journal) (s : Step)
    → IsFlushed false log s
    → s.failure ≡ none
    → delivered_text s.log ≡ pulled_text s.log
flushed_all log s f e =
    sym (
      ap (λ (rs : List LogRecord). delivered_text s.log ++ text rs) (f.emptied e refl)
      ∙ append-nil (delivered_text s.log))
    ∙ (f.goes_on e).conserved

end_poll-IsTurned :
    (file : FileMeta) (was : Checkpoint) (log : Journal) (s : Step)
    → IsFlushed false log s
    → IsTurned false (end_poll file was s)
unfolding end_poll
end_poll-IsTurned file was log s f = elim (Bool-cases (is_ok s.failure)) [
  | inl fine ↦
      rw fine (record { safe = f.safe; goes_on = λ e. cc; ended = λ _ e. flushed_all log s f e })
  | inr fails ↦
      rw fails (record { safe = f.safe; goes_on = λ e. cc; ended = λ _ e. flushed_all log s f e })
]

module _ (o : Outside) (w : Settings) (file : FileMeta) (was : Checkpoint) where
  turn_chunk-IsTurned :
      (chunk : Chunk) (d : Drain) (mem : Memory) (log : Journal) (marker : Bytes)
      → Inv d (pulled marker chunk ∷ log)
      → IsTurned
          (turn_chunk o w file was chunk d mem (pulled marker chunk ∷ log)).0
          (turn_chunk o w file was chunk d mem (pulled marker chunk ∷ log)).1
  unfolding turn_chunk
  turn_chunk-IsTurned chunk d mem log marker inv =
      let log' = pulled marker chunk ∷ log in
      let ckpt = checkpoint_after file chunk d in
      elim (Bool-cases chunk.additional_pending) [
        | inr last ↦ simp last (
            end_poll-IsTurned file was log' _
              (flush-IsFlushed o file.name ckpt false d mem log' inv refl))
        | inl more ↦ simp more (elim (Bool-cases (must_flush w d)) [
          | inr waits ↦ simp waits (record { safe = inv.safe; goes_on = λ _. inv; ended = λ e. cc })
          | inl full ↦
              let f = flush-IsFlushed o file.name ckpt w.groups_multiline d mem log' inv refl in
              simp full (record {
                safe = f.safe;
                goes_on = λ e. f.goes_on (is_ok-none _ e);
                ended = λ e fine. absurd (is_ok-fails _ e fine);
              })
        ])
      ]

  module _ (ordinary : is_error_running_log file.name ≡ false) where
    turn-IsTurned :
        (d : Drain) (mem : Memory) (log : Journal)
        → Inv d log
        → IsTurned (turn o w file was d mem log).0 (turn o w file was d mem log).1
    unfolding turn
    turn-IsTurned d mem log inv = elim (Option-cases (o.cancelled log)) [
      | inr (e, stopped) ↦
          rw (stopped, turn) (record { safe = inv.safe; goes_on = λ e. cc; ended = λ _ e. cc })
      | inl running ↦ (elim (Result-cases (o.pull log file.name d.marker)) [
        | inr (e, failed) ↦
            rw (running, turn, failed)
              (record { safe = inv.safe; goes_on = λ e. cc; ended = λ _ e. cc })
        | inl (chunk, read) ↦
            let log' = pulled d.marker chunk ∷ log in
            let next = absorb o w file.name (o.now log') chunk d mem in
            rw (running, turn, read)
              (turn_chunk-IsTurned chunk next.0 next.1 log d.marker
                (absorb-Inv o w file.name (o.now log') chunk d mem log ordinary inv))
      ])
    ]

    -- From the invariant, after any number of rounds: every checkpoint stored was safe, and if the
    -- loop has returned with no error, the sink acknowledged exactly the text that was read.
    pub drain_loop-safe :
        (fuel : ℕ) (d : Drain) (mem : Memory) (log : Journal)
        → Inv d log
        → AllSafe (drain_loop fuel o w file was d mem log).1.log
          × ((drain_loop fuel o w file was d mem log).0 ≡ false
              → (drain_loop fuel o w file was d mem log).1.failure ≡ none
              → delivered_text (drain_loop fuel o w file was d mem log).1.log
                ≡ pulled_text (drain_loop fuel o w file was d mem log).1.log)
    unfolding drain_loop
    drain_loop-safe zero d mem log inv = (inv.safe, λ e. cc)
    drain_loop-safe (suc fuel) d mem log inv =
        let s : Step = (turn o w file was d mem log).1 in
        let t = turn-IsTurned d mem log inv in
        elim (Bool-cases (turn o w file was d mem log).0) [
          | inl goes ↦ rw goes (drain_loop-safe fuel s.drain s.memory s.log (t.goes_on goes))
          | inr stops ↦ rw stops (t.safe, λ _ fine. t.ended stops fine)
        ]
