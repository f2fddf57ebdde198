-- ===== src/Pipeline/Drain/Ends.antt =====
-- The rounds that the loop of drainFile needs.
use rdstail.Prelude.{
  ℕ, zero, suc, ◌+◌, ◌≤◌, ◌<◌, ◌≡◌, ◌∙◌, sym, Bool, true, false, inl, inr, [], ◌∷◌, Bytes, arith,
  Bool-cases, Option-cases,
}
use rdstail.Record.{Checkpoint}
use rdstail.Failure.{ok, Result-cases}
use rdstail.Source.FileMeta.{FileMeta}
use rdstail.Source.Portion.{Chunk}
use rdstail.Pipeline.Drain.{pulled, Journal, Outside, Settings, Memory, Drain}
use rdstail.Pipeline.Drain.Absorb.{absorb}
use rdstail.Pipeline.Drain.Flush.{Held, Step, ship_batch, store_ckpt, flush, then_store, hold_back}
use rdstail.Pipeline.Drain.Loop.{turn, turn_chunk, drain_loop, checkpoint_after}

-- How many chunks were read.
abbrev pub pulls : Journal → ℕ
pulls [] = 0
pulls (pulled marker chunk ∷ log) = suc (pulls log)
pulls (e ∷ log) = pulls log

module _ (o : Outside) (file : Bytes) where
  pulls-store_ckpt :
      (h : Held) (d : Drain) (mem : Memory) (log : Journal)
      → pulls (store_ckpt o file h d mem log).log ≡ pulls log
  unfolding store_ckpt
  pulls-store_ckpt h d mem log = ground arith

  pulls-ship_batch :
      (h : Held) (d : Drain) (mem : Memory) (log : Journal)
      → pulls (ship_batch o file h d mem log).log ≡ pulls log
  unfolding ship_batch
  pulls-ship_batch h d mem log = ground arith

  pulls-then_store : (h : Held) (s : Step) → pulls (then_store o file h s).log ≡ pulls s.log
  pulls-then_store h s = ground (arith, pulls-store_ckpt h s.drain s.memory s.log)

  pulls-flush :
      (ckpt : Checkpoint) (hold : Bool) (d : Drain) (mem : Memory) (log : Journal)
      → pulls (flush o file ckpt hold d mem log).log ≡ pulls log
  unfolding flush
  pulls-flush ckpt hold d mem log =
      pulls-then_store (hold_back d ckpt hold) (ship_batch o file (hold_back d ckpt hold) d mem log)
      ∙ pulls-ship_batch (hold_back d ckpt hold) d mem log

lt_of_not-le : (n k : ℕ) → ¬ (n ≤ k) → k < n
lt_of_not-le n k h = omega arith

true≢false : ¬ (true ≡ false)
true≢false e = cc

module _ (o : Outside) (w : Settings) (file : FileMeta) (was : Checkpoint) where
  -- The loop goes on only after a chunk that has more behind it.
  turn_chunk-pulls :
      (chunk : Chunk) (d : Drain) (mem : Memory) (log : Journal)
      → (turn_chunk o w file was chunk d mem log).0 ≡ true
      → (chunk.additional_pending ≡ true)
        × (pulls (turn_chunk o w file was chunk d mem log).1.log ≡ pulls log)
  unfolding turn_chunk
  turn_chunk-pulls chunk d mem log h = ground (
    arith,
    h,
    pulls-flush o file.name (checkpoint_after file chunk d) w.groups_multiline d mem log,
  )

  turn-pulls :
      (d : Drain) (mem : Memory) (log : Journal)
      → (turn o w file was d mem log).0 ≡ true
      → (chunk : Chunk) × (o.pull log file.name d.marker ≡ ok chunk)
        × (chunk.additional_pending ≡ true)
        × (pulls (turn o w file was d mem log).1.log ≡ suc (pulls log))
  unfolding turn
  turn-pulls d mem log h = elim (Option-cases (o.cancelled log)) [
    | inr (e, stopped) ↦ absurd (ground (arith, stopped, h))
    | inl running ↦ elim (Result-cases (o.pull log file.name d.marker)) [
      | inr (e, failed) ↦ absurd (ground (arith, running, failed, h))
      | inl (chunk, read) ↦
          let log' = pulled d.marker chunk ∷ log in
          let (d', mem') = absorb o w file.name (o.now log') chunk d mem in
          let (pending, count) =
            turn_chunk-pulls chunk d' mem' log' (rw (running, turn, read) at h) in
          (chunk, read, pending, rw (running, turn, read) count)
    ]
  ]

  -- If from the n-th read on every answer says that nothing more is pending, then n reads and one more
  -- round are enough fuel, whatever the sink, the store and the context do: the loop has returned.
  pub drain_loop-ends :
      (n fuel : ℕ) (d : Drain) (mem : Memory) (log : Journal)
      → ((log' : Journal) (marker : Bytes) (chunk : Chunk)
          → n ≤ pulls log'
          → o.pull log' file.name marker ≡ ok chunk
          → chunk.additional_pending ≡ false)
      → 0 < fuel
      → n < fuel + pulls log
      → (drain_loop fuel o w file was d mem log).0 ≡ false
  unfolding drain_loop
  drain_loop-ends n zero d mem log quiet some' h = absurd (omega arith)
  drain_loop-ends n (suc fuel) d mem log quiet some' h =
      let s : Step = (turn o w file was d mem log).1 in
      elim (Bool-cases (turn o w file was d mem log).0) [
        | inr stops ↦ rw stops
        | inl goes ↦
            let (chunk, read, pending, count) = turn-pulls d mem log goes in
            let early : pulls log < n =
              lt_of_not-le n (pulls log)
                (λ late. true≢false (sym pending ∙ quiet log d.marker chunk late read)) in
            rw goes (
              drain_loop-ends n fuel s.drain s.memory s.log quiet (omega arith)
                (omega (arith, count)))
      ]
