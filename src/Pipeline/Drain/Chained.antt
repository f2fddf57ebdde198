-- ===== src/Pipeline/Drain/Chained.antt =====
-- That each read of drainFile's loop begins where the read before it ended.
use rdstail.Prelude.{
  ℕ, zero, suc, ◌≡◌, ◌∙◌, sym, Bool, true, false, inl, inr, ◌∷◌, Bytes, arith, Bool-cases,
  Option-cases,
}
use rdstail.Record.{Checkpoint, Time}
use rdstail.Failure.{Result-cases}
use rdstail.Source.FileMeta.{FileMeta}
use rdstail.Source.Portion.{Chunk}
use rdstail.Pipeline.Drain.{pulled, Journal, Outside, Settings, Memory, Drain}
use rdstail.Pipeline.Drain.Absorb.{absorb, take_front}
use rdstail.Pipeline.Drain.Flush.{Step, Held, hold_back, ship_batch, store_ckpt, then_store, flush}
use rdstail.Pipeline.Drain.Journal.{reached, IsChained}
use rdstail.Pipeline.Drain.Loop.{
  turn, turn_chunk, drain_loop, end_poll, checkpoint_after, must_flush, is_ok,
}

-- No read was added, and reading goes on at the same marker.
record IsStill (start : Bytes) (d : Drain) (log : Journal) (s : Step) : Type 0 where
  chained : IsChained start log → IsChained start s.log
  place : reached start s.log ≡ reached start log
  marker : s.drain.marker ≡ d.marker

module _ (o : Outside) (file start : Bytes) where
  store_ckpt-IsStill :
      (h : Held) (d : Drain) (mem : Memory) (log : Journal)
      → IsStill start d log (store_ckpt o file h d mem log)
  unfolding store_ckpt
  store_ckpt-IsStill h d mem log = record {
    chained = λ c. ground (arith, c);
    place = ground arith;
    marker = ground arith;
  }

  ship_batch-IsStill :
      (h : Held) (d : Drain) (mem : Memory) (log : Journal)
      → IsStill start d log (ship_batch o file h d mem log)
  unfolding ship_batch
  ship_batch-IsStill h d mem log = record {
    chained = λ c. ground (arith, c);
    place = ground arith;
    marker = ground arith;
  }

  then_store-IsStill :
      (h : Held) (d : Drain) (log : Journal) (s : Step)
      → IsStill start d log s
      → IsStill start d log (then_store o file h s)
  then_store-IsStill h d log s still = elim (Option-cases s.failure) [
    | inr (e, failed) ↦ rw (failed, then_store) still
    | inl fine ↦
        let next = store_ckpt-IsStill h s.drain s.memory s.log in
        rw (fine, then_store)
          (record {
            chained = λ c. next.chained (still.chained c);
            place = next.place ∙ still.place;
            marker = next.marker ∙ still.marker;
          })
  ]

  flush-IsStill :
      (ckpt : Checkpoint) (hold : Bool) (d : Drain) (mem : Memory) (log : Journal)
      → IsStill start d log (flush o file ckpt hold d mem log)
  unfolding flush
  flush-IsStill ckpt hold d mem log =
      let h = hold_back d ckpt hold in
      then_store-IsStill h d log (ship_batch o file h d mem log) (ship_batch-IsStill h d mem log)

absorb-marker :
    (o : Outside) (w : Settings) (file : Bytes) (now : Time) (chunk : Chunk) (d : Drain)
    (mem : Memory)
    → (absorb o w file now chunk d mem).0.marker ≡ chunk.next_marker
unfolding absorb take_front
absorb-marker o w file now chunk d mem = ground arith

-- The reads are chained, and where the loop goes on, it goes on where they have come to.
abbrev pub Follows : Bytes → Bool → Step → Type 0
Follows start more s = IsChained start s.log × (more ≡ true → s.drain.marker ≡ reached start s.log)

module _ (o : Outside) (w : Settings) (file : FileMeta) (was : Checkpoint) (start : Bytes) where
  end_poll-Follows : (s : Step) → IsChained start s.log → Follows start false (end_poll file was s)
  unfolding end_poll
  end_poll-Follows s chained = elim (Bool-cases (is_ok s.failure)) [
    | inl fine ↦ rw fine (chained, λ more. cc)
    | inr fails ↦ rw fails (chained, λ more. cc)
  ]

  turn_chunk-Follows :
      (chunk : Chunk) (d : Drain) (mem : Memory) (log : Journal)
      → IsChained start log
      → d.marker ≡ reached start log
      → Follows start
          (turn_chunk o w file was chunk d mem log).0
          (turn_chunk o w file was chunk d mem log).1
  unfolding turn_chunk
  turn_chunk-Follows chunk d mem log chained here =
      let ckpt = checkpoint_after file chunk d in
      elim (Bool-cases chunk.additional_pending) [
        | inr last ↦ simp last (
            end_poll-Follows (flush o file.name ckpt false d mem log)
              ((flush-IsStill o file.name start ckpt false d mem log).chained chained))
        | inl more ↦ simp more (elim (Bool-cases (must_flush w d)) [
          | inr waits ↦ simp waits (chained, λ _. here)
          | inl full ↦
              let still = flush-IsStill o file.name start ckpt w.groups_multiline d mem log in
              simp full (still.chained chained, λ _. still.marker ∙ here ∙ sym still.place)
        ])
      ]

  turn-Follows :
      (d : Drain) (mem : Memory) (log : Journal)
      → IsChained start log
      → d.marker ≡ reached start log
      → Follows start (turn o w file was d mem log).0 (turn o w file was d mem log).1
  unfolding turn
  turn-Follows d mem log chained here = elim (Option-cases (o.cancelled log)) [
    | inr (e, stopped) ↦ rw (stopped, turn) (chained, λ more. cc)
    | inl running ↦ elim (Result-cases (o.pull log file.name d.marker)) [
      | inr (e, failed) ↦ rw (running, turn, failed) (chained, λ more. cc)
      | inl (chunk, read) ↦
          let log' = pulled d.marker chunk ∷ log in
          let next = absorb o w file.name (o.now log') chunk d mem in
          rw (running, turn, read)
            (turn_chunk-Follows chunk next.0 next.1 log' (here, chained)
              (absorb-marker o w file.name (o.now log') chunk d mem))
    ]
  ]

  -- If the reads before are chained and the loop begins where they have come to, then after any number
  -- of rounds, whatever the API, the sink, the store and the context answer, all reads are chained.
  pub drain_loop-IsChained :
      (fuel : ℕ) (d : Drain) (mem : Memory) (log : Journal)
      → IsChained start log
      → d.marker ≡ reached start log
      → IsChained start (drain_loop fuel o w file was d mem log).1.log
  unfolding drain_loop
  drain_loop-IsChained zero d mem log chained here = chained
  drain_loop-IsChained (suc fuel) d mem log chained here =
      let s : Step = (turn o w file was d mem log).1 in
      let f = turn-Follows d mem log chained here in
      elim (Bool-cases (turn o w file was d mem log).0) [
        | inl goes ↦ rw goes (drain_loop-IsChained fuel s.drain s.memory s.log f.0 (f.1 goes))
        | inr stops ↦ rw stops f.0
      ]
