-- ===== src/Pipeline/Parallel/Chained.antt =====
-- That each wave of parallelDrain is read from where the one before it ended.
use rdstail.Prelude.{
  ℕ, zero, suc, ◌+◌, ◌*◌, ◌/◌, ◌≡◌, inl, inr, refl, subst, Bool, Option, none, some, List, [], ◌∷◌,
  Bytes, map, arith, leb, Bool-cases, Option-cases,
}
use rdstail.Prelude.Int.{pos, negsuc}
use rdstail.Record.{LogRecord, Checkpoint}
use rdstail.Failure.{Failure}
use rdstail.Source.FileMeta.{FileMeta}
use rdstail.Source.Marker.{offset_marker, make_marker}
use rdstail.Source.Lines.{parse_records}
use rdstail.Pipeline.Drain.{Journal, Outside, Settings, Memory}
use rdstail.Pipeline.Drain.Journal.{reached, IsChained}
use rdstail.Pipeline.Parallel.{
  Ranged, Waves, Round, returned, goes_on, read_one, wave_ranges, join_tiles, cut_wave, store_wave,
  ship_wave, take_wave, wave, wave_ckpt, shipped_wave, noted_wave, stamped_wave, drain_waves,
  parallel_drain, parallel_segment,
}
use rdstail.Pipeline.Parallel.Tracking.{Tiled-cases, Round-cases}

-- The reads are chained; where parallelDrain has not failed, the checkpoint is where they have come to.
abbrev pub ReachedWaves : Bytes → Waves → Type 0
ReachedWaves start p = IsChained start p.log × (p.prev.marker ≡ reached start p.log)

abbrev pub LeavesChained : Bytes → Round → Type 0
LeavesChained start (returned (some e) q) = IsChained start q.log
LeavesChained start (returned none q) = ReachedWaves start q
LeavesChained start (goes_on q) = ReachedWaves start q

module _ (o : Outside) (x : Ranged) (w : Settings) (file : FileMeta) (prefix : Bytes) (reads : ℕ)
    (start : Bytes) where
  store_wave-LeavesChained :
      (is_last : Bool) (wave_end : ℕ) (p : Waves)
      → IsChained start p.log
      → make_marker prefix wave_end ≡ reached start p.log
      → LeavesChained start (store_wave o x w file prefix reads is_last wave_end p)
  unfolding store_wave
  store_wave-LeavesChained is_last wave_end p chained here =
      let ckpt = wave_ckpt o x w file prefix reads wave_end p in
      elim (Option-cases (o.set p.log file.name ckpt)) [
        | inr (e, bad) ↦ rw (bad, LeavesChained) chained
        | inl good ↦ elim (Bool-cases is_last) [
          | inl over ↦ rw (good, over, LeavesChained) (chained, here)
          | inr more ↦ rw (good, more, LeavesChained) (chained, here)
        ]
      ]

  ship_wave-LeavesChained :
      (is_last : Bool) (recs : List LogRecord) (wave_end : ℕ) (p : Waves)
      → IsChained start p.log
      → make_marker prefix wave_end ≡ reached start p.log
      → LeavesChained start (ship_wave o x w file prefix reads is_last recs wave_end p)
  unfolding ship_wave
  ship_wave-LeavesChained is_last [] wave_end p chained here =
      store_wave-LeavesChained is_last wave_end p chained here
  ship_wave-LeavesChained is_last (r ∷ recs) wave_end p chained here =
      elim (Option-cases (o.write p.log (r ∷ recs))) [
        | inr (e, bad) ↦ rw (bad, LeavesChained) chained
        | inl good ↦
            rw (good, LeavesChained)
              (store_wave-LeavesChained is_last wave_end
                (shipped_wave o x w file prefix reads (r ∷ recs) p) chained here)
      ]

  take_wave-LeavesChained :
      (is_last : Bool) (cut : Option (List LogRecord × ℕ)) (p : Waves)
      → ReachedWaves start p
      → LeavesChained start (take_wave o x w file prefix reads is_last cut p)
  unfolding take_wave
  take_wave-LeavesChained is_last none p reach = reach
  take_wave-LeavesChained is_last (some (recs, stop)) p reach = elim (Bool-cases (leb stop p.off)) [
    | inl nothing ↦ rw (nothing, LeavesChained) reach
    | inr more ↦
        let stamped = stamped_wave o x w file prefix reads recs stop p in
        rw (more, LeavesChained)
          (ship_wave-LeavesChained is_last stamped stop
            (noted_wave o x w file prefix reads stamped stop p) (reach.1, reach.0) refl)
  ]

  wave-LeavesChained :
      (p : Waves) → ReachedWaves start p → LeavesChained start (wave o x w file prefix reads p)
  unfolding wave
  wave-LeavesChained p reach =
      let is_last = leb file.size (p.off + reads * parallel_segment) in
      let ranges = wave_ranges is_last file.size p.off 0 reads in
      elim (Tiled-cases (join_tiles [] p.off (map (read_one x p.log) ranges))) [
        | inl (e, bad) ↦ rw (bad, LeavesChained) reach.0
        | inr (inl apart) ↦ rw (apart, LeavesChained) reach
        | inr (inr (joined, at, fits)) ↦
            rw (fits, LeavesChained)
              (take_wave-LeavesChained is_last
                (cut_wave is_last joined at (parse_records (x.context p.log) file.name joined).0) p
                reach)
      ]

  drain_waves-LeavesChained :
      (n : ℕ) (p q : Waves) (f : Option Failure)
      → ReachedWaves start p
      → drain_waves o x w file prefix reads n p ≡ some (f, q)
      → LeavesChained start (returned f q)
  unfolding drain_waves
  drain_waves-LeavesChained zero p q f reach h = absurd (ground (arith, h))
  drain_waves-LeavesChained (suc n) p q f reach h =
      elim (Bool-cases (leb (p.off + reads * parallel_segment / 2) file.size)) [
        | inr few ↦
            let f_is : none ≡ f = ground (arith, few, h) in
            let q_is : p ≡ q = ground (arith, few, h) in rw (← f_is, ← q_is) reach
        | inl enough ↦ elim (Option-cases (o.cancelled p.log)) [
          | inr (e, ended) ↦
              let f_is : some e ≡ f = ground (arith, enough, ended, h) in
              let q_is : p ≡ q = ground (arith, enough, ended, h) in rw (← f_is, ← q_is) reach.0
          | inl live ↦ elim (Round-cases (wave o x w file prefix reads p)) [
            | inl (g, r, over) ↦
                let f_is : g ≡ f = ground (arith, enough, live, over, h) in
                let q_is : r ≡ q = ground (arith, enough, live, over, h) in
                rw (← f_is, ← q_is) (subst (LeavesChained start) over (wave-LeavesChained p reach))
            | inr (r, next) ↦
                drain_waves-LeavesChained n r q f
                  (subst (LeavesChained start) next (wave-LeavesChained p reach))
                  (ground (arith, enough, live, next, h))
          ]
        ]
      ]

-- Whatever the ranges, the sink, the store and the context answer: if parallelDrain begins where the
-- reads before it have come to, each of its waves begins where the one before it ended, and where it
-- returns no error the checkpoint that it leaves is where the last one ended.
pub parallel_drain-LeavesChained :
    (n : ℕ) (o : Outside) (x : Ranged) (w : Settings) (file : FileMeta) (reads : ℕ)
    (prev : Checkpoint) (mem : Memory) (log : Journal) (f : Option Failure) (q : Waves)
    (start : Bytes)
    → IsChained start log
    → prev.marker ≡ reached start log
    → parallel_drain n o x w file reads prev mem log ≡ some (f, q)
    → LeavesChained start (returned f q)
unfolding parallel_drain
parallel_drain-LeavesChained n o x w file reads prev mem log f q start chained here h =
    let begin : ℕ → Waves =
      λ off. record { prev = prev; off = off; shipped = 0; memory = mem; log = log } in
    elim (Option-cases (offset_marker prev.marker)) [
      | inl nowhere ↦
          let f_is : none ≡ f = ground (arith, nowhere, h) in
          let q_is : begin 0 ≡ q = ground (arith, nowhere, h) in rw (← f_is, ← q_is) (chained, here)
      | inr ((prefix, pos from), there) ↦
          drain_waves-LeavesChained o x w file prefix reads start n (begin from) q f (chained, here)
            (ground (arith, there, h))
      | inr ((prefix, negsuc k), there) ↦ absurd (ground (arith, there, h))
    ]
