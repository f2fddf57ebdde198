-- ===== src/Pipeline/Parallel/Tracking.antt =====
-- That each round of parallelDrain keeps track of what it delivered.
use rdstail.Prelude.{
  ℕ, zero, suc, ◌+◌, ◌-◌, ◌*◌, ◌/◌, ◌≡◌, ◌⊎◌, inl, inr, refl, sym, subst, ◌∙◌, Bool, true, false,
  Option, none, some, List, [], ◌∷◌, Bytes, map, arith, append-nil, leb, if◌then◌else◌, Bool-cases,
  Option-cases,
}
use rdstail.Prelude.Int.{pos}
use rdstail.Record.{LogRecord, Checkpoint, text}
use rdstail.Failure.{Failure}
use rdstail.Source.FileMeta.{FileMeta}
use rdstail.Source.Marker.{offset_marker}
use rdstail.Source.Lines.{parse_records}
use rdstail.Source.Lines.Conservation.{text-parse_records}
use rdstail.Pipeline.Drain.{delivered, Journal, Outside, Settings, Memory}
use rdstail.Pipeline.Drain.Journal.{delivered_text}
use rdstail.Pipeline.Parallel.{
  Ranged, Waves, Round, returned, goes_on, Tiled, tiled, untiled, unread, read_one, wave_ranges,
  join_tiles, store_wave, ship_wave, take_wave, wave, wave_ckpt, shipped_wave, noted_wave,
  stamped_wave, drain_waves, parallel_drain, parallel_segment,
}
use rdstail.Pipeline.Parallel.Lines.{starts_line, no_blanks, line_text-split_on}
use rdstail.Pipeline.Parallel.Pieces.{IsOwned-IsPiece}
use rdstail.Pipeline.Parallel.Cutting.{Spans, join_tiles-Spans, cut_wave-Spans}
use rdstail.Pipeline.Parallel.Safety.{
  ReadsOwned, DeliveredUpTo, Ships, ships_base, ships_wave, ships_batch, ships_write_failed,
  ships_store_failed, ships_stored, IsTracked, IsFailed, DeliveredUpTo-append, text-stamped,
}

pub Tiled-cases :
    (t : Tiled)
    → ((e : Failure) × (t ≡ unread e))
      ⊎ ((t ≡ untiled) ⊎ ((joined : Bytes) × (at : ℕ) × (t ≡ tiled joined at)))
Tiled-cases (unread e) = inl (e, refl)
Tiled-cases untiled = inr (inl refl)
Tiled-cases (tiled joined at) = inr (inr (joined, at, refl))

pub Round-cases :
    (r : Round)
    → ((f : Option Failure) × (q : Waves) × (r ≡ returned f q)) ⊎ ((q : Waves) × (r ≡ goes_on q))
Round-cases (returned f q) = inl (f, q, refl)
Round-cases (goes_on q) = inr (q, refl)

module _ (o : Outside) (x : Ranged) (w : Settings) (file : FileMeta) (prefix : Bytes) (reads : ℕ)
    (content : Bytes) (from : ℕ) (prev : Checkpoint) (base : Journal) where
  abbrev Tracked : Waves → Type 0
  Tracked = IsTracked content prefix from prev base

  -- After a round: where it returned no error, and where it goes on, all is tracked.
  abbrev pub IsKept : Round → Type 0
  IsKept (returned f q) = Ships content prefix from base q.log × (IsFailed f ⊎ Tracked q)
  IsKept (goes_on q) = Tracked q

  store_wave-IsKept :
      (is_last : Bool) (wave_end : ℕ) (p : Waves)
      → DeliveredUpTo content from base wave_end p.log
      → Ships content prefix from base p.log
      → IsKept (store_wave o x w file prefix reads is_last wave_end p)
  unfolding store_wave
  store_wave-IsKept true wave_end p done ships =
      let ckpt = wave_ckpt o x w file prefix reads wave_end p in
      elim (Option-cases (o.set p.log file.name ckpt)) [
        | inr (e, bad) ↦ rw (bad, IsKept) (ships_store_failed ships, inl (e, refl))
        | inl good ↦
            let kept = ships_stored ckpt wave_end refl done ships in
            rw (good, IsKept) (kept, inr (record { upto = done; ships = kept; place = inr refl }))
      ]
  store_wave-IsKept false wave_end p done ships =
      let ckpt = wave_ckpt o x w file prefix reads wave_end p in
      elim (Option-cases (o.set p.log file.name ckpt)) [
        | inr (e, bad) ↦ rw (bad, IsKept) (ships_store_failed ships, inl (e, refl))
        | inl good ↦
            let kept = ships_stored ckpt wave_end refl done ships in
            rw (good, IsKept) (record { upto = done; ships = kept; place = inr refl })
      ]

  ship_wave-IsKept :
      (is_last : Bool) (front : Bytes) (recs : List LogRecord) (wave_end : ℕ) (p : Waves)
      → DeliveredUpTo content from base p.off p.log
      → Ships content prefix from base p.log
      → Spans content p.off front wave_end
      → text recs ≡ no_blanks true front
      → IsKept (ship_wave o x w file prefix reads is_last recs wave_end p)
  unfolding ship_wave
  ship_wave-IsKept is_last front [] wave_end p done ships spans texts =
      store_wave-IsKept is_last wave_end p
        (DeliveredUpTo-append content from p.off wave_end base p.log p.log front [] done spans
          (sym (append-nil (delivered_text p.log))) texts)
        ships
  ship_wave-IsKept is_last front (r ∷ recs) wave_end p done ships spans texts =
      elim (Option-cases (o.write p.log (r ∷ recs))) [
        | inr (e, bad) ↦ rw (bad, IsKept) (ships_write_failed ships, inl (e, refl))
        | inl good ↦
            rw (good, IsKept)
              (store_wave-IsKept is_last wave_end
                (shipped_wave o x w file prefix reads (r ∷ recs) p)
                (DeliveredUpTo-append content from p.off wave_end base p.log
                  (delivered (r ∷ recs) ∷ p.log) front (text (r ∷ recs)) done spans refl texts)
                (ships_batch (r ∷ recs) ships))
      ]

  take_wave-IsKept :
      (is_last : Bool) (cut : Option (List LogRecord × ℕ)) (p : Waves)
      → Tracked p
      → ((recs : List LogRecord) (stop : ℕ)
          → cut ≡ some (recs, stop)
          → (front : Bytes) × Spans content p.off front stop × (text recs ≡ no_blanks true front))
      → IsKept (take_wave o x w file prefix reads is_last cut p)
  unfolding take_wave
  take_wave-IsKept is_last none p tracked fronts = (tracked.ships, inr tracked)
  take_wave-IsKept is_last (some (recs, stop)) p tracked fronts =
      let (front, spans, texts) = fronts recs stop refl in
      elim (Bool-cases (leb stop p.off)) [
        | inl nothing ↦ rw (nothing, IsKept) (tracked.ships, inr tracked)
        | inr more ↦
            let stamped = stamped_wave o x w file prefix reads recs stop p in
            rw (more, IsKept)
              (ship_wave-IsKept is_last front stamped stop
                (noted_wave o x w file prefix reads stamped stop p) tracked.upto
                (ships_wave _ _ _ tracked.ships) spans (text-stamped _ _ recs ∙ texts))
      ]

  module _ (owned : ReadsOwned content x) where
    wave-IsKept : (p : Waves) → Tracked p → IsKept (wave o x w file prefix reads p)
    unfolding wave starts_line
    wave-IsKept p tracked =
        let is_last = leb file.size (p.off + reads * parallel_segment) in
        let ranges = wave_ranges is_last file.size p.off 0 reads in
        elim (Tiled-cases (join_tiles [] p.off (map (read_one x p.log) ranges))) [
          | inl (e, bad) ↦ rw (bad, IsKept) (tracked.ships, inl (e, refl))
          | inr (inl apart) ↦ rw (apart, IsKept) (tracked.ships, inr tracked)
          | inr (inr (joined, at, fits)) ↦
              let spans =
                join_tiles-Spans content p.off (read_one x p.log)
                  (λ r v good.
                    IsOwned-IsPiece content (if r.line_start then r.start else r.start - 1)
                      r.line_start r.end v.0 v.1
                      (owned p.log r.start r.end r.line_start v.0 v.1 good))
                  ranges [] joined p.off at (refl, omega arith, refl) fits in
              rw (fits, IsKept)
                (take_wave-IsKept is_last _ p tracked (λ recs stop.
                  cut_wave-Spans content p.off is_last joined at stop
                    (parse_records (x.context p.log) file.name joined).0 recs spans
                    (text-parse_records (x.context p.log) file.name joined
                      ∙ line_text-split_on joined)))
        ]

    drain_waves-IsKept :
        (n : ℕ) (p q : Waves) (f : Option Failure)
        → Tracked p
        → drain_waves o x w file prefix reads n p ≡ some (f, q)
        → IsKept (returned f q)
    unfolding drain_waves
    drain_waves-IsKept zero p q f tracked h = absurd (ground (arith, h))
    drain_waves-IsKept (suc n) p q f tracked h =
        elim (Bool-cases (leb (p.off + reads * parallel_segment / 2) file.size)) [
          | inr few ↦
              let f_is : none ≡ f = ground (arith, few, h) in
              let q_is : p ≡ q = ground (arith, few, h) in
              rw (← f_is, ← q_is) (tracked.ships, inr tracked)
          | inl enough ↦ elim (Option-cases (o.cancelled p.log)) [
            | inr (e, ended) ↦
                let f_is : some e ≡ f = ground (arith, enough, ended, h) in
                let q_is : p ≡ q = ground (arith, enough, ended, h) in
                rw (← f_is, ← q_is) (tracked.ships, inl (e, refl))
            | inl live ↦ elim (Round-cases (wave o x w file prefix reads p)) [
              | inl (g, r, over) ↦
                  let f_is : g ≡ f = ground (arith, enough, live, over, h) in
                  let q_is : r ≡ q = ground (arith, enough, live, over, h) in
                  rw (← f_is, ← q_is) (subst IsKept over (wave-IsKept p tracked))
              | inr (r, next) ↦
                  drain_waves-IsKept n r q f (subst IsKept next (wave-IsKept p tracked))
                    (ground (arith, enough, live, next, h))
            ]
          ]
        ]

-- parallelDrain ships the file's lines. Whatever the sink and the store answer, if each range that
-- ReadRange reads holds the lines that the file owns in it: whenever a checkpoint was stored, what was
-- delivered since the start is the text of the file, without its empty lines, from the offset of the
-- checkpoint at the start up to the offset that the stored marker has; and where parallelDrain returns no
-- error, the same holds of the checkpoint that it leaves for the sequential reading.
pub parallel_drain-Ships :
    (n : ℕ) (o : Outside) (x : Ranged) (w : Settings) (file : FileMeta) (reads : ℕ)
    (prev : Checkpoint) (mem : Memory) (log : Journal) (content prefix : Bytes) (from : ℕ)
    (f : Option Failure) (q : Waves)
    → ReadsOwned content x
    → offset_marker prev.marker ≡ some (prefix, pos from)
    → parallel_drain n o x w file reads prev mem log ≡ some (f, q)
    → Ships content prefix from log q.log × (IsFailed f ⊎ IsTracked content prefix from prev log q)
unfolding parallel_drain starts_line no_blanks
parallel_drain-Ships n o x w file reads prev mem log content prefix from f q owned place h =
    let start : Waves = record { prev = prev; off = from; shipped = 0; memory = mem; log = log } in
    drain_waves-IsKept o x w file prefix reads content from prev log owned n start q f
      (record {
        upto = ([], (refl, omega arith, refl), sym (append-nil (delivered_text log)));
        ships = ships_base;
        place = inl (refl, refl);
      })
      (ground (arith, place, h))
