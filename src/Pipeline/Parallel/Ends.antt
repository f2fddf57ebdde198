-- ===== src/Pipeline/Parallel/Ends.antt =====
-- That parallelDrain returns.
use rdstail.Prelude.{
  ℕ, zero, suc, ◌+◌, ◌-◌, ◌*◌, ◌/◌, ◌≤◌, ◌<◌, ◌≡◌, ◌≢◌, inl, inr, refl, subst, Bool, true, false,
  Option, none, some, List, [], ◌∷◌, Bytes, arith, leb, Bool-cases, Option-cases, map,
}
use rdstail.Prelude.Int.{pos, negsuc}
use rdstail.Record.{LogRecord, Checkpoint}
use rdstail.Failure.{Failure}
use rdstail.Source.FileMeta.{FileMeta}
use rdstail.Source.Marker.{offset_marker}
use rdstail.Source.Lines.{parse_records}
use rdstail.Pipeline.Drain.{Journal, Outside, Settings, Memory}
use rdstail.Pipeline.Parallel.{
  Ranged, Waves, Round, returned, goes_on, read_one, wave_ranges, join_tiles, cut_wave, store_wave,
  ship_wave, take_wave, wave, wave_ckpt, shipped_wave, noted_wave, stamped_wave, drain_waves,
  parallel_drain, parallel_segment,
}
use rdstail.Pipeline.Parallel.Tracking.{Tiled-cases, Round-cases}

module _ (o : Outside) (x : Ranged) (w : Settings) (file : FileMeta) (prefix : Bytes)
    (reads : ℕ) where
  -- A round that goes on has come further.
  abbrev Advances : ℕ → Round → Type 0
  Advances off (returned f q) = Unit
  Advances off (goes_on q) = off < q.off

  store_wave-Advances :
      (is_last : Bool) (wave_end off : ℕ) (p : Waves)
      → off < wave_end
      → Advances off (store_wave o x w file prefix reads is_last wave_end p)
  unfolding store_wave
  store_wave-Advances true wave_end off p h =
      elim (Option-cases (o.set p.log file.name (wave_ckpt o x w file prefix reads wave_end p))) [
        | inr (e, bad) ↦ rw (bad, Advances) tt
        | inl good ↦ rw (good, Advances) tt
      ]
  store_wave-Advances false wave_end off p h =
      elim (Option-cases (o.set p.log file.name (wave_ckpt o x w file prefix reads wave_end p))) [
        | inr (e, bad) ↦ rw (bad, Advances) tt
        | inl good ↦ rw (good, Advances) h
      ]

  ship_wave-Advances :
      (is_last : Bool) (recs : List LogRecord) (wave_end off : ℕ) (p : Waves)
      → off < wave_end
      → Advances off (ship_wave o x w file prefix reads is_last recs wave_end p)
  unfolding ship_wave
  ship_wave-Advances is_last [] wave_end off p h = store_wave-Advances is_last wave_end off p h
  ship_wave-Advances is_last (r ∷ recs) wave_end off p h =
      elim (Option-cases (o.write p.log (r ∷ recs))) [
        | inr (e, bad) ↦ rw (bad, Advances) tt
        | inl good ↦
            rw (good, Advances)
              (store_wave-Advances is_last wave_end off
                (shipped_wave o x w file prefix reads (r ∷ recs) p) h)
      ]

  take_wave-Advances :
      (is_last : Bool) (cut : Option (List LogRecord × ℕ)) (p : Waves)
      → Advances p.off (take_wave o x w file prefix reads is_last cut p)
  unfolding take_wave
  take_wave-Advances is_last none p = tt
  take_wave-Advances is_last (some (recs, stop)) p = elim (Bool-cases (leb stop p.off)) [
    | inl nothing ↦ rw (nothing, Advances) tt
    | inr more ↦
        let stamped = stamped_wave o x w file prefix reads recs stop p in
        rw (more, Advances)
          (ship_wave-Advances is_last stamped stop p.off
            (noted_wave o x w file prefix reads stamped stop p) (ground (arith, more)))
  ]

  wave-Advances : (p : Waves) → Advances p.off (wave o x w file prefix reads p)
  unfolding wave
  wave-Advances p =
      let is_last = leb file.size (p.off + reads * parallel_segment) in
      let ranges = wave_ranges is_last file.size p.off 0 reads in
      elim (Tiled-cases (join_tiles [] p.off (map (read_one x p.log) ranges))) [
        | inl (e, bad) ↦ rw (bad, Advances) tt
        | inr (inl apart) ↦ rw (apart, Advances) tt
        | inr (inr (joined, at, fits)) ↦
            rw (fits, Advances)
              (take_wave-Advances is_last
                (cut_wave is_last joined at (parse_records (x.context p.log) file.name joined).0) p)
      ]

  drain_waves-returns :
      (n : ℕ) (p : Waves)
      → 1 ≤ reads
      → file.size - p.off < n
      → (r : Option Failure × Waves) × (drain_waves o x w file prefix reads n p ≡ some r)
  unfolding drain_waves
  drain_waves-returns zero p many h = absurd (omega (arith, h))
  drain_waves-returns (suc n) p many h =
      elim (Bool-cases (leb (p.off + reads * parallel_segment / 2) file.size)) [
        | inr few ↦ rw few (_, refl)
        | inl enough ↦ elim (Option-cases (o.cancelled p.log)) [
          | inr (e, ended) ↦ rw enough (rw ended (_, refl))
          | inl live ↦ elim (Round-cases (wave o x w file prefix reads p)) [
            | inl (f, q, over) ↦ rw enough (rw live (rw over (_, refl)))
            | inr (q, next) ↦
                let further : p.off < q.off = subst (Advances p.off) next (wave-Advances p) in
                let backlog : p.off + reads * parallel_segment / 2 ≤ file.size =
                  ground (arith, enough) in
                rw enough (
                  rw live (
                    rw next
                      (drain_waves-returns n q many (omega (arith, h, further, backlog, many)))))
          ]
        ]
      ]

-- parallelDrain returns after at most as many waves as the file has bytes and one more, whatever the
-- ranges, the sink, the store and the context answer, if it reads at least one range at once and the
-- checkpoint's offset is not negative.
pub parallel_drain-returns :
    (n : ℕ) (o : Outside) (x : Ranged) (w : Settings) (file : FileMeta) (reads : ℕ)
    (prev : Checkpoint) (mem : Memory) (log : Journal)
    → 1 ≤ reads
    → file.size < n
    → ((prefix : Bytes) (k : ℕ) → offset_marker prev.marker ≢ some (prefix, negsuc k))
    → (r : Option Failure × Waves) × (parallel_drain n o x w file reads prev mem log ≡ some r)
unfolding parallel_drain
parallel_drain-returns n o x w file reads prev mem log many h valid =
    elim (Option-cases (offset_marker prev.marker)) [
      | inl none_found ↦ rw (none_found, parallel_drain) (_, refl)
      | inr ((prefix, pos from), there) ↦
          rw (there, parallel_drain)
            (drain_waves-returns o x w file prefix reads n _ many (omega (arith, h)))
      | inr ((prefix, negsuc k), there) ↦ absurd (valid prefix k there)
    ]
