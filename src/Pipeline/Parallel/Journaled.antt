-- ===== src/Pipeline/Parallel/Journaled.antt =====
-- That parallelDrain leaves the journal as drainFile's loop finds it: nothing pending, and each
-- checkpoint that was stored safe.
use rdstail.Prelude.{
  ℕ, zero, suc, ◌+◌, ◌*◌, ◌/◌, ◌≡◌, ◌⊎◌, inl, inr, refl, sym, subst, ◌∙◌, Bool, Option, none, some,
  List, [], ◌∷◌, ◌++◌, Bytes, map, arith, append-nil, leb, Bool-cases, Option-cases, ap,
}
use rdstail.Prelude.Int.{pos, negsuc}
use rdstail.Record.{LogRecord, Checkpoint, text}
use rdstail.Failure.{Failure}
use rdstail.Source.FileMeta.{FileMeta}
use rdstail.Source.Marker.{offset_marker, make_marker}
use rdstail.Source.Lines.{parse_records}
use rdstail.Pipeline.Drain.{stored, Journal, Outside, Settings, Memory}
use rdstail.Pipeline.Drain.Journal.{delivered_text, pulled_text, read_up_to, AllSafe}
use rdstail.Pipeline.Parallel.{
  Ranged, Waves, Round, returned, goes_on, read_one, wave_ranges, join_tiles, cut_wave, store_wave,
  ship_wave, take_wave, wave, wave_ckpt, shipped_wave, noted_wave, stamped_wave, drain_waves,
  parallel_drain, parallel_segment,
}
use rdstail.Pipeline.Parallel.Safety.{IsFailed}
use rdstail.Pipeline.Parallel.Tracking.{Tiled-cases, Round-cases}

-- All that was read was delivered, and each checkpoint was safe when it was stored.
abbrev pub IsSettled : Journal → Type 0
IsSettled log = AllSafe log × (delivered_text log ≡ pulled_text log)

-- The same after a round; if it failed, what it read last need not be delivered.
abbrev pub LeavesSettled : Round → Type 0
LeavesSettled (returned f q) = AllSafe q.log × (IsFailed f ⊎ IsSettled q.log)
LeavesSettled (goes_on q) = IsSettled q.log

module _ (o : Outside) (x : Ranged) (w : Settings) (file : FileMeta) (prefix : Bytes)
    (reads : ℕ) where
  store_wave-LeavesSettled :
      (is_last : Bool) (wave_end : ℕ) (p : Waves)
      → IsSettled p.log
      → read_up_to p.log ≡ some (make_marker prefix wave_end)
      → LeavesSettled (store_wave o x w file prefix reads is_last wave_end p)
  unfolding store_wave
  store_wave-LeavesSettled is_last wave_end p (safe, done) here =
      let ckpt = wave_ckpt o x w file prefix reads wave_end p in
      elim (Option-cases (o.set p.log file.name ckpt)) [
        | inr (e, bad) ↦ rw (bad, LeavesSettled) (safe, inl (e, refl))
        | inl good ↦
            let kept : IsSettled (stored ckpt ∷ p.log) = (
              (
                record {
                  held = [];
                  accounted = append-nil (delivered_text p.log) ∙ done;
                  resumes = inl (refl, here);
                },
                safe,
              ),
              done,
            ) in
            elim (Bool-cases is_last) [
              | inl over ↦ rw (good, over, LeavesSettled) (kept.0, inr kept)
              | inr more ↦ rw (good, more, LeavesSettled) kept
            ]
      ]

  -- What was read last are the records to ship, up to the wave's end.
  ship_wave-LeavesSettled :
      (is_last : Bool) (recs : List LogRecord) (wave_end : ℕ) (p : Waves)
      → AllSafe p.log
      → delivered_text p.log ++ text recs ≡ pulled_text p.log
      → read_up_to p.log ≡ some (make_marker prefix wave_end)
      → LeavesSettled (ship_wave o x w file prefix reads is_last recs wave_end p)
  unfolding ship_wave
  ship_wave-LeavesSettled is_last [] wave_end p safe done here =
      store_wave-LeavesSettled is_last wave_end p
        (safe, sym (append-nil (delivered_text p.log)) ∙ done) here
  ship_wave-LeavesSettled is_last (r ∷ recs) wave_end p safe done here =
      elim (Option-cases (o.write p.log (r ∷ recs))) [
        | inr (e, bad) ↦ rw (bad, LeavesSettled) (safe, inl (e, refl))
        | inl good ↦
            rw (good, LeavesSettled)
              (store_wave-LeavesSettled is_last wave_end
                (shipped_wave o x w file prefix reads (r ∷ recs) p) (safe, done) here)
      ]

  take_wave-LeavesSettled :
      (is_last : Bool) (cut : Option (List LogRecord × ℕ)) (p : Waves)
      → IsSettled p.log
      → LeavesSettled (take_wave o x w file prefix reads is_last cut p)
  unfolding take_wave
  take_wave-LeavesSettled is_last none p settled = (settled.0, inr settled)
  take_wave-LeavesSettled is_last (some (recs, stop)) p settled =
      elim (Bool-cases (leb stop p.off)) [
        | inl nothing ↦ rw (nothing, LeavesSettled) (settled.0, inr settled)
        | inr more ↦
            let stamped = stamped_wave o x w file prefix reads recs stop p in
            rw (more, LeavesSettled)
              (ship_wave-LeavesSettled is_last stamped stop
                (noted_wave o x w file prefix reads stamped stop p) settled.0
                (ap (λ t. t ++ text stamped) settled.1) refl)
      ]

  wave-LeavesSettled :
      (p : Waves) → IsSettled p.log → LeavesSettled (wave o x w file prefix reads p)
  unfolding wave
  wave-LeavesSettled p settled =
      let is_last = leb file.size (p.off + reads * parallel_segment) in
      let ranges = wave_ranges is_last file.size p.off 0 reads in
      elim (Tiled-cases (join_tiles [] p.off (map (read_one x p.log) ranges))) [
        | inl (e, bad) ↦ rw (bad, LeavesSettled) (settled.0, inl (e, refl))
        | inr (inl apart) ↦ rw (apart, LeavesSettled) (settled.0, inr settled)
        | inr (inr (joined, at, fits)) ↦
            rw (fits, LeavesSettled)
              (take_wave-LeavesSettled is_last
                (cut_wave is_last joined at (parse_records (x.context p.log) file.name joined).0) p
                settled)
      ]

  drain_waves-LeavesSettled :
      (n : ℕ) (p q : Waves) (f : Option Failure)
      → IsSettled p.log
      → drain_waves o x w file prefix reads n p ≡ some (f, q)
      → LeavesSettled (returned f q)
  unfolding drain_waves
  drain_waves-LeavesSettled zero p q f settled h = absurd (ground (arith, h))
  drain_waves-LeavesSettled (suc n) p q f settled h =
      elim (Bool-cases (leb (p.off + reads * parallel_segment / 2) file.size)) [
        | inr few ↦
            let f_is : none ≡ f = ground (arith, few, h) in
            let q_is : p ≡ q = ground (arith, few, h) in
            rw (← f_is, ← q_is) (settled.0, inr settled)
        | inl enough ↦ elim (Option-cases (o.cancelled p.log)) [
          | inr (e, ended) ↦
              let f_is : some e ≡ f = ground (arith, enough, ended, h) in
              let q_is : p ≡ q = ground (arith, enough, ended, h) in
              rw (← f_is, ← q_is) (settled.0, inl (e, refl))
          | inl live ↦ elim (Round-cases (wave o x w file prefix reads p)) [
            | inl (g, r, over) ↦
                let f_is : g ≡ f = ground (arith, enough, live, over, h) in
                let q_is : r ≡ q = ground (arith, enough, live, over, h) in
                rw (← f_is, ← q_is) (subst LeavesSettled over (wave-LeavesSettled p settled))
            | inr (r, next) ↦
                drain_waves-LeavesSettled n r q f
                  (subst LeavesSettled next (wave-LeavesSettled p settled))
                  (ground (arith, enough, live, next, h))
          ]
        ]
      ]

-- Whatever the ranges, the sink, the store and the context answer: if all that was read before was
-- delivered and each checkpoint stored was safe, the checkpoints that parallelDrain stores are safe, and
-- where it returns no error all that was read is delivered.
pub parallel_drain-LeavesSettled :
    (n : ℕ) (o : Outside) (x : Ranged) (w : Settings) (file : FileMeta) (reads : ℕ)
    (prev : Checkpoint) (mem : Memory) (log : Journal) (f : Option Failure) (q : Waves)
    → IsSettled log
    → parallel_drain n o x w file reads prev mem log ≡ some (f, q)
    → LeavesSettled (returned f q)
unfolding parallel_drain
parallel_drain-LeavesSettled n o x w file reads prev mem log f q settled h =
    elim (Option-cases (offset_marker prev.marker)) [
      | inl nowhere ↦
          let q_log : log ≡ q.log = ground (arith, nowhere, h) in
          let kept = subst IsSettled q_log settled in (kept.0, inr kept)
      | inr ((prefix, pos from), there) ↦
          drain_waves-LeavesSettled o x w file prefix reads n
            (record { prev = prev; off = from; shipped = 0; memory = mem; log = log }) q f settled
            (ground (arith, there, h))
      | inr ((prefix, negsuc k), there) ↦ absurd (ground (arith, there, h))
    ]
