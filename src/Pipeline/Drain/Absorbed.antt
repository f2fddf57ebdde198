-- ===== src/Pipeline/Drain/Absorbed.antt =====
-- The text that a plain drain takes from a chunk into its batch.
use rdstail.Prelude.{
  is_empty, ◌≡◌, ◌⊎◌, ◌∙◌, refl, sym, ap, Bool, true, false, inl, inr, some, List, [], ◌∷◌, ◌++◌,
  Bytes, arith, append_assoc, append-nil, init, Option-cases, map, if◌then◌else◌,
}
use rdstail.Record.{LogRecord, Time, text}
use rdstail.Source.Lines.{join_continuation}
use rdstail.Source.Lines.Conservation.{text-append, text-join_continuation}
use rdstail.Source.Portion.{Chunk}
use rdstail.Pipeline.Errors.{is_error_running_log}
use rdstail.Pipeline.Drain.{pulled, Journal, Outside, Settings, Memory, Drain}
use rdstail.Pipeline.Drain.Absorb.{
  stamp, stamped, Front, drop_partial, dedupe_front, dedupe_running, join_last, absorb_lead, Lead,
  front_of, take_front, absorb,
}
use rdstail.Pipeline.Drain.Journal.{
  pulled_text, delivered_text, CoversBefore, CoversBefore-cons, CoversBefore-now, AllSafe,
}

-- Nothing is being de-duplicated or left out: the ordinary drain, with no restart to recover from.
pub record IsPlain (d : Drain) : Type 0 where
  pub dedupe : d.dedupe ≡ false
  pub drop_first : d.drop_first ≡ false
  pub skip_leading : d.skip_leading ≡ false

-- What holds between the rounds of a plain drain.
pub record Inv (d : Drain) (log : Journal) : Type 0 where
  pub plain : IsPlain d
  -- Delivered and pending text together are what was read, in order.
  pub conserved : delivered_text log ++ text d.pending ≡ pulled_text log
  -- All that was read before the newest pending record began is delivered or pending before it.
  pub begun :
      is_empty d.pending ≡ false
      → CoversBefore log d.last_start (delivered_text log ++ text (init d.pending))
  pub safe : AllSafe log

text-stamp : (chunk : Chunk) (recs : List LogRecord) → text (map (stamped chunk) recs) ≡ text recs
text-stamp chunk [] = refl
text-stamp chunk (r ∷ recs) = ap (λ (t : Bytes). r.message ++ b'\n' ∷ t) (text-stamp chunk recs)

drop_partial-plain : (f : Front) → f.drop_first ≡ false → drop_partial f ≡ f
unfolding drop_partial
drop_partial-plain f h = ground (arith, h)

-- In a plain drain of any file but the running error log, the filters pass every record.
front_of-plain :
    (o : Outside) (file : Bytes) (now : Time) (chunk : Chunk) (d : Drain) (mem : Memory)
    → IsPlain d
    → is_error_running_log file ≡ false
    → ((front_of o file now chunk d mem).0.recs ≡ stamp chunk)
      × ((front_of o file now chunk d mem).0.drop_first ≡ false)
unfolding front_of drop_partial dedupe_front dedupe_running
front_of-plain o file now chunk d mem p h = ground (arith, h)

-- What a leading continuation gives to the pending records.
record Led (pending recs : List LogRecord) (lead : Lead) : Type 0 where
  taken : Bytes
  joined : text lead.pending ≡ text pending ++ taken
  left : taken ++ text lead.recs ≡ text recs
  inits : init lead.pending ≡ init pending
  empties : is_empty lead.pending ≡ is_empty pending

init-cons :
    (r : LogRecord) (p q : List LogRecord)
    → is_empty p ≡ false
    → is_empty q ≡ false
    → init q ≡ init p
    → init (r ∷ q) ≡ init (r ∷ p)
init-cons r [] q h k e = cc
init-cons r (x ∷ p) [] h k e = cc
init-cons r (x ∷ p) (y ∷ q) h k e = ap (◌∷◌ r) e

join_last_lem :
    (r : LogRecord) (p : List LogRecord) (q : List LogRecord)
    → join_last r p ≡ some q
    → (text q ≡ text p ++ text (r ∷ []))
      × (init q ≡ init p)
      × (is_empty q ≡ false)
      × (is_empty p ≡ false)
unfolding join_last
join_last_lem r [] q h = cc
join_last_lem r (x ∷ []) q h = elim (Option-cases (join_continuation x r)) [
  | inl e ↦ absurd (ground (arith, e, h))
  | inr (joined, e) ↦
      let kept : text (joined ∷ []) ≡ text (x ∷ r ∷ []) = text-join_continuation x r e in
      ground (arith, e, h, kept, append_assoc x.message (b'\n' ∷ []) (text (r ∷ [])))
]
join_last_lem r (x ∷ y ∷ p) q h = elim (Option-cases (join_last r (y ∷ p))) [
  | inl e ↦ absurd (ground (arith, e, h))
  | inr (rest, e) ↦
      let (t, i, ne, _) = join_last_lem r (y ∷ p) rest e in
      ground (
        arith,
        e,
        h,
        t,
        ne,
        init-cons x (y ∷ p) rest refl ne i,
        append_assoc x.message (b'\n' ∷ text (y ∷ p)) (text (r ∷ [])),
      )
]

unchanged :
    (pending recs : List LogRecord)
    → Led pending recs (record { pending = pending; recs = recs; absorbed = false })
unchanged pending recs = record {
  taken = [];
  joined = sym (append-nil (text pending));
  left = refl;
  inits = refl;
  empties = refl;
}

absorb_lead-Led :
    (leading : Bool) (pending recs : List LogRecord)
    → Led pending recs (absorb_lead false leading pending recs)
unfolding absorb_lead
absorb_lead-Led leading pending [] = unchanged pending []
absorb_lead-Led false pending (r ∷ recs) = unchanged pending (r ∷ recs)
absorb_lead-Led true pending (r ∷ recs) = elim (Option-cases (join_last r pending)) [
  | inl e ↦ rw e (unchanged pending (r ∷ recs))
  | inr (q, e) ↦
      let (t, i, ne, pe) = join_last_lem r pending q e in
      rw e (record {
        taken = text (r ∷ []);
        joined = t;
        left = append_assoc r.message (b'\n' ∷ []) (text recs);
        inits = i;
        empties = ne ∙ sym pe;
      })
]

init-append : (p q : List LogRecord) → is_empty q ≡ false → init (p ++ q) ≡ p ++ init q
init-append [] q h = refl
init-append (x ∷ []) [] h = cc
init-append (x ∷ []) (y ∷ q) h = refl
init-append (x ∷ y ∷ p) q h = ap (◌∷◌ x) (init-append (y ∷ p) q h)

module _ (chunk : Chunk) (d : Drain) (log : Journal) (inv : Inv d log) (lead : Lead)
    (led : Led d.pending (stamp chunk) lead) where
  text-stamp_chunk : text (stamp chunk) ≡ text chunk.records
  unfolding stamp
  text-stamp_chunk = text-stamp chunk chunk.records

  batch_conserved :
      delivered_text log ++ text (lead.pending ++ lead.recs) ≡ pulled_text log ++ text chunk.records
  batch_conserved =
      rw
        (
          text-append lead.pending lead.recs,
          led.joined,
          append_assoc (text d.pending) led.taken (text lead.recs),
          led.left,
          text-stamp_chunk,
        )
        (sym (append_assoc (delivered_text log) (text d.pending) (text chunk.records))
          ∙ ap (λ (t : Bytes). t ++ text chunk.records) inv.conserved)

  -- The newest record began in an earlier chunk.
  begun_before :
      lead.recs ≡ []
      → is_empty (lead.pending ++ lead.recs) ≡ false
      → CoversBefore
          (pulled d.marker chunk ∷ log)
          d.last_start
          (delivered_text log ++ text (init (lead.pending ++ lead.recs)))
  begun_before e h =
      let same : lead.pending ++ lead.recs ≡ lead.pending =
        ap (λ (rs : List LogRecord). lead.pending ++ rs) e ∙ append-nil lead.pending in
      rw (same, led.inits)
        (CoversBefore-cons (pulled d.marker chunk) (inv.begun (sym led.empties ∙ (rw same at h))))

  -- It began in this chunk.
  begun_now :
      is_empty lead.recs ≡ false
      → CoversBefore
          (pulled d.marker chunk ∷ log)
          d.marker
          (delivered_text log ++ text (init (lead.pending ++ lead.recs)))
  begun_now h = CoversBefore-now d.marker chunk log _ (led.taken ++ text (init lead.recs)) (
      rw
        (
          init-append lead.pending lead.recs h,
          text-append lead.pending (init lead.recs),
          led.joined,
          append_assoc (text d.pending) led.taken (text (init lead.recs)),
        )
        (sym (
            append_assoc (delivered_text log) (text d.pending) (led.taken ++ text (init lead.recs)))
          ∙ ap (λ (t : Bytes). t ++ (led.taken ++ text (init lead.recs))) inv.conserved))

nonempty-cases : (recs : List LogRecord) → (recs ≡ []) ⊎ (is_empty recs ≡ false)
nonempty-cases [] = inl refl
nonempty-cases (r ∷ recs) = inr refl

-- The newest pending record began in an earlier chunk, or in this one.
last_start-begun :
    (chunk : Chunk) (d : Drain) (log : Journal)
    → Inv d log
    → (lead : Lead) → Led d.pending (stamp chunk) lead
    → is_empty (lead.pending ++ lead.recs) ≡ false
    → CoversBefore
        (pulled d.marker chunk ∷ log)
        (if is_empty lead.recs then d.last_start else d.marker)
        (delivered_text log ++ text (init (lead.pending ++ lead.recs)))
last_start-begun chunk d log inv lead led h = elim (nonempty-cases lead.recs) [
  | inl none' ↦ rw (ap is_empty none') (begun_before chunk d log inv lead led none' h)
  | inr some' ↦ rw some' (begun_now chunk d log inv lead led some')
]

-- Taking a chunk keeps the invariant, with the read in the journal.
pub take_front-Inv :
    (chunk : Chunk) (f : Front) (d : Drain) (log : Journal)
    → f.recs ≡ stamp chunk
    → f.drop_first ≡ false
    → Inv d log
    → Inv (take_front chunk f d) (pulled d.marker chunk ∷ log)
unfolding take_front
take_front-Inv chunk f d log recs first inv =
    let lead : Lead = absorb_lead d.skip_leading f.leading d.pending f.recs in
    let led : Led d.pending (stamp chunk) lead =
      rw (inv.plain.skip_leading, recs) (absorb_lead-Led f.leading d.pending (stamp chunk)) in
    record {
      plain = record {
        dedupe = ground (arith, inv.plain.dedupe);
        drop_first = first;
        skip_leading = refl;
      };
      conserved = batch_conserved chunk d log inv lead led;
      begun = last_start-begun chunk d log inv lead led;
      safe = inv.safe;
    }

-- A plain round over any file but the running error log takes the whole chunk.
pub absorb-Inv :
    (o : Outside) (w : Settings) (file : Bytes) (now : Time) (chunk : Chunk) (d : Drain)
    (mem : Memory) (log : Journal)
    → is_error_running_log file ≡ false
    → Inv d log
    → Inv (absorb o w file now chunk d mem).0 (pulled d.marker chunk ∷ log)
unfolding absorb
absorb-Inv o w file now chunk d mem log h inv =
    let (recs, first) = front_of-plain o file now chunk d mem inv.plain h in
    take_front-Inv chunk (front_of o file now chunk d mem).0 d log recs first inv
