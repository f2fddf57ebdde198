-- ===== src/Sink/Fanout.antt =====
-- The answer of the fan-out, and the sinks that it writes to.
use rdstail.Prelude.{◌≡◌, ◌↔◌, refl, Option, none, some, List, [], ◌∷◌, arith, All}
use rdstail.Record.{LogRecord}
use rdstail.Failure.{Failure}
use rdstail.Sink.{Trace, Sink, fanout_write, join}

-- Each sink's own answer, written to in the order given, each after the ones before.
abbrev pub answers : List Sink → Trace → List LogRecord → List (Option Failure)
answers [] t recs = []
answers (s ∷ ss) t recs = (s.write t recs).0 ∷ answers ss (s.write t recs).1 recs

-- What was done when every sink has been written to.
abbrev pub after_all : List Sink → Trace → List LogRecord → Trace
after_all [] t recs = t
after_all (s ∷ ss) t recs = after_all ss (s.write t recs).1 recs

join-none : (d e : Option Failure) → (join d e ≡ none) ↔ ((d ≡ none) × (e ≡ none))
join-none none e = (λ h. (refl, h), λ h. h.1)
join-none (some d) none = (λ h. absurd (ground (arith, h)), λ h. absurd (ground (arith, h)))
join-none (some d) (some e) = (λ h. absurd (ground (arith, h)), λ h. absurd (ground (arith, h)))

-- Every sink is written to once, in order and with the whole batch, whichever of them fail, and
-- the fan-out returns nil exactly when each of the sinks did.
pub fanout_write-answers :
    (ss : List Sink) (t : Trace) (recs : List LogRecord)
    → ((fanout_write ss t recs).1 ≡ after_all ss t recs)
      × (((fanout_write ss t recs).0 ≡ none) ↔ All (λ a. a ≡ none) (answers ss t recs))
unfolding fanout_write
fanout_write-answers [] t recs = (refl, (λ h. tt, λ h. refl))
fanout_write-answers (s ∷ ss) t recs =
    let (e, t') = s.write t recs in
    let (rest, all) = fanout_write-answers ss t' recs in
    let both = join-none e (fanout_write ss t' recs).0 in
    (rest, (λ h. ((both.0 h).0, all.0 (both.0 h).1), λ h. both.1 (h.0, all.1 h.1)))
