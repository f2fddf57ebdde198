-- ===== src/Pipeline/Drain/Journal.antt =====
-- What a journal says was read, shipped and stored.
use rdstail.Prelude.{◌≡◌, ◌⊎◌, refl, ap, Option, none, some, [], ◌∷◌, ◌++◌, Bytes}
use rdstail.Record.{Checkpoint, text}
use rdstail.Source.Portion.{Chunk}
use rdstail.Pipeline.Drain.{Event, pulled, read_wave, delivered, stored, Journal}

-- The log text that was read, in the order of reading.
abbrev pub pulled_text : Journal → Bytes
pulled_text [] = []
pulled_text (pulled marker chunk ∷ log) = pulled_text log ++ text chunk.records
pulled_text (read_wave marker next recs ∷ log) = pulled_text log ++ text recs
pulled_text (e ∷ log) = pulled_text log

-- The log text that the sink acknowledged, in the order of shipping.
abbrev pub delivered_text : Journal → Bytes
delivered_text [] = []
delivered_text (delivered recs ∷ log) = delivered_text log ++ text recs
delivered_text (e ∷ log) = delivered_text log

-- Where the newest chunk or wave that was read ends.
abbrev pub read_up_to : Journal → Option Bytes
read_up_to [] = none
read_up_to (pulled marker chunk ∷ log) = some chunk.next_marker
read_up_to (read_wave marker next recs ∷ log) = some next
read_up_to (e ∷ log) = read_up_to log

-- Where reading that began at `start` has come to.
abbrev pub reached : Bytes → Journal → Bytes
reached start [] = start
reached start (pulled marker chunk ∷ log) = chunk.next_marker
reached start (read_wave marker next recs ∷ log) = next
reached start (e ∷ log) = reached start log

-- Each read began where the one before it ended, and the first at `start`.
abbrev pub IsChained : Bytes → Journal → Type 0
IsChained start [] = Unit
IsChained start (pulled marker chunk ∷ log) = (marker ≡ reached start log) × IsChained start log
IsChained start (read_wave marker next recs ∷ log) =
    (marker ≡ reached start log) × IsChained start log
IsChained start (e ∷ log) = IsChained start log

-- A read at `marker` is in the journal, and everything read before it is at the front of `done`.
pub record CoversBefore (log : Journal) (marker : Bytes) (done : Bytes) : Type 0 where
  pub earlier : Journal
  pub later : Journal
  pub chunk : Chunk
  pub rest : Bytes
  pub split : log ≡ later ++ pulled marker chunk ∷ earlier
  pub covered : done ≡ pulled_text earlier ++ rest

-- To store the checkpoint at this point loses nothing: what is not delivered is `held`, and reading
-- goes on either where reading has come to, with nothing held, or at a marker that was read from
-- when all that was read before it is delivered by now.
pub record IsSafe (c : Checkpoint) (log : Journal) : Type 0 where
  pub held : Bytes
  pub accounted : delivered_text log ++ held ≡ pulled_text log
  pub resumes :
      ((held ≡ []) × (read_up_to log ≡ some c.marker))
      ⊎ CoversBefore log c.marker (delivered_text log)

-- Every checkpoint was safe to store when it was stored.
abbrev pub AllSafe : Journal → Type 0
AllSafe [] = Unit
AllSafe (stored c ∷ log) = IsSafe c log × AllSafe log
AllSafe (e ∷ log) = AllSafe log

pub CoversBefore-cons :
    (e : Event) {log : Journal} {marker : Bytes} {done : Bytes}
    → CoversBefore log marker done
    → CoversBefore (e ∷ log) marker done
CoversBefore-cons e c = record {
  earlier = c.earlier;
  later = e ∷ c.later;
  chunk = c.chunk;
  rest = c.rest;
  split = ap (◌∷◌ e) c.split;
  covered = c.covered;
}

pub CoversBefore-now :
    (marker : Bytes) (chunk : Chunk) (log : Journal) (done rest : Bytes)
    → done ≡ pulled_text log ++ rest
    → CoversBefore (pulled marker chunk ∷ log) marker done
CoversBefore-now marker chunk log done rest h = record {
  earlier = log;
  later = [];
  chunk = chunk;
  rest = rest;
  split = refl;
  covered = h;
}
