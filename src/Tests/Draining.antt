-- ===== src/Tests/Draining.antt =====
-- Draining a file, on concrete answers.
use rdstail.Prelude.{◌≡◌, refl, inl, false, some, [], ◌∷◌, codes, arith}
use rdstail.Failure.{ok, other}
use rdstail.Pipeline.Errors.{is_error_running_log}
use rdstail.Pipeline.Drain.{Outside}
use rdstail.Pipeline.Drain.Flush.{flush}
use rdstail.Pipeline.Drain.Journal.{delivered_text}
use rdstail.Pipeline.Drain.ReadOn.{read_on}
use rdstail.Pipeline.Drain.File.{start_for, drain_file, resume}
use rdstail.Pipeline.Drain.Loop.{drain_loop, turn}
use rdstail.Pipeline.Drain.Absorb.{absorb}
use rdstail.Pipeline.Drain.File.Outcome.{drain_file-delivers, drain_file-ends}
use rdstail.Tests.Data.{file, chunk, outside, settings, memory, from_start, lookups}

drain_file-delivers_example :
    delivered_text (drain_file 3 outside settings from_start lookups file memory []).1.log
    ≡ codes "a\nb\n"
unfolding is_error_running_log start_for drain_file drain_loop turn resume flush absorb read_on
drain_file-delivers_example =
    drain_file-delivers 3 outside settings from_start lookups file memory refl (inl (refl, refl))
      refl refl

-- An API that never has more than it answers.
abbrev quiet : Outside
quiet = record outside { pull = λ log f marker. ok (chunk (codes "b") (codes "x:4") false) }

drain_file-ends_example :
    (drain_file 101 quiet settings from_start lookups file memory []).0 ≡ false
drain_file-ends_example =
    drain_file-ends 0 101 quiet settings from_start lookups file memory
      (λ log marker c n e. ground (arith, e)) (λ prev e. absurd (ground (arith, e))) (omega arith)
      (omega arith)

abbrev refusing : Outside
refusing = record outside { set = λ log f c. some (other ∷ []) }
