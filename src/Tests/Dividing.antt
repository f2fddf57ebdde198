-- ===== src/Tests/Dividing.antt =====
-- Files in two phases, and instances among shards, on concrete lists and counts.
use rdstail.Prelude.{◌≡◌, ◌==◌, refl, Bool, List, [], ◌∷◌, Bytes, codes}
use rdstail.Failure.{ok}
use rdstail.Source.FileMeta.{FileMeta}
use rdstail.Shard.{parse}
use rdstail.Shard.Owner.{at}

abbrev named : Bytes → FileMeta
named name = record { name = name; size = 1; last_written_ms = 1 }

abbrev files : List FileMeta
files = named (codes "error/mysql-error-running.log") ∷ named (codes "error/mysql-error.log") ∷ []

abbrev is_small : FileMeta → Bool
is_small f = f.size == 1

parse_test : parse (λ s. s) (codes "2/4") ≡ ok (at 2 4)
unfolding parse
parse_test = refl
