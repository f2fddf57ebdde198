-- ===== src/Tests/Recovering.antt =====
-- Restarts, the ring of shipped records, marks and delays, on concrete values.
use rdstail.Prelude.{
  All, ◌≤◌, if◌then◌else◌, ◌==◌, ℕ, ◌+◌, ◌-◌, ◌*◌, ◌≡◌, ◌⊎◌, min, some, [], ◌∷◌, codes, arith,
  length, map,
}
use rdstail.Pipeline.Restart.{Restarts, notify_restart, pending_restart, minute}
use rdstail.Pipeline.Restart.Pending.{IsNear, IsNoticed, pending_restart-notify_restart}
use rdstail.Pipeline.Ring.{ShippedRing, empty_ring, ship_key, remember_shipped, drop_known}
use rdstail.Pipeline.Ring.Window.{IsTrimmed, IsConsistent-empty_ring, remember_shipped-IsTrimmed}
use rdstail.Pipeline.Ring.Dedupe.{with_key, drop_known_counts}
use rdstail.Pipeline.Marks.{MarkAt}
use rdstail.Pipeline.Delay.{Pacing}
use rdstail.Tests.Data.{line}

-- One restart, which no file was re-verified after.
abbrev restarted : Restarts
restarted = record {
  restart_gen = 1;
  restarts = record { gen = 1; at = 10 * minute } ∷ [];
  handled_gen = λ f. 0;
}

pending_restart-notify_restart_example :
    (IsNoticed (20 * minute) restarted.restarts
      × (notify_restart (20 * minute) restarted ≡ restarted))
    ⊎ (All (λ r. ¬ (IsNear (20 * minute) r.at)) restarted.restarts
        × ((t : ℕ) × (t ≤ 20 * minute)
            × (pending_restart (codes "f") (notify_restart (20 * minute) restarted) ≡ some (t, 2))))
pending_restart-notify_restart_example =
    pending_restart-notify_restart (20 * minute) restarted (codes "f")
      (record { behind = λ f. omega arith })

remember_shipped-IsTrimmed_example :
    IsTrimmed
      (map (ship_key length) (line (codes "a") ∷ []))
      (remember_shipped length empty_ring (line (codes "a") ∷ []))
remember_shipped-IsTrimmed_example =
    remember_shipped-IsTrimmed length empty_ring (line (codes "a") ∷ []) IsConsistent-empty_ring

-- A ring that remembers one line of one byte.
abbrev filled : ShippedRing
filled = record {
  keys = record { h = 1; n = 2 } ∷ [];
  bytes = 2;
  set = λ h. if h == 1 then 1 else 0;
}

drop_known_counts_example :
    (with_key length 1
        (drop_known length filled (line (codes "a") ∷ line (codes "a") ∷ []) (λ h. 0)).0
      ≡ with_key length 1 (line (codes "a") ∷ line (codes "a") ∷ []) - (filled.set 1 - 0))
    × ((drop_known length filled (line (codes "a") ∷ line (codes "a") ∷ []) (λ h. 0)).1 1
        ≡ 0 + min (with_key length 1 (line (codes "a") ∷ line (codes "a") ∷ [])) (filled.set 1 - 0))
drop_known_counts_example =
    drop_known_counts length filled (line (codes "a") ∷ line (codes "a") ∷ []) (λ h. 0) 1

abbrev mark : MarkAt
mark = record { t = 5; marker = codes "x:1" }

abbrev pacing : Pacing
pacing = record { poll_interval = 20; poll_interval_max = 100 }

abbrev twice : ℕ → ℕ
twice d = 2 * d

abbrev same_time : ℕ → ℕ
same_time d = d
