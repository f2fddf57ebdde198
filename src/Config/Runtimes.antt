-- ===== src/Config/Runtimes.antt =====
-- The runtime settings of a configuration that Validate accepts.
use rdstail.Prelude.{
  ℕ, ◌+◌, ◌*◌, zero, suc, ◌≤◌, ◌^◌, max, ◌≡◌, subst, ◌⊎◌, inl, inr, refl, Bool, false, not, ◌&&◌,
  All, List, [], ◌∷◌, Bytes, arith,
}
use rdstail.Prelude.Int.{ℤ, pos, negsuc, ltz, is_0}
use rdstail.Pipeline.Delay.{Pacing, interval_after}
use rdstail.Pipeline.Delay.Bounds.{interval_after_paced}
use rdstail.Config.{Floats, Config, Runtime}
use rdstail.Config.Checks.{Problem, report_all, runtime_rules, validate, problems}
use rdstail.Config.Sinks.{validate-problems}

report_all-empty :
    (rules : List (Bool × Problem)) → report_all rules ≡ [] → All (λ rule. rule.0 ≡ false) rules
report_all-empty [] h = tt
report_all-empty ((b, p) ∷ rules) h =
    (ground (arith, h), report_all-empty rules (ground (arith, h)))

not_below : (n : ℤ) (m : ℕ) → ltz n (pos m) ≡ false → (k : ℕ) × (n ≡ pos k) × (m ≤ k)
not_below (pos k) m h = (k, refl, ground (arith, h))
not_below (negsuc k) m h = absurd (ground (arith, h))

module _ (trim_space to_upper : Bytes → Bytes) (fl : Floats) where
  -- What the worker is given.
  pub record IsPaced (r : Runtime fl) : Type 0 where
    pub base : ℕ
    pub most : ℕ
    pub base_is : r.poll_interval ≡ pos base
    pub most_is : r.poll_interval_max ≡ pos most
    pub base_least : 10 ^ 9 ≤ base
    pub adaptive : (most ≡ 0) ⊎ (base ≤ most)

  max_not_below :
      (n : ℤ) (base : ℕ)
      → (not (is_0 n) && ltz n (pos base)) ≡ false
      → (most : ℕ) × (n ≡ pos most) × ((most ≡ 0) ⊎ (base ≤ most))
  max_not_below (pos zero) base h = (0, refl, inl refl)
  max_not_below (pos (suc k)) base h = (suc k, refl, inr (ground (arith, h)))
  max_not_below (negsuc k) base h = absurd (ground (arith, h))

  runtime_rules-IsPaced :
      (r : Runtime fl)
      → All (λ rule. rule.0 ≡ false) (runtime_rules trim_space to_upper fl r)
      → IsPaced r
  runtime_rules-IsPaced r h =
      let (base, base_is, base_least) = not_below r.poll_interval (10 ^ 9) h.0 in
      let (most, most_is, adaptive) = max_not_below r.poll_interval_max base (
        subst (λ p. (not (is_0 r.poll_interval_max) && ltz r.poll_interval_max p) ≡ false) base_is
          h.1.0) in
      record {
        base = base;
        most = most;
        base_is = base_is;
        most_is = most_is;
        base_least = base_least;
        adaptive = adaptive;
      }

  -- Where Validate accepts the configuration, the jitter in floating point is at most a fifth either way
  -- and the growth does not shrink, Run never waits less than a second before its next poll, and never
  -- more than 12/10 of the largest of the two configured intervals, which are not negative, and the
  -- limit for throttling: after any number of polls, whichever of them shipped something or was
  -- throttled.
  pub validate-interval_after :
      (jitter grow : ℕ → ℕ) (c : Config fl) (polls : List (Bool × Bool))
      → validate trim_space to_upper fl c ≡ []
      → ((d : ℕ) → (8 * d ≤ 10 * jitter d + 10) × (10 * jitter d ≤ 12 * d))
      → ((d : ℕ) → d ≤ grow d)
      → (w : Pacing) × (c.runtime.poll_interval ≡ pos w.poll_interval)
        × (c.runtime.poll_interval_max ≡ pos w.poll_interval_max)
        × (10 ^ 9 ≤ interval_after jitter grow w w.poll_interval polls)
        × (10 * interval_after jitter grow w w.poll_interval polls
            ≤ 12 * max (max w.poll_interval w.poll_interval_max) (120 * 10 ^ 9))
  unfolding problems
  validate-interval_after jitter grow c polls h jitters grows =
      let none_of = validate-problems trim_space to_upper fl c h in
      let paced =
        runtime_rules-IsPaced c.runtime
          (report_all-empty (runtime_rules trim_space to_upper fl c.runtime) none_of.1.1.1.1.0) in
      let w : Pacing = record { poll_interval = paced.base; poll_interval_max = paced.most } in
      let (low, high) =
        interval_after_paced jitter grow w paced.base_least
          (λ ne. elim paced.adaptive [ inl off ↦ absurd (ne off) | inr le ↦ le ]) jitters grows
          paced.base polls paced.base_least (omega arith) in
      (w, paced.base_is, paced.most_is, low, high)
