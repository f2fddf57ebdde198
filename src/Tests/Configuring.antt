-- ===== src/Tests/Configuring.antt =====
-- Configurations, on concrete values.
use rdstail.Prelude.{
  ℕ, ◌*◌, ◌^◌, ◌≤◌, ◌≡◌, refl, max, true, false, none, some, [], ◌∷◌, Bytes, codes, arith, All, map,
  leb, ◌==◌,
}
use rdstail.Prelude.Int.{pos}
use rdstail.State.{find}
use rdstail.Replay.{by_name}
use rdstail.Pipeline.Delay.{Pacing, interval_after}
use rdstail.Config.{Floats, Config, Source, SinkEntry, seconds}
use rdstail.Config.Defaults.{defaults, apply_post_defaults}
use rdstail.Config.Regions.{expand_regions}
use rdstail.Config.Checks.{validate}
use rdstail.Config.Sinks.{IsDistinct, config_of, validate-names}
use rdstail.Config.Runtimes.{validate-interval_after}

-- Tenths.
abbrev tenths : Floats
tenths = record { Float = ℕ; two = 20; is_zero_float = λ f. f == 0; at_most_one = λ f. leb f 10 }

abbrev same_text : Bytes → Bytes
same_text s = s

abbrev both : Source
both = record {
  type = codes "rds";
  engine = [];
  region = [];
  regions = codes "eu-west-1" ∷ codes "us-east-1" ∷ [];
  instances = codes "db-1" ∷ [];
  discover = none;
  assume_role = [];
  include_audit = false;
}

abbrev stdout : Bytes → SinkEntry tenths
stdout name = record {
  name = name;
  type = codes "stdout";
  retry = record { max_attempts = pos 0; initial_wait = pos 0; max_wait = pos 0; multiplier = 0 };
  filter = none;
  s3 = none;
  kafka = none;
  http = none;
  stdout = none;
}

abbrev config : Config tenths
config = record (defaults tenths 0) {
  sources = expand_regions same_text (both ∷ []);
  sinks = stdout (codes "a") ∷ stdout (codes "b") ∷ [];
}

-- The regions are separate sources after loading, and the retries have their values.
loaded :
    (apply_post_defaults tenths config).sinks
    ≡ record (stdout (codes "a")) {
      retry = record {
        max_attempts = pos 10;
        initial_wait = pos (5 * 10 ^ 8);
        max_wait = seconds 60;
        multiplier = 20;
      };
    }
      ∷ record (stdout (codes "b")) {
        retry = record {
          max_attempts = pos 10;
          initial_wait = pos (5 * 10 ^ 8);
          max_wait = seconds 60;
          multiplier = 20;
        };
      }
      ∷ []
unfolding apply_post_defaults
loaded = refl

validate-names_example :
    IsDistinct same_text same_text tenths config.sinks
    × All
        (λ (s : SinkEntry tenths).
          find (by_name (map (config_of same_text same_text tenths) config.sinks) []) s.name
          ≡ some (config_of same_text same_text tenths s))
        config.sinks
unfolding validate expand_regions
validate-names_example = validate-names same_text same_text tenths config refl

validate-interval_after_example :
    (w : Pacing) × (config.runtime.poll_interval ≡ pos w.poll_interval)
    × (config.runtime.poll_interval_max ≡ pos w.poll_interval_max)
    × (10 ^ 9
        ≤ interval_after
            (λ d. d)
            (λ d. d * 2)
            w
            w.poll_interval
            ((true, false) ∷ (false, true) ∷ []))
    × (10
          * interval_after
              (λ d. d)
              (λ d. d * 2)
              w
              w.poll_interval
              ((true, false) ∷ (false, true) ∷ [])
        ≤ 12 * max (max w.poll_interval w.poll_interval_max) (120 * 10 ^ 9))
unfolding validate expand_regions
validate-interval_after_example =
    validate-interval_after same_text same_text tenths (λ d. d) (λ d. d * 2) config
      ((true, false) ∷ (false, true) ∷ []) refl (λ d. (omega arith, omega arith)) (λ d. omega arith)
