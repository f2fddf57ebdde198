-- ===== src/Config/Defaults.antt =====
-- internal/config/config.go: the values of settings that the file leaves out.
use rdstail.Prelude.{◌*◌, true, Option, none, some, [], ◌∷◌, List, codes, if◌then◌else◌}
use rdstail.Prelude.Int.{ℤ, pos, is_0}
use rdstail.Config.{Floats, Config, RetryPolicy, SinkEntry, S3Sink, HttpSink, seconds, milliseconds}

-- if n == 0 { n = d }
abbrev pub default_to : ℤ → ℤ → ℤ
default_to n d = if is_0 n then d else n

module _ (fl : Floats) where
  open fl use {Float, two, is_zero_float}

  -- defaults; the zero values are Go's, `zero` is 0.0
  abbrev pub defaults : Float → Config fl
  defaults zero_float = record {
    sources = [];
    sinks = [];
    state = record { type = codes "sqlite"; path = codes "./state.db" };
    runtime = record {
      poll_interval = seconds 10;
      poll_interval_max = pos 0;
      poll_backoff_multiplier = two;
      max_batch_bytes = pos (5 * 1024 * 1024);
      max_batch_records = pos 10000;
      checkpoint_retention = pos 0;
      max_workers = pos 5;
      parallel_reads_per_file = pos 0;
      shard = [];
      max_instances_concurrent = pos 0;
      shutdown_timeout = seconds 30;
      start_from = codes "end";
      memory_budget_bytes = pos (256 * 1024 * 1024);
    };
    metrics = record { enabled = true; listen = codes ":9090" };
    logging = record { level = codes "info" };
  }

  abbrev pub retry_defaults : RetryPolicy fl → RetryPolicy fl
  retry_defaults r = record {
    max_attempts = default_to r.max_attempts (pos 10);
    initial_wait = default_to r.initial_wait (milliseconds 500);
    max_wait = default_to r.max_wait (seconds 60);
    multiplier = if is_zero_float r.multiplier then two else r.multiplier;
  }

  abbrev pub s3_defaults : Option S3Sink → Option S3Sink
  s3_defaults none = none
  s3_defaults (some s) = some (record s {
    max_bytes = default_to s.max_bytes (pos (5 * 1024 * 1024));
    max_records = default_to s.max_records (pos 10000);
    max_age = default_to s.max_age (seconds 30);
  })

  abbrev pub http_defaults : Option HttpSink → Option HttpSink
  http_defaults none = none
  http_defaults (some h) = some (record h { timeout = default_to h.timeout (seconds 30) })

  abbrev pub sink_defaults : SinkEntry fl → SinkEntry fl
  sink_defaults s = record s {
    retry = retry_defaults s.retry;
    s3 = s3_defaults s.s3;
    http = http_defaults s.http;
  }

  -- The loop of applyPostDefaults
  unfoldable pub all_sink_defaults : List (SinkEntry fl) → List (SinkEntry fl)
  all_sink_defaults [] = []
  all_sink_defaults (s ∷ ss) = sink_defaults s ∷ all_sink_defaults ss

  -- applyPostDefaults
  unfoldable pub apply_post_defaults : Config fl → Config fl
  unfolding all_sink_defaults
  apply_post_defaults c = record c { sinks = all_sink_defaults c.sinks }
