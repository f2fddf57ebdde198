-- ===== src/Config.antt =====
-- internal/config/config.go: the configuration that the YAML is decoded into. Durations are in
-- nanoseconds and, as Go's int64 and int, may be negative. A floating-point number is a value of a
-- type that is an argument. Maps are lists of pairs.
pub mod Defaults
pub mod Regions
pub mod Checks
pub mod Sinks
pub mod Runtimes
use rdstail.Prelude.{ℕ, ◌*◌, ◌^◌, Bool, Option, List, Bytes}
use rdstail.Prelude.Int.{ℤ, pos}
use rdstail.State.{Entries}

abbrev pub Duration : Type 0
Duration = ℤ

-- time.Second and time.Millisecond
abbrev pub seconds : ℕ → Duration
seconds n = pos (n * 10 ^ 9)

abbrev pub milliseconds : ℕ → Duration
milliseconds n = pos (n * 10 ^ 6)

pub record Discover : Type 0 where
  pub tags : Entries Bytes
  pub all : Bool
  pub exclude_tags : Entries Bytes
  pub refresh_interval : Duration

pub record Source : Type 0 where
  pub type : Bytes
  pub engine : Bytes
  pub region : Bytes
  pub regions : List Bytes
  pub instances : List Bytes
  pub discover : Option Discover
  pub assume_role : Bytes
  pub include_audit : Bool

-- StdoutSink
pub record StdoutSink : Type 0 where
  pub format : Bytes

pub record SinkFilter : Type 0 where
  pub min_severity : Bytes
  pub severities : List Bytes

pub record S3Sink : Type 0 where
  pub bucket : Bytes
  pub prefix : Bytes
  pub region : Bytes
  pub assume_role : Bytes
  pub external_id : Bytes
  pub kms_key_id : Bytes
  pub max_bytes : ℤ
  pub max_records : ℤ
  pub max_age : Duration

pub record KafkaSink : Type 0 where
  pub brokers : List Bytes
  pub topic : Bytes
  pub topic_template : Bytes
  pub client_id : Bytes
  pub tls : Bool
  pub sasl_username : Bytes
  pub sasl_password : Bytes
  pub sasl_mechanism : Bytes

pub record HttpSink : Type 0 where
  pub url : Bytes
  pub headers : Entries Bytes
  pub gzip : Bool
  pub timeout : Duration

-- float64, as far as it is looked at here
pub record Floats : Type 1 where
  pub Float : Type 0
  pub two : Float
  -- f == 0
  pub is_zero_float : Float → Bool
  -- f <= 1
  pub at_most_one : Float → Bool

module _ (fl : Floats) where
  open fl use {Float}

  pub record RetryPolicy : Type 0 where
    pub max_attempts : ℤ
    pub initial_wait : Duration
    pub max_wait : Duration
    pub multiplier : Float

  -- Sink
  pub record SinkEntry : Type 0 where
    pub name : Bytes
    pub type : Bytes
    pub retry : RetryPolicy
    pub filter : Option SinkFilter
    pub s3 : Option S3Sink
    pub kafka : Option KafkaSink
    pub http : Option HttpSink
    pub stdout : Option StdoutSink

  pub record Runtime : Type 0 where
    pub poll_interval : Duration
    pub poll_interval_max : Duration
    pub poll_backoff_multiplier : Float
    pub max_batch_bytes : ℤ
    pub max_batch_records : ℤ
    pub checkpoint_retention : Duration
    pub max_workers : ℤ
    pub parallel_reads_per_file : ℤ
    pub shard : Bytes
    pub max_instances_concurrent : ℤ
    pub shutdown_timeout : Duration
    pub start_from : Bytes
    pub memory_budget_bytes : ℤ

-- State
pub record StateEntry : Type 0 where
  pub type : Bytes
  pub path : Bytes

pub record Metrics : Type 0 where
  pub enabled : Bool
  pub listen : Bytes

pub record Logging : Type 0 where
  pub level : Bytes

pub record Config (fl : Floats) : Type 0 where
  pub sources : List Source
  pub sinks : List (SinkEntry fl)
  pub state : StateEntry
  pub runtime : Runtime fl
  pub metrics : Metrics
  pub logging : Logging
