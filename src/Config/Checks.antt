-- ===== src/Config/Checks.antt =====
-- internal/config/config.go: Validate. An error is named for the rule that it reports, with the index
-- of the source or sink. strings.TrimSpace and strings.ToUpper are arguments.
use rdstail.Prelude.{
  is_empty, ℕ, suc, ◌+◌, ◌*◌, ◌/◌, max, ◌&&◌, ◌||◌, ltb, Bool, true, false, not, Option, none, some,
  List, [], ◌∷◌, ◌++◌, Bytes, codes, same, has_prefix, length, if◌then◌else◌, ◌==◌,
}
use rdstail.Prelude.Int.{pos, ltz, is_0}
use rdstail.Failure.{Result, ok, err}
use rdstail.Shard.{Shard, parse}
use rdstail.Sink.Decorate.{rank_of, is_one_of}
use rdstail.Config.{
  Floats, Config, Source, Discover, SinkEntry, SinkFilter, S3Sink, KafkaSink, HttpSink, StdoutSink,
  Runtime, StateEntry, seconds,
}

pub data Problem : Type 0 where
  no_sources no_sinks : Problem
  source_type source_engine both_regions no_region no_instances empty_discover : ℕ → Problem
  refresh_too_short : ℕ → Problem
  both_filters empty_filter unknown_severity no_name duplicate_name : ℕ → Problem
  no_s3 no_bucket no_s3_region : ℕ → Problem
  no_kafka no_brokers no_topic bad_mechanism no_password : ℕ → Problem
  no_http no_url bad_url bad_format bad_sink_type : ℕ → Problem
  poll_interval_short poll_interval_max_short multiplier_small : Problem
  batch_bytes_negative batch_records_negative retention_short parallel_reads_range : Problem
  no_workers bad_start_from bad_state_type no_state_path bad_shard too_many_instances : Problem

-- if b { errs = append(errs, p) }
abbrev pub report : Bool → Problem → List Problem
report b p = if b then p ∷ [] else []

-- Such statements for each rule, in order.
abbrev pub report_all : List (Bool × Problem) → List Problem
report_all [] = []
report_all ((b, p) ∷ rules) = report b p ++ report_all rules

abbrev pub concat {ℓ} : {A : Type ℓ} → List (List A) → List A
concat [] = []
concat (xs ∷ xss) = xs ++ concat xss

abbrev pub is_set {ℓ} : {A : Type ℓ} → Option A → Bool
is_set none = false
is_set (some a) = true

-- isValidEngine
abbrev pub is_valid_engine : Bytes → Bool
is_valid_engine e = same e (codes "postgres") || same e (codes "mysql") || same e (codes "mariadb")

module _ (trim_space to_upper : Bytes → Bytes) where
  abbrev pub is_blank : Bytes → Bool
  is_blank s = is_empty (trim_space s)

  abbrev pub check_region : ℕ → Source → List Problem
  check_region i src =
      if not (is_empty src.region) && not (is_empty src.regions)
      then both_regions i ∷ []
      else report (is_blank src.region) (no_region i)

  abbrev pub check_discover : ℕ → Option Discover → List Problem
  check_discover i none = []
  check_discover i (some d) =
      report (is_empty d.tags && not d.all) (empty_discover i)
      ++ report (not (is_0 d.refresh_interval) && ltz d.refresh_interval (seconds 30))
          (refresh_too_short i)

  -- One round of the loop over the sources.
  unfoldable pub check_source : ℕ → Source → List Problem
  unfolding same
  check_source i src =
      report (not (same src.type (codes "rds"))) (source_type i)
      ++ (report (not (is_empty src.engine) && not (is_valid_engine src.engine)) (source_engine i)
          ++ (check_region i src
              ++ (report (is_empty src.instances && not (is_set src.discover)) (no_instances i)
                  ++ check_discover i src.discover)))

  unfoldable pub check_sources : ℕ → List Source → List Problem
  unfolding check_source
  check_sources i [] = []
  check_sources i (src ∷ srcs) = check_source i src ++ check_sources (suc i) srcs

  abbrev pub check_filter : ℕ → Option SinkFilter → List Problem
  check_filter i none = []
  check_filter i (some f) =
      report (not (is_empty f.min_severity) && not (is_empty f.severities)) (both_filters i)
      ++ (report (is_empty f.min_severity && is_empty f.severities) (empty_filter i)
          ++ report (not (is_empty f.min_severity) && (rank_of (to_upper f.min_severity) == 0))
              (unknown_severity i))

  abbrev pub check_s3 : ℕ → Option S3Sink → List Problem
  check_s3 i none = no_s3 i ∷ []
  check_s3 i (some s) =
      report (is_blank s.bucket) (no_bucket i) ++ report (is_blank s.region) (no_s3_region i)

  abbrev pub check_kafka : ℕ → Option KafkaSink → List Problem
  check_kafka i none = no_kafka i ∷ []
  check_kafka i (some k) =
      report (is_empty k.brokers) (no_brokers i)
      ++ (report (is_empty k.topic && is_empty k.topic_template) (no_topic i)
          ++ (report
                (not (
                  is_one_of k.sasl_mechanism
                    ([] ∷ codes "plain" ∷ codes "scram-sha-256" ∷ codes "scram-sha-512" ∷ [])))
                (bad_mechanism i)
              ++ report (not (is_empty k.sasl_username) && is_empty k.sasl_password)
                  (no_password i)))

  abbrev pub check_http : ℕ → Option HttpSink → List Problem
  check_http i none = no_http i ∷ []
  check_http i (some h) =
      if is_blank h.url
      then no_url i ∷ []
      else report
          (not (has_prefix h.url (codes "http://")) && not (has_prefix h.url (codes "https://")))
          (bad_url i)

  abbrev pub check_stdout : ℕ → Option StdoutSink → List Problem
  check_stdout i none = []
  check_stdout i (some s) =
      report (not (is_one_of s.format ([] ∷ codes "ndjson" ∷ codes "text" ∷ []))) (bad_format i)

  module _ (fl : Floats) where
    open fl use {Float, is_zero_float, at_most_one}

    -- validateSinkShape
    unfoldable pub validate_sink_shape : ℕ → SinkEntry fl → List Problem
    unfolding same is_one_of has_prefix
    validate_sink_shape i s =
        if same s.type (codes "s3")
        then check_s3 i s.s3
        else if same s.type (codes "kafka")
        then check_kafka i s.kafka
        else if same s.type (codes "http")
        then check_http i s.http
        else if same s.type (codes "stdout")
        then check_stdout i s.stdout
        else bad_sink_type i ∷ []

    -- The name of a sink, among those that were seen, and the names that are seen then.
    abbrev pub check_name : ℕ → Bytes → List Bytes → List Problem × List Bytes
    check_name i name seen =
        if is_blank name
        then (no_name i ∷ [], seen)
        else if is_one_of name seen
        then (duplicate_name i ∷ [], seen)
        else ([], name ∷ seen)

    -- The loop over the sinks.
    unfoldable pub check_sinks : ℕ → List Bytes → List (SinkEntry fl) → List Problem
    unfolding rank_of is_one_of validate_sink_shape
    check_sinks i seen [] = []
    check_sinks i seen (s ∷ ss) =
        let (named, seen') = check_name i s.name seen in
        let rest = check_sinks (suc i) seen' ss in
        check_filter i s.filter ++ (named ++ (validate_sink_shape i s ++ rest))

    abbrev pub runtime_rules : Runtime fl → List (Bool × Problem)
    runtime_rules r =
        (ltz r.poll_interval (seconds 1), poll_interval_short)
        ∷ (
          not (is_0 r.poll_interval_max) && ltz r.poll_interval_max r.poll_interval,
          poll_interval_max_short,
        )
        ∷ (
          not (is_zero_float r.poll_backoff_multiplier) && at_most_one r.poll_backoff_multiplier,
          multiplier_small,
        )
        ∷ (ltz r.max_batch_bytes (pos 0), batch_bytes_negative)
        ∷ (ltz r.max_batch_records (pos 0), batch_records_negative)
        ∷ (
          not (is_0 r.checkpoint_retention) && ltz r.checkpoint_retention (seconds (24 * 3600)),
          retention_short,
        )
        ∷ (
          ltz r.parallel_reads_per_file (pos 0) || ltz (pos 32) r.parallel_reads_per_file,
          parallel_reads_range,
        )
        ∷ (ltz r.max_workers (pos 1), no_workers)
        ∷ (not (is_one_of r.start_from (codes "beginning" ∷ codes "end" ∷ [])), bad_start_from)
        ∷ []

    abbrev pub check_state : StateEntry → List Problem
    check_state s =
        report (not (is_one_of s.type (codes "sqlite" ∷ codes "file" ∷ []))) bad_state_type
        ++ report (is_blank s.path) no_state_path

    abbrev pub count_instances : List Source → ℕ
    count_instances [] = 0
    count_instances (src ∷ srcs) = length src.instances + count_instances srcs

    -- The checks of the shard and of the number of instances; Shard{} has no count.
    abbrev pub check_shard : Result Shard → ℕ → List Problem
    check_shard (ok sh) n = report (ltb 500 (n / max sh.count 1)) too_many_instances
    check_shard (err e) n = bad_shard ∷ report (ltb 500 (n / max 0 1)) too_many_instances

    -- The problems of each part, in the order of Validate.
    unfoldable pub problems : Config fl → List (List Problem)
    unfolding check_sources check_sinks is_one_of parse
    problems c =
        report (is_empty c.sources) no_sources
        ∷ check_sources 0 c.sources
        ∷ report (is_empty c.sinks) no_sinks
        ∷ check_sinks 0 [] c.sinks
        ∷ report_all (runtime_rules c.runtime)
        ∷ check_state c.state
        ∷ check_shard (parse trim_space c.runtime.shard) (count_instances c.sources)
        ∷ []

    -- Validate
    unfoldable pub validate : Config fl → List Problem
    unfolding problems
    validate c = concat (problems c)
