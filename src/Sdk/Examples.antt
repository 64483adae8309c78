-- ===== src/Sdk/Examples.antt =====
-- A flush of probe/sdk.py, and its theorem at a concrete input.
use seismograph.Prelude.{
  ℕ, ◌+◌, ◌≡◌, refl, String, true, false, none, some, [], ◌∷◌, length, ◌==◌, string_eq,
}
use seismograph.Prelude.Int.{pos, ◌+ℤ◌}
use seismograph.Float.Fixed.{fixed}
use seismograph.Budget.{no_file, spend, reset_if_needed}
use seismograph.Aggregator.Flush.{flush as flush_model}
use seismograph.Spool.{Host}
use seismograph.Aggregator.{Noise, Aggregator, model_tuples_pending}
use seismograph.Sdk.{value_error, Clock, Wire, ProbeSdk, done, accepted, out_of_budget, flush}
use seismograph.Sdk.Gate.{Gated, backlog_net, flush-Gated}

abbrev noise : Noise fixed
noise = record {
  State = ℕ;
  expovariate = λ lam s. (fixed.lit 1 1, s + 1);
  uuid4 = λ s. ("batch", s + 1);
  mean = fixed.total;
  after_microsecond = λ s. s;
}

-- Bytes and JSON values are texts.
abbrev host : Host
host = record {
  Bytes = String;
  Value = String;
  same_bytes = λ a b. a == b;
  loads = λ b. some b;
  as_text = λ v. some v;
  as_object = λ v. none;
  is_null = λ v. false;
  is_one = λ v. false;
  below_one = λ v. false;
  members = λ v. none;
  canonical_json = λ o. "";
  is_uuid = λ s. true;
  b64encode = λ b. b;
  b64decode = λ v. some v;
  as_time = λ v. value_error;
  lower = λ s. s;
}

-- The network counts the posts and takes each of them.
abbrev wire : Wire fixed host ℕ
wire = record {
  encode = λ b. b.batch_id;
  sign = λ b. b;
  public_key_hex = "key";
  post = λ w body headers. (some 202, w + 1);
  resend = λ w body headers. (some 202, w + 1);
  dumps = λ f. "";
}

abbrev clock : Clock
clock = record { wall_ms = 5; monotonic = 700; wall_us = 5000; reset_ok = true; spend_ok = true }

abbrev aggregator : Aggregator fixed noise
aggregator = record {
  client_id = "client";
  pending =
      (
        "gpt",
        (record {
          timestamp = "2026-01-01";
          model_tuple = "gpt";
          suite_version = "v1";
          prompt_id = "p1";
          response_hash = "h1";
          output_length = pos 12;
          json_valid = true;
          tool_call_valid = none;
          output_tokens = none;
          reasoning_tokens = none;
        })
            ∷ [],
      )
      ∷ [];
  rng = 0;
}

-- A probe that has flushed at 100, with the budget that is left.
abbrev probe : ℕ → ProbeSdk fixed noise (λ s. true) host wire
probe budget = record {
  min_flush_interval = 500;
  no_network = false;
  fleet_id = none;
  accountant = record {
    daily_budget = pos budget;
    current_spend = pos 2000000;
    window_start_time = 0;
    persistent = false;
    file = no_file;
  };
  aggregator = aggregator;
  spool = none;
  last_flush = some 100;
}

sends_one :
    (flush fixed noise (λ s. true) host wire (probe 10000000) clock 0).0
    ≡ done (accepted "batch" ∷ [])
unfolding flush spend reset_if_needed ◌+ℤ◌ flush_model
sends_one = refl

refuses_third : (flush fixed noise (λ s. true) host wire (probe 3000000) clock 0).0 ≡ out_of_budget
unfolding flush spend reset_if_needed ◌+ℤ◌
refuses_third = refl

flush-Gated_example :
    Gated fixed noise
      (λ s. true)
      host
      wire
      (length (model_tuples_pending fixed noise aggregator))
      (probe 10000000)
      clock
      (backlog_net fixed noise (λ s. true) host wire (probe 10000000) clock 0 none)
      (flush fixed noise (λ s. true) host wire (probe 10000000) clock 0)
flush-Gated_example = flush-Gated fixed noise (λ s. true) host wire (probe 10000000) clock 0
