-- ===== src/Lib.antt =====
-- A model of SEISMOGRAPH, a network in which probes send signed, noised measurements of language
-- models to a gateway, which looks for drift and publishes an alert when enough independent
-- organisations see it.
--
-- A probe stages the results of its canaries and turns them into noised batches (Aggregator).
-- Its flush (Sdk) pays from a daily privacy budget (Budget), signs each batch and sends it; a
-- batch that cannot be delivered waits in a directory (Spool). The gateway checks the signature
-- and the schema (Schema), refuses a batch_id that it has stored (Repository), and routes the
-- batch (Gateway): a batch without a fleet feeds the shared drift detector (Detector) and, on a
-- local alert, the agreement scorer (Scorer), whose promotion rule (Quorum) decides on a public
-- alert; a batch of a fleet feeds that fleet's own detector and its webhook. At its start it
-- warms the shared detector from the stored rows. A report on an alert can be exported with the
-- signals before it (Audit). Several gateways can share the scorer's tables on a Redis server
-- (Redis). Apart from the network, a tool compares two models on prompts of the user (Compare).
--
-- Which file models which part:
--   Quorum      engine/correlation.py, `required_quorum` and its constants
--   Scorer      engine/correlation.py, `AgreementScorer`; Gate is about the promotion rule, History
--               defines sequences of calls, Isolation is about other streams, Sybil about few orgs,
--               Expiry about the time window
--   Redis       engine/scorer_redis.py, `RedisAgreementScorer` and its Lua script; History has its
--               sequences of calls and their order, Streams the keys, Tables, Sets, Refines, Calls,
--               Promote and Others the steps of the comparison with Scorer, Agrees its result, Once
--               is about two promotions in a row, Memory is a server for the examples
--   Detector    engine/detector.py, `_MetricState` and `CUSUMDetector`; Streams, Alerts, Baseline
--               and Reset are about its methods
--   Budget      probe/privacy.py, `DPAccountant` and `recommended_flush_interval_seconds`; Spend,
--               Restart and Pacing are about them
--   Schema      gateway/schema.py, `InboundSignalBatch`; Hashes is about its hash check
--   Repository  engine/models.py and engine/repository.py, `SignalRepository` on in-memory tables
--   Gateway     gateway/main.py `ingest_signals` with gateway/auth.py `verify_signature` and
--               the state of `lifespan`; Loop has the outcome of one request, Store is about stored
--               batches, Fleet about the two paths, Startup has `bootstrap_detector`,
--               Warmup is about it, Public and Backed about public alerts
--   Weather     gateway/main.py `_compute_model_weather` and `_scorable_json_rate`; Light is about the
--               status, Rates about the JSON rate, Floor about the quorum floor
--   Spool       probe/spool.py; Body has `_validate_body` and `_check_headers` with `SignalBatch` of
--               probe/privacy.py, Store has `Spool` up to `_load`, Drain has `_scan` and `drain`;
--               Files, Held, Loaded, Scanned, Waiting and Order have lemmas, Account, Cap, Reload and Sent
--               are about accounting, the cap, reading back, and the order of sending
--   Aggregator  probe/privacy.py, `Aggregator`, `SignalBatch` and the sensitivities; Flush has `flush`,
--               Staged is about its batches
--   Sdk         probe/sdk.py `ProbeSDK.flush`; Sending is about its loop, Gate about the budget and
--               the pacing
--   Compare     probe/compare.py: failures, observations and sides; Asking has `Side.ask` and
--               `run_calls`, Suite `load_suite`, Stats the statistics, Verdict `evaluate_metric`,
--               Outcome `compare`; Calls, Keeps, Runs and Collected are about the calls, and
--               Suite/Gives and Suite/Accepted are about accepted suites
--   Audit       engine/audit.py `AuditReportGenerator.generate` with the repository's
--               `get_signals_before_timestamp`; Export has gateway/main.py `export_audit_report`,
--               Window is about the evidence, Released about who gets a report
--   Float       the operations on floats that the code calls, as an interface
--   Prelude, Dict  shared lemmas: tests, lists, integers, dictionaries
--
-- Each module Examples has tests on concrete inputs and applies the theorems to such inputs.
--
-- State and time. A method is a function from the state to its result and the new state, and a
-- handler of the gateway a function from the gateway to a response and the next gateway; it has
-- no await after the body is read, so requests do not interleave. The clocks are arguments: each
-- call gets the value that the code reads. Nanoseconds, microseconds and milliseconds are
-- natural numbers, without an upper bound except the 15 digits of a spool file's name. Every
-- loop is structural recursion over a list, or over the retries left of a call, so no function
-- takes fuel; the test value of Float has a square root on 3000 steps.
--
-- Numbers. Floats are an interface (Float) without rounding, so the theorems about the detector
-- and the weather hold for every such structure. Where an operation of the code raises, on the
-- square of a large float and on `int` of NaN or infinity, the interface returns none, and the model
-- follows the exception to its end. The privacy budget counts epsilon in whole millionths, exactly:
-- NaN, and the rounding and absorption of float sums, are outside its model.
--
-- Parameters stand for code that is not in the repository: Ed25519, Pydantic's parsing of a body
-- and the character class of `re` (Gateway.Host), JSON, base64 and UUIDs (Spool.Host), the
-- transport of a drain (its `send`), the commands of a Redis server (Redis.Redis, with their
-- documented effect in RedisLaws, which Redis/Memory satisfies), random draws (Aggregator.Noise,
-- Compare.Stats.Random), the HTTP client and the signing of a flush (Sdk.Wire), the models, the
-- pauses and Python's functions on texts of a comparison (Side.caller, Compare.Host), the file
-- of a suite (Suite.SuiteHost), and the ISO times and the SHA-256 of an audit report
-- (Audit.Encoding).
--
-- Not modelled: the eviction of a Redis key by EXPIRE between two calls, webhook registration
-- and delivery, the ClickHouse variant, the spans of the SDK, modal answers, levels and the
-- report of a comparison, the texts of the canaries, provider clients, scripts and the
-- dashboard; failures of the file system other than a failed write of the budget's file.
pub mod Prelude
pub mod Dict
pub mod Quorum
pub mod Scorer
pub mod Float
pub mod Detector
pub mod Budget
pub mod Schema
pub mod Redis
pub mod Sdk
pub mod Aggregator
pub mod Audit
pub mod Compare
pub mod Repository
pub mod Gateway
pub mod Weather
pub mod Spool
