-- ===== src/Compare/Examples.antt =====
-- Runs of probe/compare.py on scripted answers, and its theorems at concrete inputs.
use seismograph.Float.{maximum}
use seismograph.Dict.{Dict}
use seismograph.Prelude.{
  ◌%◌, ◌/◌, nat_eq, ℕ, ◌+◌, ◌*◌, ◌≤◌, ◌≡◌, ◌↔◌, refl, String, true, false, none, some, List, [],
  ◌∷◌, All, map, length, both, if◌then◌else◌, ◌==◌, string_eq,
}
use seismograph.Float.Fixed.{fixed}
use seismograph.Dict.Keys.{Distinct}
use seismograph.Prelude.Int.{◌+ℤ◌, ◌-ℤ◌}
use seismograph.Compare.{
  valid, failed, Observation, Reply, raised, completed, SuiteItem, Side, Host, auth, classify,
}
use seismograph.Compare.Asking.{Observations, ask, run_calls, of_item}
use seismograph.Compare.Runs.{run_calls_bounded}
use seismograph.Compare.Collected.{run_calls_collects}
use seismograph.Compare.Suite.{
  SuiteHost, object, text, boolean, Usable, accepted, load_suite, max_items,
}
use seismograph.Compare.Suite.Accepted.{load_suite-Accepted, Each, written}
use seismograph.Compare.Stats.{Random, permutation_p, mean, item_stat}
use seismograph.Compare.Verdict.{MetricSpec, changed, not_measured, evaluate_metric}
use seismograph.Compare.Outcome.{
  compare, Evidence, evidence, evaluate_metric_changed, pairs_of, compare_outcome,
}

abbrev question : String → SuiteItem
question id = record { id = id; user = "say hello"; system = none; expect_json = false }

abbrev questions : List SuiteItem
questions = question "q1" ∷ question "q2" ∷ []

abbrev refusing : ℕ → Reply
refusing status =
    raised (record { status_code = some status; error_code = none; failure_kind = some "http" })

abbrev hello : Reply
hello = completed (record {
  text = "hello";
  output_tokens = some 1;
  reasoning_tokens = none;
  latency_ms = 20;
  finish_reason = some "stop";
  returned_model = some "m";
})

-- The world is the list of the answers to come; after them every answer is a greeting.
abbrev host : Host (List Reply)
host = record {
  sleep = λ n w. w;
  lower = λ cs. cs;
  is_blank = λ s. s == "";
  hash_output = λ s. s;
  is_json_valid = λ s. false;
}

abbrev side : String → Side (List Reply)
side label = record {
  label = label;
  requested = "provider/model";
  caller = λ item temperature w. elim w [ [] ↦ (hello, []) | r ∷ rs ↦ (r, rs) ];
  delay_ms = 0;
  send_temperature = true;
  temperature = "0";
  fallback_tried = false;
  fatal = none;
  calls_made = 0;
}

abbrev sides : List (Side (List Reply))
sides = side "A" ∷ side "B" ∷ []

-- Two retries, then the fallback without temperature: four calls for one question.
four_calls :
    (ask host
      (side "A")
      (question "q1")
      (refusing 429 ∷ refusing 503 ∷ refusing 400 ∷ [])).1.calls_made
    ≡ 4
unfolding ask classify
four_calls = refl

stops_on_auth :
    (ask host (side "A") (question "q1") (refusing 401 ∷ refusing 400 ∷ [])).1.fatal ≡ some auth
unfolding ask classify
stops_on_auth = refl

run_calls_bounded_example :
    All
      (λ s. s.calls_made ≤ 2 * (3 * length questions) + 1)
      (run_calls host questions sides 2 (refusing 429 ∷ refusing 401 ∷ [])).0
run_calls_bounded_example =
    run_calls_bounded host questions sides 2 (refusing 429 ∷ refusing 401 ∷ []) (refl, (refl, tt))

run_calls_collects_example :
    length (of_item "B" "q2" (run_calls host questions sides 3 (refusing 401 ∷ [])).1) ≡ 3
run_calls_collects_example =
    run_calls_collects host questions sides 3 (refusing 401 ∷ []) "B" "q2" (refl, (refl, tt)) refl
      (refl, (refl, tt)) refl

abbrev suite_host : SuiteHost String
suite_host = record {
  decode = λ raw. some raw;
  splitlines = λ s. "one" ∷ "" ∷ "two" ∷ [];
  is_blank = λ s. s == "";
  loads =
      λ line. object (("id", text line) ∷ ("user", text "hi") ∷ ("expect_json", boolean true) ∷ []);
  sha256 = λ raw. raw;
}

abbrev loaded_items : List SuiteItem
loaded_items =
    (record { id = "one"; user = "hi"; system = none; expect_json = true })
    ∷ (record { id = "two"; user = "hi"; system = none; expect_json = true })
    ∷ []

loads_two : (load_suite suite_host "file").0 ≡ accepted loaded_items
unfolding load_suite
loads_two = refl

load_suite-Accepted_example :
    (s : String) × ((some "file" ≡ some s)
      × Each suite_host (written suite_host s) loaded_items
      × (1 ≤ length loaded_items)
      × (length loaded_items ≤ max_items)
      × Distinct (map (λ i. i.id) loaded_items)
      × All Usable loaded_items)
load_suite-Accepted_example = load_suite-Accepted suite_host "file" loaded_items loads_two

-- A linear congruential generator.
abbrev rand : Random
rand = record {
  State = ℕ;
  seeded = λ n. n;
  randrange = λ n s. (s / 65536 % n, (s * 1103515245 + 12345) % 2147483648);
}

-- Lengths, as a metric.
abbrev lengths : MetricSpec fixed
lengths = record {
  Datum = ℕ;
  name = "length";
  value = λ o. o.length;
  dist = λ a b. if a == b then fixed.lit 0 1 else fixed.lit 1 1;
  json_only = false;
  heuristic = false;
}

-- Five questions, which a side answers twice, always with the same length.
abbrev five : List SuiteItem
five = question "q1" ∷ question "q2" ∷ question "q3" ∷ question "q4" ∷ question "q5" ∷ []

abbrev answer : ℕ → Observation
answer n = record (failed auth) { failure = none; length = some n }

abbrev answers : ℕ → Dict String (List Observation)
answers n = map (λ item. (item.id, answer n ∷ answer n ∷ [])) five

abbrev differing : Observations
differing = ("A", answers 10) ∷ ("B", answers 30) ∷ []

changed_here : (evaluate_metric fixed rand lengths five differing "A" "B" true 7).verdict ≡ changed
unfolding evaluate_metric valid ◌+ℤ◌ ◌-ℤ◌
changed_here = refl

evaluate_metric_changed_example :
    ((evaluate_metric fixed rand lengths five differing "A" "B" true 7).verdict ≡ changed) ↔ (
      let pairs = pairs_of fixed rand lengths differing "A" "B" five in
      let wa = mean fixed (map (λ p. (item_stat fixed lengths.dist p.0 p.1).wa) pairs) in
      let wb = mean fixed (map (λ p. (item_stat fixed lengths.dist p.0 p.1).wb) pairs) in
      let cr = mean fixed (map (λ p. (item_stat fixed lengths.dist p.0 p.1).cr) pairs) in
      (true ≡ true)
      × (5 ≤ length pairs)
      × (fixed.ltb (fixed.lit 1 100) (permutation_p fixed lengths.dist rand pairs 7) ≡ false)
      × (fixed.ltb (fixed.add (maximum fixed wa wb) (fixed.lit 1 1000000000000)) cr ≡ true))
evaluate_metric_changed_example =
    evaluate_metric_changed fixed rand lengths five differing "A" "B" true 7

abbrev spent : Evidence fixed rand
spent =
    evidence fixed rand 7 questions "A" "B" (run_calls host questions sides 2 (refusing 401 ∷ [])).1
      (map (λ s. s.calls_made) (run_calls host questions sides 2 (refusing 401 ∷ [])).0)

compare_outcome_example :
    (2 ≤ 2)
    × (2 ≤ 5)
    × ((both spent.measured_a spent.measured_b ≡ true) → spent.exit_code ≡ 0)
    × ((both spent.measured_a spent.measured_b ≡ false)
        → (spent.exit_code ≡ 2) × All (λ r. r.verdict ≡ not_measured) spent.rows)
unfolding compare
compare_outcome_example =
    compare_outcome fixed rand host (λ a b c n. 7) questions "sha" (side "A") (side "B") 2
      (refusing 401 ∷ []) (run_calls host questions sides 2 (refusing 401 ∷ [])).2 spent refl
