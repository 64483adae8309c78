-- ===== src/Compare/Asking.antt =====
-- probe/compare.py: `Side._call`, `Side.ask` with its retries and its temperature fallback, and
-- `run_calls`, the schedule of all calls. The loop of `ask` recurses on the retries left.
use Prim.Native.Nat.{◌^◌}
use seismograph.Prelude.{
  ℕ, zero, suc, ◌+◌, ◌*◌, ◌-◌, String, Bool, true, false, none, some, List, [], ◌∷◌, both, negate,
  if◌then◌else◌, nat_eq, string_eq, ltb,
}
use mathlib.Core.List.{◌++◌}
use seismograph.Dict.{Dict, get, put, or_default}
use seismograph.Compare.{
  Option, Failure, Observation, SuiteItem, Side, Reply, raised, completed, ProviderError, Host,
  failed, not_attempted, observation, classify, is_retryable, is_fatal, is_400, max_retries,
  retry_base_ms, temp_default,
}

-- `{label: {id: [observation, ...]}}`
abbrev pub Observations : Type 0
Observations = Dict String (Dict String (List Observation))

abbrev pub of_item : String → String → Observations → List Observation
of_item label id obs = or_default [] (get id (or_default [] (get label obs)))

-- `obs[label][id].append(o)`, where both keys are there from the start
unfoldable pub append_to : String → String → Observation → Observations → Observations
append_to label id o obs =
    put label (put id (of_item label id obs ++ o ∷ []) (or_default [] (get label obs))) obs

module _ {W : Type 0} (host : Host W) where
  abbrev pub Asked : Type 0
  Asked = Observation × Side W × W

  unfoldable pub call : Side W → SuiteItem → Bool → W → Reply × Side W × W
  call side item send_temperature w =
      let counted = record side { calls_made = side.calls_made + 1 } in
      let (reply, after) = side.caller item send_temperature w in
      (reply, counted, if ltb 0 side.delay_ms then host.sleep side.delay_ms after else after)

  -- A failed call that is not tried again.
  unfoldable pub give_up : Failure → Side W → W → Asked
  give_up cls side w =
      (failed cls, if is_fatal cls then record side { fatal = some cls } else side, w)

  unfoldable pub fallback_reply : SuiteItem → Reply × Side W × W → Asked
  unfolding give_up
  fallback_reply item (raised exc, side, w) = give_up (classify host.lower exc) side w
  fallback_reply item (completed res, side, w) = (
    observation host item res,
    record side { send_temperature = false; temperature = temp_default },
    w,
  )

  -- `_temperature_fallback`
  unfoldable pub temperature_fallback : Side W → SuiteItem → W → Asked
  unfolding call fallback_reply
  temperature_fallback side item w =
      fallback_reply item (call (record side { fallback_tried = true }) item false w)

  -- `exc.status_code == 400 and self.send_temperature and not self._fallback_tried`
  abbrev pub rejects_temperature : ProviderError → Side W → Bool
  rejects_temperature exc side =
      both (is_400 exc.status_code) (both side.send_temperature (negate side.fallback_tried))

  -- One turn of the loop of `ask`, where `again` says what a failure leads to.
  unfoldable pub answer : SuiteItem → (Failure → Side W → W → Asked) → Reply × Side W × W → Asked
  unfolding temperature_fallback
  answer item again (completed res, side, w) = (observation host item res, side, w)
  answer item again (raised exc, side, w) = elim (rejects_temperature exc side) [
    | true ↦ temperature_fallback side item w
    | false ↦ again (classify host.lower exc) side w
  ]

  -- Another turn after a failure of a class that is tried again.
  unfoldable pub if_retryable : (Side W → W → Asked) → Failure → Side W → W → Asked
  unfolding give_up
  if_retryable again cls side w = elim (is_retryable cls) [
    | true ↦ again side w
    | false ↦ give_up cls side w
  ]

  -- The loop of `ask`, with the retries left.
  unfoldable pub ask_loop : ℕ → SuiteItem → Side W → W → Asked
  unfolding call answer give_up if_retryable
  ask_loop zero item side w = answer item give_up (call side item side.send_temperature w)
  ask_loop (suc left) item side w =
      answer item
        (if_retryable (λ called after.
          ask_loop left item called
            (host.sleep (retry_base_ms * 2 ^ (max_retries - suc left)) after)))
        (call side item side.send_temperature w)

  -- `ask`, given `self.fatal`
  unfoldable pub ask_unless : Option Failure → Side W → SuiteItem → W → Asked
  unfolding ask_loop
  ask_unless (some cls) side item w = (failed not_attempted, side, w)
  ask_unless none side item w = ask_loop max_retries item side w

  unfoldable pub ask : Side W → SuiteItem → W → Asked
  unfolding ask_unless
  ask side item w = ask_unless side.fatal side item w

  -- The loops of `run_calls`, from the inside out.
  unfoldable pub ask_sides :
      SuiteItem → List (Side W) → Observations → W → List (Side W) × Observations × W
  unfolding ask append_to
  ask_sides item [] obs w = ([], obs, w)
  ask_sides item (side ∷ sides) obs w =
      let (o, asked, after) = ask side item w in
      let (rest, all, last) = ask_sides item sides (append_to side.label item.id o obs) after in
      (asked ∷ rest, all, last)

  unfoldable pub ask_items :
      List SuiteItem → List (Side W) → Observations → W → List (Side W) × Observations × W
  unfolding ask_sides
  ask_items [] sides obs w = (sides, obs, w)
  ask_items (item ∷ items) sides obs w =
      let (asked, some_obs, after) = ask_sides item sides obs w in
      ask_items items asked some_obs after

  unfoldable pub ask_rounds :
      ℕ → List SuiteItem → List (Side W) → Observations → W → List (Side W) × Observations × W
  unfolding ask_items
  ask_rounds zero items sides obs w = (sides, obs, w)
  ask_rounds (suc n) items sides obs w =
      let (asked, some_obs, after) = ask_items items sides obs w in
      ask_rounds n items asked some_obs after

  -- `{it.id: [] for it in items}`, into a dict that starts empty
  unfoldable pub no_answers :
      List SuiteItem → Dict String (List Observation) → Dict String (List Observation)
  no_answers [] d = d
  no_answers (item ∷ items) d = no_answers items (put item.id [] d)

  -- `{s.label: {...} for s in sides}`
  unfoldable pub no_observations : List SuiteItem → List (Side W) → Observations → Observations
  unfolding no_answers
  no_observations items [] obs = obs
  no_observations items (side ∷ sides) obs =
      no_observations items sides (put side.label (no_answers items []) obs)

  -- `run_calls`, without the progress callback
  unfoldable pub run_calls :
      List SuiteItem → List (Side W) → ℕ → W → List (Side W) × Observations × W
  unfolding ask_rounds no_observations
  run_calls items sides repeats w =
      ask_rounds repeats items sides (no_observations items sides []) w
