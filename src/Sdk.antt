-- ===== src/Sdk.antt =====
-- probe/sdk.py `ProbeSDK.flush`: the backlog first, then pacing, the privacy budget, and one signed
-- batch for each model with staged results. Times are natural numbers, of microseconds but for the
-- spool's milliseconds. Serialising, signing and the HTTP client are parameters; the state of the
-- network and of the gateway behind it is `Net`.
pub mod Gate
pub mod Sending
mod Examples
use seismograph.Prelude.{
  ℕ, ◌+◌, ◌-◌, String, Bool, true, false, Option, none, some, List, [], ◌∷◌, length, ltb, leb, both,
  negate, if◌then◌else◌, ◌==◌, nat_eq,
}
use mathlib.Core.List.{◌++◌}
use seismograph.Prelude.Int.{ℤ}
use seismograph.Dict.{Dict}
use seismograph.Float.{Float}
use seismograph.Budget.{
  Accountant, epsilon, reset_if_needed, SpendResult, spent, not_positive, budget_exceeded,
}
use seismograph.Budget
use seismograph.Spool.{Host, Result, ok, value_error, other_error}
use seismograph.Spool.Body.{Headers}
use seismograph.Spool.Store.{Name, Fields, Spool, put_batch}
use seismograph.Spool.Drain.{DrainReport, drain}
use seismograph.Aggregator.{
  is_some, Noise, SignalBatch, Aggregator, clear_all, model_tuples_pending, pending_count,
}
use seismograph.Aggregator.Flush.{flush as flush_model}

pub data BatchResult : Type 0 where
  dry_run spooled duplicate accepted : String → BatchResult

pub data FlushResult : Type 0 where
  noop out_of_budget : FlushResult
  accumulating : ℕ → FlushResult
  done : List BatchResult → FlushResult
  -- an exception: out of the drain, or on the way of a batch
  drain_raised send_raised : FlushResult

-- What the clocks read during a flush, and whether the writes of the budget's file succeed.
pub record Clock : Type 0 where
  pub wall_ms : ℕ
  pub monotonic : ℕ
  pub wall_us : ℕ
  pub reset_ok : Bool
  pub spend_ok : Bool

pub record Wire (fl : Float) (host : Host) (Net : Type 0) : Type 0 where
  -- `canonical_json(batch.to_dict())`
  pub encode : SignalBatch fl → host.Bytes
  pub sign : host.Bytes → String
  pub public_key_hex : String
  -- a POST; no status stands for a transport error
  pub post : Net → host.Bytes → Dict String String → Option ℕ × Net
  -- a POST of a spooled entry
  pub resend : Net → host.Bytes → Headers → Option ℕ × Net
  -- the spool's file format
  pub dumps : Fields → host.Bytes

module _ (fl : Float) (noise : Noise fl) (is_uuid : String → Bool) (host : Host) {Net : Type 0}
    (wire : Wire fl host Net) where
  pub record ProbeSdk : Type 0 where
    pub min_flush_interval : ℕ
    pub no_network : Bool
    pub fleet_id : Option String
    pub accountant : Accountant
    pub aggregator : Aggregator fl noise
    pub spool : Option (Spool host)
    pub last_flush : Option ℕ

  -- What a step of the flush ends with: no value is an exception.
  abbrev pub Sent : Type 0
  Sent = Option BatchResult × ProbeSdk × Net

  abbrev pub headers_of : host.Bytes → Dict String String
  headers_of body =
      ("Content-Type", "application/json")
      ∷ ("x-signature", wire.sign body)
      ∷ ("x-public-key", wire.public_key_hex)
      ∷ []

  -- `self._spool.put`, whose errors leave the flush
  unfoldable pub kept : ProbeSdk → String → Net → Result Name × Spool host → Sent
  kept sdk batch_id w (ok name, s) = (some (spooled batch_id), record sdk { spool = some s }, w)
  kept sdk batch_id w (value_error, s) = (none, record sdk { spool = some s }, w)
  kept sdk batch_id w (other_error, s) = (none, record sdk { spool = some s }, w)

  unfoldable pub keep_batch :
      ProbeSdk → String → host.Bytes → Clock → Net → Option (Spool host) → Sent
  unfolding kept
  keep_batch sdk batch_id body clock w none = (none, sdk, w)
  keep_batch sdk batch_id body clock w (some s) =
      kept sdk batch_id w (put_batch host wire.dumps s body (headers_of body) clock.wall_ms)

  -- What becomes of a batch on the gateway's answer.
  unfoldable pub on_answer : ProbeSdk → String → host.Bytes → Clock → Option ℕ × Net → Sent
  unfolding keep_batch
  on_answer sdk batch_id body clock (none, w) = keep_batch sdk batch_id body clock w sdk.spool
  on_answer sdk batch_id body clock (some status, w) =
      if status == 409
      then (some (duplicate batch_id), sdk, w)
      else if both (leb 500 status) (is_some sdk.spool)
      then keep_batch sdk batch_id body clock w sdk.spool
      else if status == 202
      then (some (accepted batch_id), sdk, w)
      else (none, sdk, w)

  unfoldable pub send_batch : ProbeSdk → SignalBatch fl → Clock → Net → Sent
  unfolding on_answer
  send_batch sdk batch clock w =
      if sdk.no_network
      then (some (dry_run batch.batch_id), sdk, w)
      else (let body = wire.encode batch in
          on_answer sdk batch.batch_id body clock (wire.post w body (headers_of body)))

  -- One turn of the loop, given what the aggregator made of the model.
  unfoldable pub send_made :
      ProbeSdk → Clock → Net → Option (SignalBatch fl) × Aggregator fl noise → Sent
  unfolding send_batch
  send_made sdk clock w (none, a) = (none, record sdk { aggregator = a }, w)
  send_made sdk clock w (some batch, a) = send_batch (record sdk { aggregator = a }) batch clock w

  -- An exception ends the loop.
  abbrev pub go_on :
      (BatchResult → ProbeSdk → Net → FlushResult × ProbeSdk × Net)
      → Sent
      → FlushResult × ProbeSdk × Net
  go_on rest (none, after, w) = (send_raised, after, w)
  go_on rest (some result, after, w) = rest result after w

  unfoldable pub send_all :
      List String → List BatchResult → ProbeSdk → Clock → Net → FlushResult × ProbeSdk × Net
  unfolding send_made
  send_all [] results sdk clock w = (done results, sdk, w)
  send_all (model_tuple ∷ rest) results sdk clock w =
      go_on (λ result after w'. send_all rest (results ++ result ∷ []) after clock w')
        (send_made sdk clock w
          (flush_model fl noise is_uuid sdk.aggregator model_tuple sdk.fleet_id))

  -- The budget's answer decides whether anything is sent.
  unfoldable pub send_if_spent :
      List String → ProbeSdk → Clock → Net → SpendResult × Accountant → FlushResult × ProbeSdk × Net
  unfolding send_all clear_all
  send_if_spent pending sdk clock w (budget_exceeded, a) = (
    out_of_budget,
    record sdk { accountant = a; aggregator = clear_all fl noise sdk.aggregator },
    w,
  )
  send_if_spent pending sdk clock w (not_positive, a) =
      (send_raised, record sdk { accountant = a }, w)
  send_if_spent pending sdk clock w (spent, a) =
      send_all pending [] (record sdk { accountant = a; last_flush = some clock.monotonic }) clock w

  unfoldable pub spend_and_send :
      List String → ProbeSdk → Clock → Net → FlushResult × ProbeSdk × Net
  unfolding send_if_spent
  spend_and_send pending sdk clock w =
      let a = (reset_if_needed clock.reset_ok sdk.accountant clock.wall_us).1 in
      send_if_spent pending sdk clock w (Budget.spend clock.spend_ok a epsilon)

  -- `elapsed < min_interval` since the last transmission, if there was one
  abbrev pub throttled : ProbeSdk → Clock → Bool
  throttled sdk clock = both (ltb 0 sdk.min_flush_interval) (elim sdk.last_flush [
    | none ↦ false
    | some t ↦ ltb (clock.monotonic - t) sdk.min_flush_interval
  ])

  abbrev pub staged : Aggregator fl noise → List String → ℕ
  staged a [] = 0
  staged a (m ∷ ms) = pending_count fl noise a m + staged a ms

  -- `flush` after the drain
  unfoldable pub flush_pending : List String → ProbeSdk → Clock → Net → FlushResult × ProbeSdk × Net
  unfolding spend_and_send
  flush_pending [] sdk clock w = (noop, sdk, w)
  flush_pending (m ∷ ms) sdk clock w =
      if throttled sdk clock
      then (accumulating (staged sdk.aggregator (m ∷ ms)), sdk, w)
      else spend_and_send (m ∷ ms) sdk clock w

  unfoldable pub after_drain :
      ProbeSdk → Clock → (Spool host × Option DrainReport) × Net → FlushResult × ProbeSdk × Net
  unfolding flush_pending model_tuples_pending
  after_drain sdk clock ((s, none), w) = (drain_raised, record sdk { spool = some s }, w)
  after_drain sdk clock ((s, some report), w) =
      flush_pending (model_tuples_pending fl noise sdk.aggregator) (record sdk { spool = some s })
        clock w

  -- A probe without a spool, or in a dry run, drains nothing.
  unfoldable pub drain_first :
      ProbeSdk → Clock → Net → Option (Spool host) → FlushResult × ProbeSdk × Net
  unfolding after_drain
  drain_first sdk clock w none =
      flush_pending (model_tuples_pending fl noise sdk.aggregator) sdk clock w
  drain_first sdk clock w (some s) =
      if sdk.no_network
      then flush_pending (model_tuples_pending fl noise sdk.aggregator) sdk clock w
      else after_drain sdk clock (drain host wire.resend w s clock.wall_ms)

  unfoldable pub flush : ProbeSdk → Clock → Net → FlushResult × ProbeSdk × Net
  unfolding drain_first
  flush sdk clock w = drain_first sdk clock w sdk.spool
