-- ===== src/Sdk/Sending.antt =====
-- The loop of `ProbeSDK.flush` of probe/sdk.py over the models: it leaves the budget and the pacing
-- alone, and ends with a result for each model or with an exception.
use seismograph.Prelude.{
  ℕ, ◌+◌, ◌≡◌, refl, ◌∙◌, String, Bool, true, false, Option, none, some, List, [], ◌∷◌, length,
  length-append, arith, both, leb, if◌then◌else◌, ◌==◌, nat_eq,
}
use mathlib.Core.List.{◌++◌}
use seismograph.Float.{Float}
use seismograph.Spool.{Host, Result, ok, value_error, other_error}
use seismograph.Spool.Store.{Name, Spool}
use seismograph.Aggregator.{is_some, Noise, SignalBatch, Aggregator}
use seismograph.Aggregator.Flush.{flush as flush_model}
use seismograph.Sdk.{
  BatchResult, FlushResult, done, send_raised, Clock, Wire, ProbeSdk, Sent, kept, keep_batch,
  on_answer, send_batch, send_made, go_on, send_all, is_some, headers_of,
}

module _ (fl : Float) (noise : Noise fl) (is_uuid : String → Bool) (host : Host) {Net : Type 0}
    (wire : Wire fl host Net) where
  abbrev pub Sdk : Type 0
  Sdk = ProbeSdk fl noise is_uuid host wire

  -- The budget and the pacing are the same in two states.
  abbrev pub Paid : Sdk → Sdk → Type 0
  Paid s t = (s.accountant ≡ t.accountant) × (s.last_flush ≡ t.last_flush)

  kept-Paid :
      (sdk : Sdk) (id : String) (w : Net) (r : Result Name) (s : Spool host)
      → Paid (kept fl noise is_uuid host wire sdk id w (r, s)).1 sdk
  unfolding kept
  kept-Paid sdk id w (ok name) s = (refl, refl)
  kept-Paid sdk id w value_error s = (refl, refl)
  kept-Paid sdk id w other_error s = (refl, refl)

  keep_batch-Paid :
      (sdk : Sdk) (id : String) (body : host.Bytes) (clock : Clock) (w : Net)
      (o : Option (Spool host))
      → Paid (keep_batch fl noise is_uuid host wire sdk id body clock w o).1 sdk
  unfolding keep_batch
  keep_batch-Paid sdk id body clock w none = (refl, refl)
  keep_batch-Paid sdk id body clock w (some s) = kept-Paid sdk id w _ _

  if-Paid :
      (b : Bool) (x y : Sent fl noise is_uuid host wire) (sdk : Sdk)
      → Paid x.1 sdk
      → Paid y.1 sdk
      → Paid (if b then x else y).1 sdk
  if-Paid true x y sdk p q = p
  if-Paid false x y sdk p q = q

  on_answer-Paid :
      (sdk : Sdk) (id : String) (body : host.Bytes) (clock : Clock) (o : Option ℕ) (w : Net)
      → Paid (on_answer fl noise is_uuid host wire sdk id body clock (o, w)).1 sdk
  unfolding on_answer
  on_answer-Paid sdk id body clock none w = keep_batch-Paid sdk id body clock w sdk.spool
  on_answer-Paid sdk id body clock (some status) w =
      if-Paid (status == 409) _ _ sdk (refl, refl)
        (if-Paid (both (leb 500 status) (is_some sdk.spool)) _ _ sdk
          (keep_batch-Paid sdk id body clock w sdk.spool)
          (if-Paid (status == 202) _ _ sdk (refl, refl) (refl, refl)))

  send_batch-Paid :
      (sdk : Sdk) (batch : SignalBatch fl) (clock : Clock) (w : Net)
      → Paid (send_batch fl noise is_uuid host wire sdk batch clock w).1 sdk
  unfolding send_batch
  send_batch-Paid sdk batch clock w =
      let body = wire.encode batch in
      let r = wire.post w body (headers_of fl noise is_uuid host wire body) in
      if-Paid sdk.no_network _ _ sdk (refl, refl)
        (on_answer-Paid sdk batch.batch_id body clock r.0 r.1)

  send_made-Paid :
      (sdk : Sdk) (clock : Clock) (w : Net) (o : Option (SignalBatch fl)) (a : Aggregator fl noise)
      → Paid (send_made fl noise is_uuid host wire sdk clock w (o, a)).1 sdk
  unfolding send_made
  send_made-Paid sdk clock w none a = (refl, refl)
  send_made-Paid sdk clock w (some batch) a =
      send_batch-Paid (record sdk { aggregator = a }) batch clock w

  -- The loop ends with a result for each model, or with an exception.
  abbrev pub Sends : ℕ → FlushResult → Type 0
  Sends n (done results) = length results ≡ n
  Sends n send_raised = Unit
  Sends n _ = true ≡ false

  go_on-Paid :
      (n : ℕ) (sdk : Sdk) (rest : BatchResult → Sdk → Net → FlushResult × Sdk × Net)
      (x : Sent fl noise is_uuid host wire)
      → Paid x.1 sdk
      → ((r : BatchResult) (after : Sdk) (w : Net)
          → Paid after sdk
          → Paid (rest r after w).1 sdk × Sends n (rest r after w).0)
      → (let y = go_on fl noise is_uuid host wire rest x in Paid y.1 sdk × Sends n y.0)
  go_on-Paid n sdk rest (none, after, w) p h = (p, tt)
  go_on-Paid n sdk rest (some r, after, w) p h = h r after w p

  pub send_all-Paid :
      (models : List String) (results : List BatchResult) (n : ℕ) (first sdk : Sdk) (clock : Clock)
      (w : Net)
      → length results + length models ≡ n
      → Paid sdk first
      → (let r = send_all fl noise is_uuid host wire models results sdk clock w in
          Paid r.1 first × Sends n r.0)
  unfolding send_all
  send_all-Paid [] results n first sdk clock w e p = (p, omega arith)
  send_all-Paid (m ∷ ms) results n first sdk clock w e p =
      let made = flush_model fl noise is_uuid sdk.aggregator m sdk.fleet_id in
      let paid = send_made-Paid sdk clock w made.0 made.1 in
      go_on-Paid n first
        (λ r after w'. send_all fl noise is_uuid host wire ms (results ++ r ∷ []) after clock w')
        (send_made fl noise is_uuid host wire sdk clock w made) (paid.0 ∙ p.0, paid.1 ∙ p.1)
        (λ r after w'.
          send_all-Paid ms (results ++ r ∷ []) n first after clock w'
            (omega (arith, length-append results (r ∷ []))))
