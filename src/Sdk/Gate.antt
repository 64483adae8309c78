-- ===== src/Sdk/Gate.antt =====
-- probe/sdk.py `ProbeSDK.flush`: pacing and the privacy budget come before every new batch.
use seismograph.Prelude.{
  inr, inl, ap, sym, Bool-cases, ℕ, ◌≡◌, refl, ◌∙◌, String, Bool, true, false, Option, none, some,
  List, [], ◌∷◌, length, arith, if◌then◌else◌, nat_eq,
}
use seismograph.Float.{Float}
use seismograph.Budget.{
  Accountant, epsilon, reset_if_needed, SpendResult, spent, not_positive, budget_exceeded,
}
use seismograph.Budget
use seismograph.Spool.{Host}
use seismograph.Spool.Store.{Spool}
use seismograph.Aggregator.{model_tuples_pending, clear_all, Noise}
use seismograph.Sdk.{
  flush, DrainReport, after_drain, drain, drain_first, spend_and_send, send_if_spent, flush_pending,
  FlushResult, noop, out_of_budget, accumulating, done, drain_raised, send_raised, Clock, Wire,
  throttled,
}
use seismograph.Sdk.Sending.{Sdk, Paid, Sends, send_all-Paid}

exceeded_ne : budget_exceeded ≡ not_positive → true ≡ false
exceeded_ne h = cc

spent_ne : spent ≡ not_positive → true ≡ false
spent_ne h = cc

module _ (fl : Float) (noise : Noise fl) (is_uuid : String → Bool) (host : Host) {Net : Type 0}
    (wire : Wire fl host Net) where
  -- The budget after the reset that is due, and its answer to one flush more.
  abbrev pub reset_budget : Sdk fl noise is_uuid host wire → Clock → Accountant
  reset_budget sdk clock = (reset_if_needed clock.reset_ok sdk.accountant clock.wall_us).1

  abbrev pub spend_one : Sdk fl noise is_uuid host wire → Clock → SpendResult × Accountant
  spend_one sdk clock = Budget.spend clock.spend_ok (reset_budget sdk clock) epsilon

  -- What was sent was paid for, once, and not before the interval was over.
  abbrev pub Transmits :
      Sdk fl noise is_uuid host wire → Clock → Sdk fl noise is_uuid host wire → Type 0
  Transmits before clock after =
      ((spend_one before clock).0 ≡ spent)
      × (after.accountant ≡ (spend_one before clock).1)
      × (after.last_flush ≡ some clock.monotonic)
      × (throttled fl noise is_uuid host wire before clock ≡ false)

  abbrev pub Idle : Sdk fl noise is_uuid host wire → Sdk fl noise is_uuid host wire → Type 0
  Idle before after =
      (after.accountant ≡ before.accountant)
      × (after.last_flush ≡ before.last_flush)
      × (after.aggregator ≡ before.aggregator)

  -- What each result of a flush says of the probe and of the network; `drained` is the network
  -- after the backlog.
  abbrev pub Gated :
      ℕ
      → Sdk fl noise is_uuid host wire
      → Clock
      → Net
      → FlushResult × Sdk fl noise is_uuid host wire × Net
      → Type 0
  Gated n before clock drained (noop, after, w) = Idle before after × (w ≡ drained)
  Gated n before clock drained (accumulating m, after, w) =
      Idle before after × (w ≡ drained) × (throttled fl noise is_uuid host wire before clock ≡ true)
  Gated n before clock drained (out_of_budget, after, w) =
      ((spend_one before clock).0 ≡ budget_exceeded)
      × (after.accountant ≡ (spend_one before clock).1)
      × (after.last_flush ≡ before.last_flush)
      × (after.aggregator.pending ≡ [])
      × (w ≡ drained)
  Gated n before clock drained (done results, after, w) =
      Transmits before clock after × (length results ≡ n)
  Gated n before clock drained (send_raised, after, w) = Transmits before clock after
  Gated n before clock drained (drain_raised, after, w) = Idle before after × (w ≡ drained)

  Sends-Gated :
      (n : ℕ) (before first : Sdk fl noise is_uuid host wire) (clock : Clock) (drained : Net)
      (r : FlushResult × Sdk fl noise is_uuid host wire × Net)
      → Transmits before clock first
      → Paid fl noise is_uuid host wire r.1 first
      → Sends fl noise is_uuid host wire n r.0
      → Gated n before clock drained r
  Sends-Gated n before first clock drained (done results, after, w) t p s =
      ((t.0, p.0 ∙ t.1, p.1 ∙ t.2, t.3), s)
  Sends-Gated n before first clock drained (send_raised, after, w) t p s =
      (t.0, p.0 ∙ t.1, p.1 ∙ t.2, t.3)
  Sends-Gated n before first clock drained (noop, after, w) t p s = absurd cc
  Sends-Gated n before first clock drained (out_of_budget, after, w) t p s = absurd cc
  Sends-Gated n before first clock drained (accumulating m, after, w) t p s = absurd cc
  Sends-Gated n before first clock drained (drain_raised, after, w) t p s = absurd cc

  if-spent :
      (b c : Bool) (x y z : SpendResult × Accountant)
      → b ≡ false
      → ((y.0 ≡ not_positive) → true ≡ false)
      → ((z.0 ≡ not_positive) → true ≡ false)
      → ((if b then x else if c then y else z).0 ≡ not_positive)
      → true ≡ false
  if-spent true c x y z e hy hz h = e
  if-spent false true x y z e hy hz h = hy h
  if-spent false false x y z e hy hz h = hz h

  -- FLUSH_EPSILON is positive.
  spend_one-positive :
      (sdk : Sdk fl noise is_uuid host wire) (clock : Clock)
      → (spend_one sdk clock).0 ≡ not_positive
      → true ≡ false
  unfolding Budget.spend
  spend_one-positive sdk clock h =
      if-spent false _ (not_positive, reset_budget sdk clock) _ _ refl exceeded_ne spent_ne h

  send_if_spent-Gated :
      (models : List String) (sdk : Sdk fl noise is_uuid host wire) (clock : Clock) (w : Net)
      (x : SpendResult × Accountant)
      → x ≡ spend_one sdk clock
      → throttled fl noise is_uuid host wire sdk clock ≡ false
      → Gated
          (length models)
          sdk
          clock
          w
          (send_if_spent fl noise is_uuid host wire models sdk clock w x)
  unfolding send_if_spent clear_all
  send_if_spent-Gated models sdk clock w (budget_exceeded, a) e t =
      (sym (ap (λ y. y.0) e), ap (λ y. y.1) e, refl, refl, refl)
  send_if_spent-Gated models sdk clock w (not_positive, a) e t =
      absurd (cc (spend_one-positive sdk clock (sym (ap (λ y. y.0) e))))
  send_if_spent-Gated models sdk clock w (spent, a) e t =
      let first : Sdk fl noise is_uuid host wire = record sdk {
        accountant = a;
        last_flush = some clock.monotonic;
      } in
      let (paid, sends) =
        send_all-Paid fl noise is_uuid host wire models [] (length models) first first clock w
          (omega arith) (refl, refl) in
      Sends-Gated (length models) sdk first clock w _
        (sym (ap (λ y. y.0) e), ap (λ y. y.1) e, refl, t) paid sends

  flush_pending-Gated :
      (models : List String) (sdk : Sdk fl noise is_uuid host wire) (clock : Clock) (w : Net)
      → Gated
          (length models)
          sdk
          clock
          w
          (flush_pending fl noise is_uuid host wire models sdk clock w)
  unfolding flush_pending spend_and_send
  flush_pending-Gated [] sdk clock w = ((refl, refl, refl), refl)
  flush_pending-Gated (m ∷ ms) sdk clock w =
      elim (Bool-cases (throttled fl noise is_uuid host wire sdk clock)) [
        | inl early ↦ rw (early, flush_pending) ((refl, refl, refl), refl, early)
        | inr late ↦
            rw (late, flush_pending)
              (send_if_spent-Gated (m ∷ ms) sdk clock w (spend_one sdk clock) refl late)
      ]

  after_drain-Gated :
      (sdk : Sdk fl noise is_uuid host wire) (clock : Clock)
      (x : (Spool host × Option DrainReport) × Net)
      → Gated
          (length (model_tuples_pending fl noise sdk.aggregator))
          sdk
          clock
          x.1
          (after_drain fl noise is_uuid host wire sdk clock x)
  unfolding after_drain
  after_drain-Gated sdk clock ((s, none), w) = ((refl, refl, refl), refl)
  after_drain-Gated sdk clock ((s, some report), w) =
      flush_pending-Gated (model_tuples_pending fl noise sdk.aggregator)
        (record sdk { spool = some s }) clock w

  -- The network after the backlog, which a probe without a spool or in a dry run does not have.
  abbrev pub backlog_net : Sdk fl noise is_uuid host wire → Clock → Net → Option (Spool host) → Net
  backlog_net sdk clock w none = w
  backlog_net sdk clock w (some s) =
      if sdk.no_network then w else (drain host wire.resend w s clock.wall_ms).1

  drain_if-Gated :
      (dry : Bool) (sdk : Sdk fl noise is_uuid host wire) (clock : Clock) (w : Net) (s : Spool host)
      → Gated
          (length (model_tuples_pending fl noise sdk.aggregator))
          sdk
          clock
          (if dry then w else (drain host wire.resend w s clock.wall_ms).1)
          (if dry
            then flush_pending fl noise is_uuid host wire
                (model_tuples_pending fl noise sdk.aggregator)
                sdk
                clock
                w
            else after_drain fl noise is_uuid host wire sdk clock
                (drain host wire.resend w s clock.wall_ms))
  drain_if-Gated true sdk clock w s =
      flush_pending-Gated (model_tuples_pending fl noise sdk.aggregator) sdk clock w
  drain_if-Gated false sdk clock w s =
      after_drain-Gated sdk clock (drain host wire.resend w s clock.wall_ms)

  drain_first-Gated :
      (sdk : Sdk fl noise is_uuid host wire) (clock : Clock) (w : Net) (o : Option (Spool host))
      → Gated
          (length (model_tuples_pending fl noise sdk.aggregator))
          sdk
          clock
          (backlog_net sdk clock w o)
          (drain_first fl noise is_uuid host wire sdk clock w o)
  unfolding drain_first
  drain_first-Gated sdk clock w none =
      flush_pending-Gated (model_tuples_pending fl noise sdk.aggregator) sdk clock w
  drain_first-Gated sdk clock w (some s) = drain_if-Gated sdk.no_network sdk clock w s

  -- After the backlog, a flush reaches the network only if the budget has been reset where that is
  -- due, has granted one flush and is charged for it once, the pacing interval is over, and the
  -- time is noted for the next one; it then ends with one result for each model that had results,
  -- or with an exception. A flush that finds nothing, comes too early or fails in the backlog leaves
  -- the budget and the staged results alone, and one that the budget refuses drops them all.
  pub flush-Gated :
      (sdk : Sdk fl noise is_uuid host wire) (clock : Clock) (w : Net)
      → Gated
          (length (model_tuples_pending fl noise sdk.aggregator))
          sdk
          clock
          (backlog_net sdk clock w sdk.spool)
          (flush fl noise is_uuid host wire sdk clock w)
  unfolding flush
  flush-Gated sdk clock w = drain_first-Gated sdk clock w sdk.spool
