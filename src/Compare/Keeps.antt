-- ===== src/Compare/Keeps.antt =====
-- What `Side.ask` does to a side, as a rule: a predicate that the four assignments keep holds of
-- the side after any number of calls.
use seismograph.Prelude.{
  ℕ, zero, suc, ◌+◌, ◌-◌, ◌*◌, ◌≡◌, refl, true, false, Option, none, some, List, [], ◌∷◌,
  Bool-cases, inl, inr, All,
}
use Prim.Native.Nat.{◌^◌}
use seismograph.Compare.{
  Failure, SuiteItem, Side, Reply, raised, completed, Host, classify, is_retryable, is_fatal,
  max_retries, retry_base_ms, temp_default,
}
use seismograph.Compare.Asking.{
  Asked, call, give_up, fallback_reply, temperature_fallback, rejects_temperature, answer,
  if_retryable, ask_loop, ask_unless, ask, ask_sides, ask_items, ask_rounds, Observations,
}

pub record Kept {W : Type 0} (P : Side W → Type 0) : Type 0 where
  pub counts : (s : Side W) → P s → P (record s { calls_made = s.calls_made + 1 })
  pub tries : (s : Side W) → P s → P (record s { fallback_tried = true })
  pub falls_back :
      (s : Side W)
      → s.fallback_tried ≡ true
      → P s
      → P (record s { send_temperature = false; temperature = temp_default })
  pub stops :
      (s : Side W) (cls : Failure) → is_fatal cls ≡ true → P s → P (record s { fatal = some cls })

module _ {W : Type 0} (host : Host W) (P : Side W → Type 0) (kept : Kept P) where
  give_up-kept : (cls : Failure) (side : Side W) (w : W) → P side → P (give_up host cls side w).1
  unfolding give_up
  give_up-kept cls side w h = elim (Bool-cases (is_fatal cls)) [
    | inl fatal ↦ rw fatal (kept.stops side cls fatal h)
    | inr other ↦ rw other h
  ]

  fallback-kept :
      (item : SuiteItem) (reply : Reply) (side : Side W) (w : W)
      → side.fallback_tried ≡ true
      → P side
      → P (fallback_reply host item (reply, side, w)).1
  unfolding fallback_reply
  fallback-kept item (raised exc) side w tried h = give_up-kept _ side w h
  fallback-kept item (completed res) side w tried h = kept.falls_back side tried h

  temperature_fallback-kept :
      (item : SuiteItem) (side : Side W) (w : W)
      → P side
      → P (temperature_fallback host side item w).1
  unfolding temperature_fallback call
  temperature_fallback-kept item side w h =
      let r = call host (record side { fallback_tried = true }) item false w in
      fallback-kept item r.0 r.1 r.2 refl
        (kept.counts (record side { fallback_tried = true }) (kept.tries side h))

  answer-kept :
      (item : SuiteItem) (again : Failure → Side W → W → Asked host) (reply : Reply) (side : Side W)
      (w : W)
      → ((cls : Failure) → P (again cls side w).1)
      → P side
      → P (answer host item again (reply, side, w)).1
  unfolding answer
  answer-kept item again (completed res) side w h p = p
  answer-kept item again (raised exc) side w h p =
      elim (Bool-cases (rejects_temperature host exc side)) [
        | inl rejects ↦ rw (rejects, answer) (temperature_fallback-kept item side w p)
        | inr other ↦ rw (other, answer) (h (classify host.lower exc))
      ]

  if_retryable-kept :
      (again : Side W → W → Asked host) (cls : Failure) (side : Side W) (w : W)
      → P side
      → P (again side w).1
      → P (if_retryable host again cls side w).1
  unfolding if_retryable
  if_retryable-kept again cls side w p h = elim (Bool-cases (is_retryable cls)) [
    | inl tried_again ↦ rw (tried_again, if_retryable) h
    | inr never ↦ rw (never, if_retryable) (give_up-kept cls side w p)
  ]

  ask_loop-kept :
      (left : ℕ) (item : SuiteItem) (side : Side W) (w : W)
      → P side
      → P (ask_loop host left item side w).1
  unfolding ask_loop call
  ask_loop-kept zero item side w p =
      let r = call host side item side.send_temperature w in
      let q = kept.counts side p in
      answer-kept item (give_up host) r.0 r.1 r.2 (λ cls. give_up-kept cls r.1 r.2 q) q
  ask_loop-kept (suc left) item side w p =
      let r = call host side item side.send_temperature w in
      let q = kept.counts side p in
      let pause = retry_base_ms * 2 ^ (max_retries - suc left) in
      let again : Side W → W → Asked host =
        λ called after. ask_loop host left item called (host.sleep pause after) in
      answer-kept item (if_retryable host again) r.0 r.1 r.2
        (λ cls.
          if_retryable-kept again cls r.1 r.2 q
            (ask_loop-kept left item r.1 (host.sleep pause r.2) q))
        q

  ask_unless-kept :
      (met : Option Failure) (item : SuiteItem) (side : Side W) (w : W)
      → P side
      → P (ask_unless host met side item w).1
  unfolding ask_unless
  ask_unless-kept none item side w p = ask_loop-kept 2 item side w p
  ask_unless-kept (some cls) item side w p = p

  pub ask-kept : (item : SuiteItem) (side : Side W) (w : W) → P side → P (ask host side item w).1
  unfolding ask
  ask-kept item side w p = ask_unless-kept side.fatal item side w p

  ask_sides-kept :
      (item : SuiteItem) (sides : List (Side W)) (obs : Observations) (w : W)
      → All P sides
      → All P (ask_sides host item sides obs w).0
  unfolding ask_sides
  ask_sides-kept item [] obs w h = tt
  ask_sides-kept item (side ∷ sides) obs w h =
      (ask-kept item side w h.0, ask_sides-kept item sides _ _ h.1)

  ask_items-kept :
      (items : List SuiteItem) (sides : List (Side W)) (obs : Observations) (w : W)
      → All P sides
      → All P (ask_items host items sides obs w).0
  unfolding ask_items
  ask_items-kept [] sides obs w h = h
  ask_items-kept (item ∷ items) sides obs w h =
      ask_items-kept items _ _ _ (ask_sides-kept item sides obs w h)

  pub ask_rounds-kept :
      (n : ℕ) (items : List SuiteItem) (sides : List (Side W)) (obs : Observations) (w : W)
      → All P sides
      → All P (ask_rounds host n items sides obs w).0
  unfolding ask_rounds
  ask_rounds-kept zero items sides obs w h = h
  ask_rounds-kept (suc n) items sides obs w h =
      ask_rounds-kept n items _ _ _ (ask_items-kept items sides obs w h)
