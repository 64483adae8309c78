-- ===== src/Compare/Calls.antt =====
-- How many calls `Side.ask` makes, and what it keeps of a side.
use Prim.Native.Nat.{◌^◌}
use seismograph.Prelude.{
  ◌-◌, ℕ, zero, suc, ◌+◌, ◌*◌, ◌≤◌, ◌≡◌, refl, Bool, true, false, Option, none, some, arith, both,
  negate, if◌then◌else◌, Bool-cases, inl, inr,
}
use seismograph.Compare.{
  is_400, Failure, SuiteItem, Side, Reply, raised, completed, Host, classify, is_retryable,
  max_retries, retry_base_ms,
}
use seismograph.Compare.Asking.{
  Asked, call, give_up, fallback_reply, temperature_fallback, rejects_temperature, answer,
  if_retryable, ask_loop, ask_unless, ask,
}

module _ {W : Type 0} (host : Host W) where
  -- The call without temperature that a side may still spend, once.
  abbrev pub spare : Side W → ℕ
  spare side = if side.fallback_tried then 0 else 1

  -- The second side has made at most `n` calls more than the first, its fallback apart.
  abbrev pub WithinCalls : ℕ → Side W → Side W → Type 0
  WithinCalls n before after = after.calls_made + spare after ≤ before.calls_made + n + spare before

  give_up-calls :
      (cls : Failure) (side : Side W) (w : W) → WithinCalls 0 side (give_up host cls side w).1
  unfolding give_up
  give_up-calls cls side w = ground arith

  fallback-calls :
      (item : SuiteItem) (reply : Reply) (side : Side W) (w : W)
      → WithinCalls 0 side (fallback_reply host item (reply, side, w)).1
  unfolding fallback_reply
  fallback-calls item (raised exc) side w = give_up-calls _ side w
  fallback-calls item (completed res) side w = ground arith

  -- A fallback spends the one call that was spare.
  untried :
      (n : ℕ) (side after : Side W)
      → side.fallback_tried ≡ false
      → WithinCalls 0
          (record side { fallback_tried = true; calls_made = side.calls_made + 1 })
          after
      → WithinCalls n side after
  untried n side after e h = ground arith

  tested : (a b c : Bool) → both a (both b (negate c)) ≡ true → c ≡ false
  tested a b c h = ground arith

  temperature_fallback-calls :
      (n : ℕ) (item : SuiteItem) (side : Side W) (w : W)
      → side.fallback_tried ≡ false
      → WithinCalls n side (temperature_fallback host side item w).1
  unfolding temperature_fallback call
  temperature_fallback-calls n item side w e =
      let r = call host (record side { fallback_tried = true }) item false w in
      untried n side (temperature_fallback host side item w).1 e (fallback-calls item r.0 r.1 r.2)

  more : (n : ℕ) (before after : Side W) → WithinCalls 0 before after → WithinCalls n before after
  more n before after h = omega (arith, h)

  answer-calls :
      (n : ℕ) (item : SuiteItem) (again : Failure → Side W → W → Asked host) (reply : Reply)
      (side : Side W) (w : W)
      → ((cls : Failure) → WithinCalls n side (again cls side w).1)
      → WithinCalls n side (answer host item again (reply, side, w)).1
  unfolding answer
  answer-calls n item again (completed res) side w h = ground arith
  answer-calls n item again (raised exc) side w h =
      elim (Bool-cases (rejects_temperature host exc side)) [
        | inl rejects ↦
            rw (rejects, answer)
              (temperature_fallback-calls n item side w
                (tested (is_400 exc.status_code) side.send_temperature side.fallback_tried rejects))
        | inr other ↦ rw (other, answer) (h (classify host.lower exc))
      ]

  -- One call, and the count of it.
  counted :
      (n : ℕ) (side called after : Side W)
      → called.calls_made ≡ side.calls_made + 1
      → called.fallback_tried ≡ side.fallback_tried
      → WithinCalls n called after
      → WithinCalls (suc n) side after
  counted n side called after e f h = ground arith

  if_retryable-calls :
      (n : ℕ) (again : Side W → W → Asked host) (cls : Failure) (side : Side W) (w : W)
      → WithinCalls n side (again side w).1
      → WithinCalls n side (if_retryable host again cls side w).1
  unfolding if_retryable
  if_retryable-calls n again cls side w h = elim (Bool-cases (is_retryable cls)) [
    | inl tried_again ↦ rw (tried_again, if_retryable) h
    | inr never ↦
        rw (never, if_retryable)
          (more n side (give_up host cls side w).1 (give_up-calls cls side w))
  ]

  ask_loop-calls :
      (left : ℕ) (item : SuiteItem) (side : Side W) (w : W)
      → WithinCalls (suc left) side (ask_loop host left item side w).1
  unfolding ask_loop call
  ask_loop-calls zero item side w =
      let r = call host side item side.send_temperature w in
      counted 0 side r.1 (ask_loop host 0 item side w).1 refl refl
        (answer-calls 0 item (give_up host) r.0 r.1 r.2 (λ cls. give_up-calls cls r.1 r.2))
  ask_loop-calls (suc left) item side w =
      let r = call host side item side.send_temperature w in
      let again : Side W → W → Asked host = λ called after.
        ask_loop host left item called
          (host.sleep (retry_base_ms * 2 ^ (max_retries - suc left)) after) in
      counted (suc left) side r.1 (ask_loop host (suc left) item side w).1 refl refl (
        answer-calls (suc left) item (if_retryable host again) r.0 r.1 r.2 (λ cls.
          if_retryable-calls (suc left) again cls r.1 r.2 (
            ask_loop-calls left item r.1
              (host.sleep (retry_base_ms * 2 ^ (max_retries - suc left)) r.2))))

  ask_unless-calls :
      (met : Option Failure) (item : SuiteItem) (side : Side W) (w : W)
      → WithinCalls 3 side (ask_unless host met side item w).1
  unfolding ask_unless
  ask_unless-calls none item side w = ask_loop-calls 2 item side w
  ask_unless-calls (some cls) item side w = more 3 side side (omega arith)

  pub ask-calls :
      (item : SuiteItem) (side : Side W) (w : W) → WithinCalls 3 side (ask host side item w).1
  unfolding ask
  ask-calls item side w = ask_unless-calls side.fatal item side w
