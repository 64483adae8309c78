-- ===== src/Compare/Runs.antt =====
-- `run_calls` of probe/compare.py as a whole: how many calls it makes, and what it collects.
use seismograph.Prelude.{
  ℕ, zero, suc, ◌+◌, ◌*◌, ◌≤◌, ◌≡◌, refl, true, false, some, List, [], ◌∷◌, arith, All, length,
  string_eq,
}
use mathlib.Core.Path.{subst}
use seismograph.Compare.{Failure, SuiteItem, Side, Host, is_fatal, temp_zero, temp_default}
use seismograph.Compare.Asking.{
  ask_sides, ask_items, ask_rounds, run_calls, Observations, no_observations,
}
use seismograph.Compare.Calls.{WithinCalls, ask-calls}
use seismograph.Compare.Keeps.{Kept, ask_rounds-kept}

-- What is true of the temperature and of the fatal failure of a side.
pub record Sound {W : Type 0} (side : Side W) : Type 0 where
  pub sends_zero : side.send_temperature ≡ true → side.temperature ≡ temp_zero
  pub falls_back : side.send_temperature ≡ false → side.temperature ≡ temp_default
  pub tried : side.send_temperature ≡ false → side.fallback_tried ≡ true
  pub fatal_class : (cls : Failure) → side.fatal ≡ some cls → is_fatal cls ≡ true

Sound-Kept : {W : Type 0} → Kept {W = W} Sound
Sound-Kept = record {
  counts = λ s h. record {
    sends_zero = h.sends_zero;
    falls_back = h.falls_back;
    tried = h.tried;
    fatal_class = h.fatal_class;
  };
  tries = λ s h. record {
    sends_zero = h.sends_zero;
    falls_back = h.falls_back;
    tried = λ e. refl;
    fatal_class = h.fatal_class;
  };
  falls_back = λ s e h. record {
    sends_zero = λ f. cc;
    falls_back = λ f. refl;
    tried = λ f. e;
    fatal_class = h.fatal_class;
  };
  stops = λ s cls e h. record {
    sends_zero = h.sends_zero;
    falls_back = h.falls_back;
    tried = h.tried;
    fatal_class = λ c f. cc;
  };
}

module _ {W : Type 0} (host : Host W) where
  -- Side by side, at most `n` calls more.
  abbrev AllWithin : ℕ → List (Side W) → List (Side W) → Type 0
  AllWithin n [] [] = Unit
  AllWithin n (b ∷ bs) (a ∷ rest) = WithinCalls host n b a × AllWithin n bs rest
  AllWithin n _ _ = true ≡ false

  AllWithin-refl : (sides : List (Side W)) → AllWithin 0 sides sides
  AllWithin-refl [] = tt
  AllWithin-refl (s ∷ sides) = (omega arith, AllWithin-refl sides)

  AllWithin-trans :
      (m n : ℕ) (xs ys zs : List (Side W))
      → AllWithin m xs ys
      → AllWithin n ys zs
      → AllWithin (m + n) xs zs
  AllWithin-trans m n [] [] [] p q = tt
  AllWithin-trans m n [] [] (z ∷ zs) p q = q
  AllWithin-trans m n [] (y ∷ ys) zs p q = absurd cc
  AllWithin-trans m n (x ∷ xs) [] zs p q = absurd cc
  AllWithin-trans m n (x ∷ xs) (y ∷ ys) [] p q = q
  AllWithin-trans m n (x ∷ xs) (y ∷ ys) (z ∷ zs) p q =
      (omega (arith, p.0, q.0), AllWithin-trans m n xs ys zs p.1 q.1)

  ask_sides-calls :
      (item : SuiteItem) (sides : List (Side W)) (obs : Observations) (w : W)
      → AllWithin 3 sides (ask_sides host item sides obs w).0
  unfolding ask_sides
  ask_sides-calls item [] obs w = tt
  ask_sides-calls item (side ∷ sides) obs w =
      (ask-calls host item side w, ask_sides-calls item sides _ _)

  ask_items-calls :
      (items : List SuiteItem) (sides : List (Side W)) (obs : Observations) (w : W)
      → AllWithin (3 * length items) sides (ask_items host items sides obs w).0
  unfolding ask_items
  ask_items-calls [] sides obs w = AllWithin-refl sides
  ask_items-calls (item ∷ items) sides obs w =
      let r = ask_sides host item sides obs w in
      subst (λ n. AllWithin n sides (ask_items host items r.0 r.1 r.2).0) (omega arith)
        (AllWithin-trans 3 (3 * length items) sides r.0 _ (ask_sides-calls item sides obs w)
          (ask_items-calls items r.0 r.1 r.2))

  ask_rounds-calls :
      (n : ℕ) (items : List SuiteItem) (sides : List (Side W)) (obs : Observations) (w : W)
      → AllWithin (n * (3 * length items)) sides (ask_rounds host n items sides obs w).0
  unfolding ask_rounds
  ask_rounds-calls zero items sides obs w =
      subst (λ m. AllWithin m sides sides) (grind arith) (AllWithin-refl sides)
  ask_rounds-calls (suc n) items sides obs w =
      let r = ask_items host items sides obs w in
      subst (λ m. AllWithin m sides (ask_rounds host n items r.0 r.1 r.2).0) (grind arith)
        (AllWithin-trans (3 * length items) (n * (3 * length items)) sides r.0 _
          (ask_items-calls items sides obs w) (ask_rounds-calls n items r.0 r.1 r.2))

  bounded :
      (b a : Side W) (n : ℕ) → b.calls_made ≡ 0 → WithinCalls host n b a → a.calls_made ≤ n + 1
  bounded b a n e h = ground arith

  no_more :
      (n : ℕ) (before after : List (Side W))
      → All (λ s. s.calls_made ≡ 0) before
      → AllWithin n before after
      → All (λ s. s.calls_made ≤ n + 1) after
  no_more n [] [] fresh h = tt
  no_more n [] (a ∷ rest) fresh h = absurd cc
  no_more n (b ∷ bs) [] fresh h = tt
  no_more n (b ∷ bs) (a ∷ rest) fresh h = (bounded b a n fresh.0 h.0, no_more n bs rest fresh.1 h.1)

  -- Every side ends with at most three calls for each item and repeat, and one more for the
  -- fallback of the temperature, if no side has called before.
  pub run_calls_bounded :
      (items : List SuiteItem) (sides : List (Side W)) (repeats : ℕ) (w : W)
      → All (λ s. s.calls_made ≡ 0) sides
      → All
          (λ s. s.calls_made ≤ repeats * (3 * length items) + 1)
          (run_calls host items sides repeats w).0
  unfolding run_calls
  run_calls_bounded items sides repeats w fresh =
      no_more (repeats * (3 * length items)) sides _ fresh
        (ask_rounds-calls repeats items sides (no_observations host items sides []) w)

  -- A run keeps this of every side: it sends temperature 0 and says so, or it has fallen back, once,
  -- to the provider's default and says so; and a failure is fatal only if it is of a fatal class.
  run_calls-Sound :
      (items : List SuiteItem) (sides : List (Side W)) (repeats : ℕ) (w : W)
      → All Sound sides
      → All Sound (run_calls host items sides repeats w).0
  unfolding run_calls
  run_calls-Sound items sides repeats w h =
      ask_rounds-kept host Sound Sound-Kept repeats items sides
        (no_observations host items sides []) w h
