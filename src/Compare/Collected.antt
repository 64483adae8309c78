-- ===== src/Compare/Collected.antt =====
-- What `run_calls` of probe/compare.py collects: one observation for each item, side and repeat.
use seismograph.Prelude.{
  ℕ, zero, suc, ◌+◌, ◌≡◌, refl, ap, ◌∙◌, String, true, false, List, [], ◌∷◌, arith, if◌then◌else◌,
  Bool-cases, inl, inr, map, length, length-append, both, ◌==◌, string_eq, eq_iff,
}
use mathlib.Core.Path.{subst}
use seismograph.Dict.{Dict, get, put, get-put, or_default}
use seismograph.Dict.Keys.{Distinct, contains}
use seismograph.Compare.{SuiteItem, Side, Host, Observation}
use seismograph.Compare.Asking.{
  ask, ask_sides, ask_items, ask_rounds, run_calls, Observations, of_item, append_to, no_answers,
  no_observations,
}
use seismograph.Compare.Keeps.{Kept, ask-kept}

-- How often a text stands in a list.
abbrev tally : String → List String → ℕ
tally k [] = 0
tally k (x ∷ xs) = (if x == k then 1 else 0) + tally k xs

tally_absent : (k : String) (xs : List String) → contains k xs ≡ false → tally k xs ≡ 0
tally_absent k [] h = refl
tally_absent k (x ∷ xs) h = ground (arith, tally_absent k xs)

tally_one : (k : String) (xs : List String) → Distinct xs → contains k xs ≡ true → tally k xs ≡ 1
tally_one k [] d h = cc
tally_one k (x ∷ xs) d h = elim (Bool-cases (x == k)) [
  | inl here ↦
      let absent : contains k xs ≡ false =
        subst (λ y. contains y xs ≡ false) ((eq_iff x k).0 here) d.0 in
      ground (arith, tally_absent k xs absent)
  | inr other ↦ ground (arith, tally_one k xs d.1)
]

module _ (label id : String) where
  abbrev count : Observations → ℕ
  count obs = length (of_item label id obs)

  append_to-count :
      (l i : String) (o : Observation) (obs : Observations)
      → count (append_to l i o obs) ≡ count obs + (if both (l == label) (i == id) then 1 else 0)
  unfolding append_to
  append_to-count l i o obs = elim (Bool-cases (l == label)) [
    | inl here ↦ elim (Bool-cases (i == id)) [
      | inl same ↦
          let where_it_is : of_item l i obs ≡ of_item label id obs =
            λ t. of_item ((eq_iff l label).0 here t) ((eq_iff i id).0 same t) obs in
          rw (get-put l label _ obs, here, get-put i id _ (or_default [] (get l obs)), same)
            (length-append (of_item l i obs) (o ∷ []) ∙ ap (λ os. length os + 1) where_it_is)
      | inr differ ↦
          let where_it_is : of_item l id obs ≡ of_item label id obs =
            ap (λ x. of_item x id obs) ((eq_iff l label).0 here) in
          rw (get-put l label _ obs, here, get-put i id _ (or_default [] (get l obs)), differ)
            (omega (arith, ap length where_it_is))
    ]
    | inr other ↦ rw (get-put l label _ obs, other) (omega arith)
  ]

  module _ {W : Type 0} (host : Host W) where
    label-Kept : (l : String) → Kept {W = W} (λ s. s.label ≡ l)
    label-Kept l = record {
      counts = λ s h. h;
      tries = λ s h. h;
      falls_back = λ s e h. h;
      stops = λ s cls e h. h;
    }

    ask-label :
        (item : SuiteItem) (side : Side W) (w : W) → (ask host side item w).1.label ≡ side.label
    ask-label item side w =
        ask-kept host (λ s. s.label ≡ side.label) (label-Kept side.label) item side w refl

    ask_sides-labels :
        (item : SuiteItem) (sides : List (Side W)) (obs : Observations) (w : W)
        → map (λ s. s.label) (ask_sides host item sides obs w).0 ≡ map (λ s. s.label) sides
    unfolding ask_sides
    ask_sides-labels item [] obs w = refl
    ask_sides-labels item (side ∷ sides) obs w = λ t.
        ask-label item side w t
        ∷ ask_sides-labels item sides (append_to side.label item.id (ask host side item w).0 obs)
            (ask host side item w).2 t

    ask_sides-count :
        (item : SuiteItem) (sides : List (Side W)) (obs : Observations) (w : W)
        → count (ask_sides host item sides obs w).1
          ≡ count obs + (if item.id == id then tally label (map (λ s. s.label) sides) else 0)
    unfolding ask_sides
    ask_sides-count item [] obs w = ground arith
    ask_sides-count item (side ∷ sides) obs w =
        let r = ask host side item w in
        let first = append_to-count side.label item.id r.0 obs in
        let rest = ask_sides-count item sides (append_to side.label item.id r.0 obs) r.2 in
        ground (arith, first, rest)

    ask_items-count :
        (items : List SuiteItem) (sides : List (Side W)) (obs : Observations) (w : W)
        → tally label (map (λ s. s.label) sides) ≡ 1
        → count (ask_items host items sides obs w).1 ≡ count obs + tally id (map (λ i. i.id) items)
    unfolding ask_items
    ask_items-count [] sides obs w one = omega arith
    ask_items-count (item ∷ items) sides obs w one =
        let r = ask_sides host item sides obs w in
        let same = ap (tally label) (ask_sides-labels item sides obs w) in
        let rest = ask_items-count items r.0 r.1 r.2 (same ∙ one) in
        ground (arith, ask_sides-count item sides obs w, rest)

    ask_items-labels :
        (items : List SuiteItem) (sides : List (Side W)) (obs : Observations) (w : W)
        → map (λ s. s.label) (ask_items host items sides obs w).0 ≡ map (λ s. s.label) sides
    unfolding ask_items
    ask_items-labels [] sides obs w = refl
    ask_items-labels (item ∷ items) sides obs w =
        let r = ask_sides host item sides obs w in
        ask_items-labels items r.0 r.1 r.2 ∙ ask_sides-labels item sides obs w

    ask_rounds-count :
        (n : ℕ) (items : List SuiteItem) (sides : List (Side W)) (obs : Observations) (w : W)
        → tally label (map (λ s. s.label) sides) ≡ 1
        → tally id (map (λ i. i.id) items) ≡ 1
        → count (ask_rounds host n items sides obs w).1 ≡ count obs + n
    unfolding ask_rounds
    ask_rounds-count zero items sides obs w one known = omega arith
    ask_rounds-count (suc n) items sides obs w one known =
        let r = ask_items host items sides obs w in
        let same = ap (tally label) (ask_items-labels items sides obs w) in
        let rest = ask_rounds-count n items r.0 r.1 r.2 (same ∙ one) known in
        omega (arith, ask_items-count items sides obs w one, rest)

    no_answers-count :
        (items : List SuiteItem) (d : Dict String (List Observation))
        → length (or_default [] (get id d)) ≡ 0
        → length (or_default [] (get id (no_answers host items d))) ≡ 0
    unfolding no_answers
    no_answers-count [] d h = h
    no_answers-count (item ∷ items) d h =
        no_answers-count items (put item.id [] d) (ground (arith, get-put item.id id [] d))

    no_observations-count :
        (items : List SuiteItem) (sides : List (Side W)) (obs : Observations)
        → count obs ≡ 0
        → count (no_observations host items sides obs) ≡ 0
    unfolding no_observations
    no_observations-count items [] obs h = h
    no_observations-count items (side ∷ sides) obs h =
        let fresh = no_answers-count items [] refl in
        no_observations-count items sides (put side.label (no_answers host items []) obs)
          (ground (arith, get-put side.label label (no_answers host items []) obs, fresh))

-- For sides with distinct labels and items with distinct ids, each side collects exactly one
-- observation for each item and repeat, failed calls and calls that were not attempted included.
pub run_calls_collects :
    {W : Type 0} (host : Host W) (items : List SuiteItem) (sides : List (Side W)) (repeats : ℕ)
    (w : W) (label id : String)
    → Distinct (map (λ s. s.label) sides)
    → contains label (map (λ s. s.label) sides) ≡ true
    → Distinct (map (λ i. i.id) items)
    → contains id (map (λ i. i.id) items) ≡ true
    → length (of_item label id (run_calls host items sides repeats w).1) ≡ repeats
unfolding run_calls
run_calls_collects host items sides repeats w label id labels labelled ids known = omega (
  arith,
  ask_rounds-count label id host repeats items sides (no_observations host items sides []) w
      (tally_one label _ labels labelled) (tally_one id _ ids known),
  no_observations-count label id host items sides [] refl,
)
