-- ===== src/Audit/Export.antt =====
-- gateway/main.py `export_audit_report`: who gets a report, and what else is answered.
use seismograph.Prelude.{
  ℕ, String, Bool, true, false, Option, none, some, List, [], ◌∷◌, ltb, both, if◌then◌else◌, ◌==◌,
  nat_eq,
}
use seismograph.Dict.{or_default}
use seismograph.Float.{Float}
use seismograph.Schema.{codes, every}
use seismograph.Repository.{Repository}
use seismograph.Audit.{Report, Encoding, generate}

-- 503, 401, 404, 200, and the 500 of an exception that the handler does not catch.
pub data Answer (fl : Float) : Type 0 where
  disabled : Answer fl
  unauthorized : Answer fl
  not_found : Answer fl
  crashed : Answer fl
  exported : Report fl → Answer fl

-- What follows the prefix, for a text that starts with it.
abbrev pub after_prefix : List ℕ → List ℕ → Option (List ℕ)
after_prefix [] text = some text
after_prefix (p ∷ ps) [] = none
after_prefix (p ∷ ps) (c ∷ text) = let rest = after_prefix ps text in if p == c then rest else none

abbrev pub same_codes : List ℕ → List ℕ → Bool
same_codes [] [] = true
same_codes [] (c ∷ cs) = false
same_codes (d ∷ ds) [] = false
same_codes (d ∷ ds) (c ∷ cs) = both (d == c) (same_codes ds cs)

abbrev pub is_ascii : List ℕ → Bool
is_ascii text = every (λ c. ltb c 128) text

-- `secrets.compare_digest` on two texts; none is its TypeError on a text that is not ASCII.
unfoldable pub compare_digest : List ℕ → List ℕ → Option Bool
compare_digest provided token =
    if both (is_ascii provided) (is_ascii token) then some (same_codes provided token) else none

module _ (fl : Float) where
  unfoldable pub answer_with : Option (Report fl) → Answer fl
  answer_with none = not_found
  answer_with (some report) = exported report

  unfoldable pub authorized : Option Bool → Option (Report fl) → Answer fl
  unfolding answer_with
  authorized none report = crashed
  authorized (some false) report = unauthorized
  authorized (some true) report = answer_with report

  unfoldable pub after_bearer : Option (List ℕ) → List ℕ → Option (Report fl) → Answer fl
  unfolding compare_digest authorized
  after_bearer none token report = unauthorized
  after_bearer (some provided) token report = authorized (compare_digest provided token) report

  unfoldable pub with_token : List ℕ → List ℕ → Option (Report fl) → Answer fl
  unfolding after_bearer
  with_token [] header report = disabled
  with_token (t ∷ token) header report =
      after_bearer (after_prefix (codes "Bearer ") header) (t ∷ token) report

  -- The token of the environment and the header, each empty when it is missing.
  unfoldable pub export_audit_report :
      Encoding fl → Option String → Option String → Repository fl → ℕ → ℕ → Answer fl
  unfolding with_token
  export_audit_report enc token header r now alert_id =
      with_token (codes (or_default "" token)) (codes (or_default "" header))
        (generate fl enc r now alert_id)
