-- ===== src/Compare/Suite.antt =====
-- probe/compare.py `load_suite`: the file of prompts. Decoding, splitting into lines, parsing JSON
-- and hashing are parameters.
pub mod Gives
pub mod Accepted
use mathlib.Core.Path.{ap, subst, sym}
use seismograph.Prelude.{
  map, ◌≤◌, All, ℕ, suc, ◌≡◌, refl, String, Bool, true, false, Option, none, some, List, [], ◌∷◌,
  arith, ltb, if◌then◌else◌, Bool-cases, inl, inr, length, negate, ◌==◌, string_eq, nat_eq, eq_iff,
  keep,
}
use seismograph.Dict.{Dict, get, or_default}
use seismograph.Dict.Keys.{Distinct, contains}
use seismograph.Compare.{SuiteItem}

-- A JSON value, as far as `isinstance` looks at it.
pub data Value : Type 0 where
  text : String → Value
  boolean : Bool → Value
  null other : Value

-- `json.loads` of one line
pub data Loaded : Type 0 where
  not_json not_object : Loaded
  object : Dict String Value → Loaded

-- `SuiteError`, where the line's number stands for the rest of the message
pub data SuiteError : Type 0 where
  not_utf8 empty_suite : SuiteError
  too_many : ℕ → SuiteError
  bad_json bad_object bad_id duplicate_id bad_user bad_system bad_expect_json : ℕ → SuiteError

pub data Checked (A : Type 0) : Type 0 where
  refused : SuiteError → Checked A
  accepted : A → Checked A

pub record SuiteHost (Bytes : Type 0) : Type 0 where
  pub decode : Bytes → Option String
  pub splitlines : String → List String
  pub is_blank : String → Bool
  pub loads : String → Loaded
  pub sha256 : Bytes → String

abbrev pub max_items : ℕ
max_items = 200

-- `obj.get(name)`
abbrev pub field : String → Dict String Value → Value
field name obj = or_default null (get name obj)

-- `isinstance(value, str)` and not empty
abbrev pub named : Value → Option String
named (text s) = if s == "" then none else some s
named _ = none

-- `system or None`, for a value that is None or a text
abbrev pub system_of : Value → Option (Option String)
system_of null = some none
system_of (text s) = some (if s == "" then none else some s)
system_of _ = none

abbrev pub flag_of : Value → Option Bool
flag_of (boolean b) = some b
flag_of _ = none

-- The last checks of a line, in the order of the code, once its id is known to be new.
unfoldable pub assemble :
    ℕ → String → Option String → Option (Option String) → Option Bool → Checked SuiteItem
assemble n id none system expect_json = refused (bad_user n)
assemble n id (some user) none expect_json = refused (bad_system n)
assemble n id (some user) (some system) none = refused (bad_expect_json n)
assemble n id (some user) (some system) (some expect_json) =
    accepted (record { id = id; user = user; system = system; expect_json = expect_json })

unfoldable pub check_fields :
    ℕ → Option String → Dict String Value → List String → Checked SuiteItem
unfolding assemble
check_fields n none obj seen = refused (bad_id n)
check_fields n (some id) obj seen =
    if contains id seen
    then refused (duplicate_id n)
    else assemble n id (named (field "user" obj)) (system_of (field "system" obj))
        (flag_of (or_default (boolean false) (get "expect_json" obj)))

-- One turn of the loop.
unfoldable pub check_line : ℕ → Loaded → List String → Checked SuiteItem
unfolding check_fields
check_line n not_json seen = refused (bad_json n)
check_line n not_object seen = refused (bad_object n)
check_line n (object obj) seen = check_fields n (named (field "id" obj)) obj seen

-- An item before the items of the lines that follow, and a refusal in place of both.
abbrev pub then_items : SuiteItem → Checked (List SuiteItem) → Checked (List SuiteItem)
then_items item (refused e) = refused e
then_items item (accepted items) = accepted (item ∷ items)

abbrev pub then_lines :
    Checked SuiteItem → (String → Checked (List SuiteItem)) → Checked (List SuiteItem)
then_lines (refused e) rest = refused e
then_lines (accepted item) rest = then_items item (rest item.id)

module _ {Bytes : Type 0} (host : SuiteHost Bytes) where
  unfoldable pub load_lines : List (ℕ × String) → List String → Checked (List SuiteItem)
  unfolding check_line
  load_lines [] seen = accepted []
  load_lines ((n, line) ∷ lines) seen =
      then_lines (check_line n (host.loads line) seen) (λ id. load_lines lines (id ∷ seen))

  -- `enumerate(lines, n)`
  abbrev pub numbered : ℕ → List String → List (ℕ × String)
  numbered n [] = []
  numbered n (line ∷ lines) = (n, line) ∷ numbered (suc n) lines

  abbrev pub lines_of : String → List (ℕ × String)
  lines_of s = keep (λ x. negate (host.is_blank x.1)) (numbered 1 (host.splitlines s))

  unfoldable pub load_text : List (ℕ × String) → Checked (List SuiteItem)
  unfolding load_lines
  load_text [] = refused empty_suite
  load_text (line ∷ lines) =
      if ltb max_items (length (line ∷ lines))
      then refused (too_many (length (line ∷ lines)))
      else load_lines (line ∷ lines) []

  -- `load_suite`, with the digest of the file beside the items
  unfoldable pub load_suite : Bytes → Checked (List SuiteItem) × String
  unfolding load_text
  load_suite raw = elim (host.decode raw) [
    | none ↦ (refused not_utf8, host.sha256 raw)
    | some s ↦ (load_text (lines_of s), host.sha256 raw)
  ]

abbrev pub Usable : SuiteItem → Type 0
Usable item =
    ((item.id == "") ≡ false)
    × ((item.user == "") ≡ false)
    × ((item.system ≡ some "") → true ≡ false)
