-- ===== src/Compare/Suite/Gives.antt =====
-- What one accepted line of a suite gives, in probe/compare.py `load_suite`.
use mathlib.Core.Path.{ap, subst, sym}
use seismograph.Prelude.{
  ◌∙◌, ℕ, ◌≡◌, refl, String, Bool, false, Option, none, some, List, arith, Bool-cases, inl, inr,
  string_eq, nat_eq, eq_iff,
}
use seismograph.Dict.{Dict, get, or_default}
use seismograph.Dict.Keys.{contains}
use seismograph.Compare.{SuiteItem}
use seismograph.Compare.Suite.{
  Loaded, assemble, check_fields, check_line, field, flag_of, named, system_of, text, boolean, null,
  other, not_json, not_object, object, accepted, Value,
}

pub accepted_item : {a b : SuiteItem} → accepted a ≡ accepted b → a ≡ b
accepted_item h = cc

-- The line is an object with the item's id and prompt, its system text unless that is missing or
-- empty, and its flag or no flag.
abbrev pub Gives : Loaded → SuiteItem → Type 0
Gives not_json item = ⊥
Gives not_object item = ⊥
Gives (object obj) item =
    (field "id" obj ≡ text item.id)
    × (field "user" obj ≡ text item.user)
    × (system_of (field "system" obj) ≡ some item.system)
    × (or_default (boolean false) (get "expect_json" obj) ≡ boolean item.expect_json)

named-text : (v : Value) (s : String) → named v ≡ some s → v ≡ text s
named-text (text x) s h = ground (arith, eq_iff x "")
named-text (boolean b) s h = cc
named-text null s h = cc
named-text other s h = cc

flag_of-boolean : (v : Value) (b : Bool) → flag_of v ≡ some b → v ≡ boolean b
flag_of-boolean (boolean c) b h = cc
flag_of-boolean (text s) b h = cc
flag_of-boolean null b h = cc
flag_of-boolean other b h = cc

-- Its options are those that `assemble` put together.
assembled :
    (n : ℕ) (id : String) (user : Option String) (system : Option (Option String))
    (flag : Option Bool) (item : SuiteItem)
    → assemble n id user system flag ≡ accepted item
    → (item.id ≡ id)
      × (user ≡ some item.user)
      × (system ≡ some item.system)
      × (flag ≡ some item.expect_json)
unfolding assemble
assembled n id none system flag item h = cc
assembled n id (some user) none flag item h = cc
assembled n id (some user) (some system) none item h = cc
assembled n id (some user) (some system) (some flag) item h =
    subst
      (λ x.
        (x.id ≡ id)
        × (some user ≡ some x.user)
        × (some system ≡ some x.system)
        × (some flag ≡ some x.expect_json))
      (accepted_item h) (refl, refl, refl, refl)

check_fields-Gives :
    (n : ℕ) (id : Option String) (obj : Dict String Value) (seen : List String) (item : SuiteItem)
    → named (field "id" obj) ≡ id
    → check_fields n id obj seen ≡ accepted item
    → Gives (object obj) item
unfolding check_fields
check_fields-Gives n none obj seen item e h = cc
check_fields-Gives n (some id) obj seen item e h = elim (Bool-cases (contains id seen)) [
  | inl known ↦ absurd (cc (rw (known, check_fields) at h))
  | inr fresh ↦
      let (own, user, system, flag) =
        assembled n id (named (field "user" obj)) (system_of (field "system" obj))
          (flag_of (or_default (boolean false) (get "expect_json" obj))) item
          (rw (fresh, check_fields) at h) in
      (
        named-text (field "id" obj) id e ∙ ap text (sym own),
        named-text (field "user" obj) item.user user,
        system,
        flag_of-boolean (or_default (boolean false) (get "expect_json" obj)) item.expect_json flag,
      )
]

pub check_line-Gives :
    (n : ℕ) (loaded : Loaded) (seen : List String) (item : SuiteItem)
    → check_line n loaded seen ≡ accepted item
    → Gives loaded item
unfolding check_line
check_line-Gives n not_json seen item h = cc
check_line-Gives n not_object seen item h = cc
check_line-Gives n (object obj) seen item h =
    check_fields-Gives n (named (field "id" obj)) obj seen item refl h
