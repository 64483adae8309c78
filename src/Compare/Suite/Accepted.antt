-- ===== src/Compare/Suite/Accepted.antt =====
-- What an accepted suite of probe/compare.py `load_suite` is.
use mathlib.Core.Path.{ap, subst, sym}
use seismograph.Prelude.{
  map, ◌≤◌, All, ℕ, suc, ◌≡◌, refl, String, Bool, true, false, Option, none, some, List, [], ◌∷◌,
  arith, ltb, Bool-cases, inl, inr, length, ◌==◌, string_eq, nat_eq, eq_iff,
}
use seismograph.Dict.{Dict, get, or_default}
use seismograph.Dict.Keys.{Distinct, contains}
use seismograph.Compare.{negate, SuiteItem}
use seismograph.Compare.Suite.Gives.{accepted_item, Gives, check_line-Gives}
use seismograph.Compare.Suite.{
  numbered, keep, Checked, Loaded, SuiteHost, Usable, assemble, check_fields, check_line, field,
  flag_of, max_items, named, system_of, then_items, then_lines, load_lines, lines_of, load_text,
  load_suite, text, boolean, null, other, not_json, not_object, object, not_utf8, refused, accepted,
  Value,
}

named_text : (v : Value) (s : String) → named v ≡ some s → (s == "") ≡ false
named_text (text x) s h = ground (arith, eq_iff x "", eq_iff s "")
named_text (boolean b) s h = cc
named_text null s h = cc
named_text other s h = cc

system_text : (v : Value) (o : Option String) → system_of v ≡ some o → o ≡ some "" → true ≡ false
system_text (text x) o h e = ground (arith, eq_iff x "")
system_text (boolean b) o h e = cc
system_text null o h e = cc
system_text other o h e = cc

assemble-Usable :
    (n : ℕ) (id : String) (user : Option String) (system : Option (Option String))
    (flag : Option Bool) (item : SuiteItem)
    → ((u : String) → user ≡ some u → (u == "") ≡ false)
    → ((s : Option String) → system ≡ some s → s ≡ some "" → true ≡ false)
    → (id == "") ≡ false
    → assemble n id user system flag ≡ accepted item
    → Usable item × (item.id ≡ id)
unfolding assemble
assemble-Usable n id none system flag item hu hs hi h = cc
assemble-Usable n id (some user) none flag item hu hs hi h = cc
assemble-Usable n id (some user) (some system) none item hu hs hi h = cc
assemble-Usable n id (some user) (some system) (some flag) item hu hs hi h =
    subst (λ x. Usable x × (x.id ≡ id)) (accepted_item h) ((hi, hu user refl, hs system refl), refl)

-- An accepted line gives a usable item with an id that no earlier line has.
check_fields-Usable :
    (n : ℕ) (id : Option String) (obj : Dict String Value) (seen : List String) (item : SuiteItem)
    → ((s : String) → id ≡ some s → (s == "") ≡ false)
    → check_fields n id obj seen ≡ accepted item
    → Usable item × (contains item.id seen ≡ false)
unfolding check_fields
check_fields-Usable n none obj seen item hi h = cc
check_fields-Usable n (some id) obj seen item hi h = elim (Bool-cases (contains id seen)) [
  | inl known ↦ absurd (cc (rw (known, check_fields) at h))
  | inr fresh ↦
      let u =
        assemble-Usable n id (named (field "user" obj)) (system_of (field "system" obj))
          (flag_of (or_default (boolean false) (get "expect_json" obj))) item
          (named_text (field "user" obj)) (system_text (field "system" obj)) (hi id refl)
          (rw (fresh, check_fields) at h) in
      (u.0, subst (λ x. contains x seen ≡ false) (sym u.1) fresh)
]

check_line-Usable :
    (n : ℕ) (loaded : Loaded) (seen : List String) (item : SuiteItem)
    → check_line n loaded seen ≡ accepted item
    → Usable item × (contains item.id seen ≡ false)
unfolding check_line
check_line-Usable n not_json seen item h = cc
check_line-Usable n not_object seen item h = cc
check_line-Usable n (object obj) seen item h =
    check_fields-Usable n (named (field "id" obj)) obj seen item (named_text (field "id" obj)) h

-- Usable items with distinct ids that are not among those seen, one for each line.
record Read (seen : List String) (n : ℕ) (items : List SuiteItem) : Type 0 where
  usable : All Usable items
  distinct : Distinct (map (λ i. i.id) items)
  new : (k : String) → contains k seen ≡ true → contains k (map (λ i. i.id) items) ≡ false
  one_each : length items ≡ n

accepted_items : {a b : List SuiteItem} → accepted a ≡ accepted b → a ≡ b
accepted_items h = cc

known_at :
    (seen : List String) (id k : String)
    → contains k seen ≡ true
    → contains id seen ≡ false
    → (id == k) ≡ false
known_at seen id k known fresh = elim (Bool-cases (id == k)) [
  | inl same ↦ absurd (cc (ap (λ x. contains x seen) ((eq_iff id k).0 same)))
  | inr differ ↦ differ
]

then_items-Read :
    (seen : List String) (n : ℕ) (item : SuiteItem) (rest : Checked (List SuiteItem))
    (items : List SuiteItem)
    → Usable item
    → contains item.id seen ≡ false
    → ((tail : List SuiteItem) → rest ≡ accepted tail → Read (item.id ∷ seen) n tail)
    → then_items item rest ≡ accepted items
    → Read seen (suc n) items
then_items-Read seen n item (refused e) items u fresh r h = cc
then_items-Read seen n item (accepted tail) items u fresh r h =
    let t = r tail refl in
    subst (Read seen (suc n)) (accepted_items h) (record {
      usable = (u, t.usable);
      distinct = (t.new item.id (ground (arith, eq_iff item.id item.id)), t.distinct);
      new = λ k known.
          ground
            (arith, t.new k, eq_iff item.id k, known, fresh, known_at seen item.id k known fresh);
      one_each = omega (arith, t.one_each);
    })

then_lines-Read :
    (seen : List String) (n : ℕ) (c : Checked SuiteItem) (rest : String → Checked (List SuiteItem))
    (items : List SuiteItem)
    → ((item : SuiteItem) → c ≡ accepted item → Usable item × (contains item.id seen ≡ false))
    → ((id : String) (tail : List SuiteItem) → rest id ≡ accepted tail → Read (id ∷ seen) n tail)
    → then_lines c rest ≡ accepted items
    → Read seen (suc n) items
then_lines-Read seen n (refused e) rest items u r h = cc
then_lines-Read seen n (accepted item) rest items u r h =
    then_items-Read seen n item (rest item.id) items (u item refl).0 (u item refl).1 (r item.id) h

then_items-cases :
    (item : SuiteItem) (rest : Checked (List SuiteItem)) (items : List SuiteItem)
    → then_items item rest ≡ accepted items
    → (tail : List SuiteItem) × ((rest ≡ accepted tail) × (item ∷ tail ≡ items))
then_items-cases item (refused e) items h = cc
then_items-cases item (accepted tail) items h = (tail, (refl, accepted_items h))

module _ {Bytes : Type 0} (host : SuiteHost Bytes) where
  load_lines-Read :
      (lines : List (ℕ × String)) (seen : List String) (items : List SuiteItem)
      → load_lines host lines seen ≡ accepted items
      → Read seen (length lines) items
  unfolding load_lines
  load_lines-Read [] seen items h =
      subst (Read seen 0) (accepted_items h)
        (record { usable = tt; distinct = tt; new = λ k known. refl; one_each = refl })
  load_lines-Read ((n, line) ∷ lines) seen items h =
      then_lines-Read seen (length lines) (check_line n (host.loads line) seen)
        (λ id. load_lines host lines (id ∷ seen)) items (check_line-Usable n (host.loads line) seen)
        (λ id. load_lines-Read lines (id ∷ seen)) h

  -- The lines give the items, one each and in order.
  abbrev pub Each : List String → List SuiteItem → Type 0
  Each [] items = items ≡ []
  Each (line ∷ lines) [] = ⊥
  Each (line ∷ lines) (item ∷ items) = Gives (host.loads line) item × Each lines items

  then_lines-Each :
      (line : String) (lines : List String) (c : Checked SuiteItem)
      (rest : String → Checked (List SuiteItem)) (items : List SuiteItem)
      → ((item : SuiteItem) → c ≡ accepted item → Gives (host.loads line) item)
      → ((id : String) (tail : List SuiteItem) → rest id ≡ accepted tail → Each lines tail)
      → then_lines c rest ≡ accepted items
      → Each (line ∷ lines) items
  then_lines-Each line lines (refused e) rest items one more h = cc
  then_lines-Each line lines (accepted item) rest items one more h =
      let (tail, (e, whole)) = then_items-cases item (rest item.id) items h in
      subst (Each (line ∷ lines)) whole (one item refl, more item.id tail e)

  load_lines-Each :
      (lines : List (ℕ × String)) (seen : List String) (items : List SuiteItem)
      → load_lines host lines seen ≡ accepted items
      → Each (map (λ l. l.1) lines) items
  unfolding load_lines
  load_lines-Each [] seen items h = cc
  load_lines-Each ((n, line) ∷ lines) seen items h =
      then_lines-Each line (map (λ l. l.1) lines) (check_line n (host.loads line) seen)
        (λ id. load_lines host lines (id ∷ seen)) items (check_line-Gives n (host.loads line) seen)
        (λ id. load_lines-Each lines (id ∷ seen)) h

  -- The lines that are not blank.
  abbrev pub written : String → List String
  written s = keep (λ line. negate (host.is_blank line)) (host.splitlines s)

  numbered-written :
      (n : ℕ) (lines : List String)
      → map (λ l. l.1) (keep (λ x. negate (host.is_blank x.1)) (numbered host n lines))
        ≡ keep (λ line. negate (host.is_blank line)) lines
  numbered-written n [] = refl
  numbered-written n (line ∷ lines) = ground (arith, numbered-written (suc n) lines)

  load_text-Read :
      (lines : List (ℕ × String)) (items : List SuiteItem)
      → load_text host lines ≡ accepted items
      → Read [] (length lines) items
        × Each (map (λ l. l.1) lines) items
        × (1 ≤ length lines)
        × (length lines ≤ max_items)
  unfolding load_text
  load_text-Read [] items h = cc
  load_text-Read (line ∷ lines) items h =
      elim (Bool-cases (ltb max_items (length (line ∷ lines)))) [
        | inl over ↦ absurd (cc (rw (over, load_text) at h))
        | inr fits ↦ (
          load_lines-Read (line ∷ lines) [] items (rw (fits, load_text) at h),
          load_lines-Each (line ∷ lines) [] items (rw (fits, load_text) at h),
          omega arith,
          ground arith,
        )
      ]

  decoded-Read :
      (o : Option String) (digest : String) (items : List SuiteItem)
      → (let r : Checked (List SuiteItem) × String = elim o [
        | none ↦ (refused not_utf8, digest)
        | some s ↦ (load_text host (lines_of host s), digest)
      ] in
          r.0)
        ≡ accepted items
      → (s : String) × (o ≡ some s)
        × Read [] (length (lines_of host s)) items
        × Each (map (λ l. l.1) (lines_of host s)) items
        × (1 ≤ length (lines_of host s))
        × (length (lines_of host s) ≤ max_items)
  decoded-Read none digest items h = cc
  decoded-Read (some s) digest items h =
      let (r, each, low, high) = load_text-Read (lines_of host s) items h in
      (s, refl, r, each, low, high)

  -- A suite is accepted only if its file decodes and its lines that are not blank give the items,
  -- one each and in order, each line being an object with the item's fields. There are from 1 to 200
  -- items, their ids are distinct and not empty, no prompt is empty, and no system text is the empty
  -- text.
  pub load_suite-Accepted :
      (raw : Bytes) (items : List SuiteItem)
      → (load_suite host raw).0 ≡ accepted items
      → (s : String) × ((host.decode raw ≡ some s)
          × Each (written s) items
          × (1 ≤ length items)
          × (length items ≤ max_items)
          × Distinct (map (λ i. i.id) items)
          × All Usable items)
  unfolding load_suite
  load_suite-Accepted raw items h =
      let (s, e, r, each, low, high) = decoded-Read (host.decode raw) (host.sha256 raw) items h in
      (
        s,
        (
          e,
          subst (λ lines. Each lines items) (numbered-written 1 (host.splitlines s)) each,
          omega (arith, r.one_each, low),
          omega (arith, r.one_each, high),
          r.distinct,
          r.usable,
        ),
      )
