-- ===== src/Spool/Held.antt =====
-- What the directory of probe/spool.py holds, and what taking one file out of it leaves.
use seismograph.Prelude.{
  string_eq, Option-cases, ◌≡◌, refl, ap, true, false, List, [], ◌∷◌, ◌++◌, map, length,
  length-append, arith, inl, inr,
}
use mathlib.Core.Path.{sym}
use seismograph.Prelude.Eq.{Eq}
use seismograph.Dict.{get, remove}
use seismograph.Dict.Keys.{
  contains-append, contains, Distinct, Within, keys, length-remove, Distinct-remove, Within-remove,
  get-contains,
}
use seismograph.Spool.{Host}
use seismograph.Spool.Store.{Name, name_eq, Spool, Entry, move}

module _ {ℓ} {K : Type ℓ} ⦃e : Eq K⦄ where
  -- A key in the middle of a list of keys that the dictionary holds, each once.
  pub Distinct-middle :
      (xs : List K) (n : K) (ns : List K)
      → Distinct (xs ++ n ∷ ns)
      → (contains n (xs ++ ns) ≡ false) × Distinct (xs ++ ns)
  Distinct-middle [] n ns u = u
  Distinct-middle (x ∷ xs) n ns u = ground (
    arith,
    Distinct-middle xs n ns u.1,
    contains-append x xs (n ∷ ns),
    contains-append x xs ns,
    e.beq_iff x n,
    e.beq_iff n x,
    contains-append n xs ns,
  )

  pub Within-middle :
      (xs : List K) (n : K) (ns ys : List K)
      → Within (xs ++ n ∷ ns) ys
      → (contains n ys ≡ true) × Within (xs ++ ns) ys
  Within-middle [] n ns ys h = h
  Within-middle (x ∷ xs) n ns ys h = ground (arith, Within-middle xs n ns ys h.1)

module _ (host : Host) where
  abbrev pub paths : List (Entry host) → List Name
  paths = map (λ e. e.path)

  -- The directory holds the listed files, each once, and no other.
  pub record Holds (ns : List Name) (s : Spool host) : Type 0 where
    pub unique : Distinct (keys s.files)
    pub listed : Distinct ns
    pub present : Within ns (keys s.files)
    pub exact : length s.files ≡ length ns

  module _ (xs : List Name) (n : Name) (ns : List Name) (s : Spool host) where
    pub Holds-remove :
        (t : Spool host) → Holds (xs ++ n ∷ ns) s → t.files ≡ remove n s.files → Holds (xs ++ ns) t
    Holds-remove t h same =
        let (fresh, others) = Distinct-middle xs n ns h.listed in
        let (here, rest) = Within-middle xs n ns (keys s.files) h.present in
        record {
          unique = rw same (Distinct-remove n s.files h.unique);
          listed = others;
          present = rw same (Within-remove n (xs ++ ns) s.files fresh rest);
          exact = rw same (
              omega (
                arith,
                length-remove n s.files h.unique here,
                h.exact,
                length-append xs (n ∷ ns),
                length-append xs ns,
              ));
        }

  pub move-files :
      (s : Spool host) (n : Name)
      → contains n (keys s.files) ≡ true
      → (move host s n).files ≡ remove n s.files
  unfolding move
  move-files s n c = elim (Option-cases (get n s.files)) [
    | inl missing ↦ absurd cc (c, get-contains n s.files missing)
    | inr (content, found) ↦ rw (found, move)
  ]

  pub Holds-same :
      (ns ms : List Name) (s t : Spool host) → ns ≡ ms → t.files ≡ s.files → Holds ns s → Holds ms t
  Holds-same ns ms s t e same h = record {
    unique = rw same h.unique;
    listed = rw⁻¹ e h.listed;
    present = rw (same, sym e) h.present;
    exact = rw (same, sym e) h.exact;
  }

  pub paths-snoc :
      (es : List (Entry host)) (e : Entry host) (ns : List Name)
      → paths (es ++ e ∷ []) ++ ns ≡ paths es ++ e.path ∷ ns
  paths-snoc [] e ns = refl
  paths-snoc (x ∷ es) e ns = ap (◌∷◌ x.path) (paths-snoc es e ns)
