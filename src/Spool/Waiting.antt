-- ===== src/Spool/Waiting.antt =====
-- What the files of the directory of probe/spool.py have to send, and that `_scan` lists just that.
use mathlib.Core.List.{append-nil, append_assoc}
use mathlib.Core.Path.{subst}
use seismograph.Prelude.{
  ◌==◌, ℕ, ◌+◌, ◌≡◌, refl, ◌∙◌, sym, ap, true, false, Option, none, some, List, [], ◌∷◌, ◌++◌, ltb,
  if◌then◌else◌, nat_eq, arith, Bool-cases, Option-cases, inl, inr,
}
use seismograph.Dict.{Dict, get, remove, get-remove}
use seismograph.Dict.Keys.{contains, Distinct}
use seismograph.Spool.{Host, Result, ok, value_error, other_error}
use seismograph.Spool.Store.{unlink, move, Name, name_eq, same_name_iff, Spool, Entry, load}
use seismograph.Spool.Drain.{Progress, scan, scan_file, scan_loaded, keep_or_expire, set_aside}
use seismograph.Spool.Loaded.{load-About}

module _ (host : Host) where
  -- An entry that is not too old is sent before the rest.
  abbrev pub if_young : Spool host → ℕ → Result (Entry host) → List (Entry host) → List (Entry host)
  if_young s now (ok e) rest = if ltb (e.created_at + s.max_age) now then rest else e ∷ rest
  if_young s now value_error rest = rest
  if_young s now other_error rest = rest

  abbrev pub if_read :
      Spool host → ℕ → Name → Option host.Bytes → List (Entry host) → List (Entry host)
  if_read s now n none rest = rest
  if_read s now n (some content) rest = if_young s now (load host n content) rest

  -- What the listed files of the directory have to send: one entry for each file that loads and is
  -- not too old.
  abbrev pub waiting : Spool host → ℕ → List Name → List (Entry host)
  waiting s now [] = []
  waiting s now (n ∷ ns) = if_read s now n (get n s.files) (waiting s now ns)

  differ :
      (n m : Name) (ns : List Name)
      → contains n ns ≡ false
      → contains m ns ≡ true
      → (n == m) ≡ false
  differ n m ns out here = elim (Bool-cases (n == m)) [
    | inl same ↦ absurd (cc (ap (λ x. contains x ns) ((same_name_iff n m).0 same), out, here))
    | inr other ↦ other
  ]

  -- While `_scan` reads the directory of `s`: the files still to read are untouched, and the entries
  -- so far with what they have to send are the given ones.
  pub record Reading (s : Spool host) (now : ℕ) (whole : List (Entry host)) (ns : List Name)
      (p : Progress host) : Type 0 where
    pub parts : p.entries ++ waiting s now ns ≡ whole
    pub untouched : (m : Name) → contains m ns ≡ true → get m p.spool.files ≡ get m s.files
    pub same_age : p.spool.max_age ≡ s.max_age

  get-remove_other :
      (files : Dict Name host.Bytes) (n m : Name)
      → (n == m) ≡ false
      → get m (remove n files) ≡ get m files
  get-remove_other files n m other = ground (arith, get-remove n m files)

  get-move :
      (t : Spool host) (n m : Name) → (n == m) ≡ false → get m (move host t n).files ≡ get m t.files
  unfolding move
  get-move t n m other = elim (Option-cases (get n t.files)) [
    | inl missing ↦ rw (missing, move) refl
    | inr (c, found) ↦ rw (found, move) (get-remove_other t.files n m other)
  ]

  move-max_age : (t : Spool host) (n : Name) → (move host t n).max_age ≡ t.max_age
  unfolding move
  move-max_age t n = elim (Option-cases (get n t.files)) [
    | inl missing ↦ rw (missing, move) refl
    | inr (c, found) ↦ rw (found, move) refl
  ]

  module _ (s : Spool host) (now : ℕ) (whole : List (Entry host)) (n : Name) (ns : List Name)
      (p : Progress host) (fresh : contains n ns ≡ false) where
    still :
        Reading s now whole (n ∷ ns) p
        → (m : Name) → contains m ns ≡ true
        → get m p.spool.files ≡ get m s.files
    still q m here = q.untouched m (ground (arith, here))

    keep_or_expire-Reading :
        (e : Entry host) (content : host.Bytes)
        → e.path ≡ n
        → get n s.files ≡ some content
        → load host n content ≡ ok e
        → Reading s now whole (n ∷ ns) p
        → Reading s now whole ns (keep_or_expire host now e p)
    unfolding keep_or_expire unlink
    keep_or_expire-Reading e content own there read q =
        let parts : p.entries ++ if_young s now (ok e) (waiting s now ns) ≡ whole =
          rw (there, read) at q.parts in
        let aged : ltb (e.created_at + s.max_age) now ≡ ltb (e.created_at + p.spool.max_age) now =
          ap (λ m. ltb (e.created_at + m) now) (sym q.same_age) in
        elim (Bool-cases (ltb (e.created_at + p.spool.max_age) now)) [
          | inl old ↦ rw old (record {
            parts = rw (aged ∙ old) at parts;
            untouched = λ m here.
                get-remove_other p.spool.files e.path m (rw own (differ n m ns fresh here))
                ∙ still q m here;
            same_age = q.same_age;
          })
          | inr young ↦ rw young (record {
            parts =
                append_assoc p.entries (e ∷ []) (waiting s now ns) ∙ (rw (aged ∙ young) at parts);
            untouched = still q;
            same_age = q.same_age;
          })
        ]

    set_aside-Reading :
        (content : host.Bytes)
        → get n s.files ≡ some content
        → load host n content ≡ value_error
        → Reading s now whole (n ∷ ns) p
        → Reading s now whole ns (set_aside host n p)
    unfolding set_aside
    set_aside-Reading content there read q = record {
      parts = rw (there, read) at q.parts;
      untouched = λ m here. get-move p.spool n m (differ n m ns fresh here) ∙ still q m here;
      same_age = move-max_age p.spool n ∙ q.same_age;
    }

    scan_loaded-Reading :
        (content : host.Bytes) (res : Result (Entry host)) (r : Progress host)
        → get n s.files ≡ some content
        → load host n content ≡ res
        → scan_loaded host now n p res ≡ some r
        → Reading s now whole (n ∷ ns) p
        → Reading s now whole ns r
    unfolding scan_loaded
    scan_loaded-Reading content (ok e) r there read h q =
        subst (Reading s now whole ns) (cc h)
          (keep_or_expire-Reading e content (load-About host n content e read) there read q)
    scan_loaded-Reading content value_error r there read h q =
        subst (Reading s now whole ns) (cc h) (set_aside-Reading content there read q)
    scan_loaded-Reading content other_error r there read h q = absurd cc

    scan_file-Reading :
        (r : Progress host)
        → scan_file host now n p ≡ some r
        → Reading s now whole (n ∷ ns) p
        → Reading s now whole ns r
    unfolding scan_file
    scan_file-Reading r = elim (Option-cases (get n p.spool.files)) [
      | inl missing ↦ rw (missing, scan_file) (λ h q. absurd cc)
      | inr (content, found) ↦
          rw (found, scan_file)
            (λ h q.
              scan_loaded-Reading content (load host n content) r
                (sym (q.untouched n (ground (arith, same_name_iff n n))) ∙ found) refl h q)
    ]

  pub scan-Reading :
      (s : Spool host) (now : ℕ) (whole : List (Entry host)) (ns : List Name) (p : Progress host)
      → Distinct ns
      → Reading s now whole ns p
      → (scan host now ns p).0 ≡ true
      → (scan host now ns p).1.entries ≡ whole
  unfolding scan
  scan-Reading s now whole [] p d q = λ h. sym (append-nil p.entries) ∙ q.parts
  scan-Reading s now whole (n ∷ ns) p d q = elim (Option-cases (scan_file host now n p)) [
    | inl crash ↦ rw (crash, scan) (λ h. absurd cc)
    | inr (r, fine) ↦
        rw (fine, scan)
          (scan-Reading s now whole ns r d.1 (scan_file-Reading s now whole n ns p d.0 r fine q))
  ]
