-- ===== src/Spool/Scanned.antt =====
-- probe/spool.py `_scan` loses track of no file.
use seismograph.Prelude.{
  ltb, string_eq, Option-cases, ℕ, ◌+◌, ◌≡◌, refl, ◌∙◌, ap, true, some, List, [], ◌∷◌, ◌++◌, length,
  length-append, arith, Bool-cases, inl, inr,
}
use mathlib.Core.Path.{subst, sym}
use seismograph.Dict.{get, remove}
use seismograph.Dict.Keys.{contains, keys, length-remove, get-contains}
use seismograph.Spool.{Host, Result, ok, value_error, other_error}
use seismograph.Spool.Store.{Name, name_eq, Entry, unlink, move, load}
use seismograph.Spool.Drain.{
  DrainReport, Progress, scan, scan_file, scan_loaded, keep_or_expire, set_aside,
}
use seismograph.Spool.Held.{
  Within-middle, paths, Holds, Holds-remove, move-files, Holds-same, paths-snoc,
}
use seismograph.Spool.Loaded.{About, load-About}

-- The files that a report mentions one by one.
abbrev pub counted : DrainReport → ℕ
counted r =
    length r.delivered
    + length r.duplicate
    + length r.quarantined
    + length r.quarantined_files
    + length r.expired

module _ (host : Host) where
  -- What is left to do in `_scan`, and the number of files that the report mentions.
  pub record Scanning (total : ℕ) (ns : List Name) (p : Progress host) : Type 0 where
    pub holds : Holds host (paths host p.entries ++ ns) p.spool
    pub sum : counted p.report + length p.spool.files ≡ total

  module _ (total now : ℕ) (n : Name) (ns : List Name) (p : Progress host) where
    present_here : Scanning total (n ∷ ns) p → contains n (keys p.spool.files) ≡ true
    present_here q =
        (Within-middle (paths host p.entries) n ns (keys p.spool.files) q.holds.present).0

    keep_or_expire-Scanning :
        (e : Entry host)
        → e.path ≡ n
        → Scanning total (n ∷ ns) p
        → Scanning total ns (keep_or_expire host now e p)
    unfolding keep_or_expire unlink
    keep_or_expire-Scanning e own q = elim (Bool-cases (ltb (e.created_at + p.spool.max_age) now)) [
      | inl old ↦ rw old (record {
        holds =
            Holds-remove host (paths host p.entries) n ns p.spool (unlink host p.spool e.path)
              q.holds (ap (λ x. remove x p.spool.files) own);
        sum = rw own (
            omega (
              arith,
              length-append p.report.expired (e.batch_id ∷ []),
              length-remove n p.spool.files q.holds.unique (present_here q),
              q.sum,
            ));
      })
      | inr young ↦ rw young (record {
        holds =
            Holds-same host (paths host p.entries ++ n ∷ ns)
              (paths host (p.entries ++ e ∷ []) ++ ns) p.spool p.spool
              (ap (λ x. paths host p.entries ++ x ∷ ns) (sym own)
                ∙ sym (paths-snoc host p.entries e ns))
              refl q.holds;
        sum = q.sum;
      })
    ]

    set_aside-Scanning : Scanning total (n ∷ ns) p → Scanning total ns (set_aside host n p)
    unfolding set_aside
    set_aside-Scanning q =
        let gone = move-files host p.spool n (present_here q) in
        record {
          holds =
              Holds-remove host (paths host p.entries) n ns p.spool (move host p.spool n) q.holds
                gone;
          sum = omega (
            arith,
            length-append p.report.quarantined_files (n ∷ []),
            ap length gone,
            length-remove n p.spool.files q.holds.unique (present_here q),
            q.sum,
          );
        }

    scan_loaded-Scanning :
        (res : Result (Entry host)) (r : Progress host)
        → About host n res
        → scan_loaded host now n p res ≡ some r
        → Scanning total (n ∷ ns) p
        → Scanning total ns r
    unfolding scan_loaded
    scan_loaded-Scanning (ok e) r about h q =
        subst (Scanning total ns) (cc h) (keep_or_expire-Scanning e (about e refl) q)
    scan_loaded-Scanning value_error r about h q =
        subst (Scanning total ns) (cc h) (set_aside-Scanning q)
    scan_loaded-Scanning other_error r about h q = absurd cc

    scan_file-Scanning :
        (r : Progress host)
        → scan_file host now n p ≡ some r
        → Scanning total (n ∷ ns) p
        → Scanning total ns r
    unfolding scan_file
    scan_file-Scanning r = elim (Option-cases (get n p.spool.files)) [
      | inl missing ↦ λ h q. absurd cc (present_here q, get-contains n p.spool.files missing)
      | inr (content, found) ↦
          rw (found, scan_file)
            (scan_loaded-Scanning (load host n content) r (load-About host n content))
    ]

  pub scan-Scanning :
      (total now : ℕ) (ns : List Name) (p : Progress host)
      → Scanning total ns p
      → (scan host now ns p).0 ≡ true
      → Scanning total [] (scan host now ns p).1
  unfolding scan
  scan-Scanning total now [] p q = λ h. q
  scan-Scanning total now (n ∷ ns) p q = elim (Option-cases (scan_file host now n p)) [
    | inl crash ↦ rw (crash, scan) (λ h. absurd cc)
    | inr (r, fine) ↦
        rw (fine, scan)
          (scan-Scanning total now ns r (scan_file-Scanning total now n ns p r fine q))
  ]
