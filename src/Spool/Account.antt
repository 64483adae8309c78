-- ===== src/Spool/Account.antt =====
-- The report of probe/spool.py `drain` accounts for every file of the directory.
use seismograph.Prelude.{
  length-map, ◌≢◌, ◌⊎◌, string_eq, ℕ, ◌+◌, ◌≡◌, refl, ap, Option, some, List, [], ◌∷◌, ◌++◌, length,
  length-append, arith, Bool-cases, inl, inr,
}
use mathlib.Core.Path.{subst}
use mathlib.Core.List.{append-nil}
use seismograph.Dict.Keys.{Distinct, keys, length-remove}
use seismograph.Spool.{Host}
use seismograph.Spool.Body.{Headers}
use seismograph.Spool.Store.{Name, name_eq, Spool, Entry, files_of, unlink, move}
use seismograph.Spool.Files.{length-sort, Distinct-sort, Within-sort}
use seismograph.Spool.Drain.{
  DrainReport, no_report, Verdict, delivers, duplicates, rejects, stops, verdict, Progress, scan,
  settle, deliver, drain,
}
use seismograph.Spool.Held.{paths, Holds, Holds-remove, move-files, Holds-same}
use seismograph.Spool.Scanned.{counted, Scanning, scan-Scanning}

module _ (host : Host) where
  pub verdict_cases :
      (v : Verdict) → (v ≡ stops) ⊎ ((v ≡ delivers) ⊎ ((v ≡ duplicates) ⊎ (v ≡ rejects)))
  verdict_cases delivers = inr (inl refl)
  verdict_cases duplicates = inr (inr (inl refl))
  verdict_cases rejects = inr (inr (inr refl))
  verdict_cases stops = inl refl

  module _ {Net : Type 0} (send : Net → host.Bytes → Headers → Option ℕ × Net) where
    -- After sending the listed entries the report counts the files that are left.
    record Settled (total : ℕ) (out : Spool host × DrainReport) : Type 0 where
      left : length out.0.files ≡ out.1.remaining
      sum : counted out.1 + out.1.remaining ≡ total

    -- An answer that does not stop the drain takes the file out of the directory and counts it.
    settle-Holds :
        (total : ℕ) (v : Verdict) (e : Entry host) (ns : List Name) (s : Spool host)
        (r : DrainReport)
        → v ≢ stops
        → Holds host (e.path ∷ ns) s
        → counted r + length s.files ≡ total
        → Holds host ns (settle host send v e s r).0
          × (counted (settle host send v e s r).1 + length (settle host send v e s r).0.files
              ≡ total)
    unfolding settle unlink
    settle-Holds total delivers e ns s r go h sum = (
      Holds-remove host [] e.path ns s (unlink host s e.path) h refl,
      omega (
        arith,
        length-append r.delivered (e.batch_id ∷ []),
        length-remove e.path s.files h.unique h.present.0,
        sum,
      ),
    )
    settle-Holds total duplicates e ns s r go h sum = (
      Holds-remove host [] e.path ns s (unlink host s e.path) h refl,
      omega (
        arith,
        length-append r.duplicate (e.batch_id ∷ []),
        length-remove e.path s.files h.unique h.present.0,
        sum,
      ),
    )
    settle-Holds total rejects e ns s r go h sum =
        let gone = move-files host s e.path h.present.0 in
        (
          Holds-remove host [] e.path ns s (move host s e.path) h gone,
          omega (
            arith,
            length-append r.quarantined (e.batch_id ∷ []),
            length-remove e.path s.files h.unique h.present.0,
            ap length gone,
            sum,
          ),
        )
    settle-Holds total stops e ns s r go h sum = absurd (go refl)

    deliver-Settled :
        (total : ℕ) (w : Net) (es : List (Entry host)) (s : Spool host) (r : DrainReport)
        → Holds host (paths host es) s
        → counted r + length s.files ≡ total
        → Settled total (deliver host send w es s r).0
    unfolding deliver
    deliver-Settled total w [] s r h sum = record {
      left = h.exact;
      sum = omega (arith, h.exact, sum);
    }
    deliver-Settled total w (e ∷ es) s r h sum =
        let v = verdict (send w e.body e.headers).0 in
        let w' = (send w e.body e.headers).1 in
        let rest : (v ≢ stops)
            → Settled total
                (deliver host send w' es (settle host send v e s r).0
                  (settle host send v e s r).1).0 =
          (λ go.
            let moved = settle-Holds total v e (paths host es) s r go h sum in
            deliver-Settled total w' es _ _ moved.0 moved.1) in
        elim (verdict_cases v) [
          | inl eq ↦
              rw (eq, deliver)
                (record {
                  left = omega (arith, h.exact, length-map es (λ x. x.path));
                  sum = omega (arith, h.exact, length-map es (λ x. x.path), sum);
                })
          | inr (inl eq) ↦ rw (eq, deliver) (rest (λ x. cc))
          | inr (inr (inl eq)) ↦ rw (eq, deliver) (rest (λ x. cc))
          | inr (inr (inr eq)) ↦ rw (eq, deliver) (rest (λ x. cc))
        ]

    -- In a directory without two files of one name, a drain that ends without an exception accounts
    -- for every file: the batches delivered, found duplicate, quarantined or expired and the files
    -- quarantined unread, with `remaining`, are as many as the files before, and `remaining` is
    -- the number of files it leaves in the directory.
    pub drain_accounts :
        (w : Net) (s : Spool host) (now : ℕ) (r : DrainReport)
        → Distinct (keys s.files)
        → (drain host send w s now).0.1 ≡ some r
        → (counted r + r.remaining ≡ length s.files)
          × (length (drain host send w s now).0.0.files ≡ r.remaining)
    unfolding drain
    drain_accounts w s now r u =
        let start : Progress host = record { spool = s; report = no_report; entries = [] } in
        let ns = files_of host s in
        let q : Scanning host (length s.files) ns start = record {
          holds = record {
            unique = u;
            listed = Distinct-sort (keys s.files) u;
            present = Within-sort (keys s.files);
            exact = omega (arith, length-sort (keys s.files), length-map s.files (λ x. x.0));
          };
          sum = omega arith;
        } in
        elim (Bool-cases (scan host now ns start).0) [
          | inr crash ↦ rw (crash, drain) (λ h. absurd cc)
          | inl fine ↦
              let end = scan-Scanning host (length s.files) now ns start q fine in
              let last = (scan host now ns start).1 in
              let held =
                Holds-same host (paths host last.entries ++ []) (paths host last.entries) last.spool
                  last.spool (append-nil (paths host last.entries)) refl end.holds in
              let out =
                deliver-Settled (length s.files) w last.entries last.spool last.report held
                  end.sum in
              rw (fine, drain)
                (λ h.
                  subst
                    (λ x.
                      (counted x + x.remaining ≡ length s.files)
                      × (length (deliver host send w last.entries last.spool last.report).0.0.files
                          ≡ x.remaining))
                    (let same : (deliver host send w last.entries last.spool last.report).0.1 ≡ r =
                        cc h in
                      same)
                    (out.sum, out.left))
        ]
