-- ===== src/Spool/Drain.antt =====
-- probe/spool.py `Spool._scan` and `Spool.drain`. The sender is a step on a state of its own: the
-- network and the gateway behind it.
use seismograph.Prelude.{
  ℕ, ◌+◌, String, Bool, true, false, Option, none, some, List, [], ◌∷◌, ◌++◌, leb, ltb, length,
  both, if◌then◌else◌, ◌==◌, nat_eq, string_eq,
}
use seismograph.Dict.{get}
use seismograph.Spool.{Host, Result, ok, value_error, other_error}
use seismograph.Spool.Body.{Headers}
use seismograph.Spool.Store.{Name, name_eq, Spool, Entry, files_of, unlink, move, load}

-- `stopped_on` is the status, or none for a transport error.
pub record DrainReport : Type 0 where
  pub delivered : List String
  pub duplicate : List String
  pub quarantined : List String
  pub quarantined_files : List Name
  pub expired : List String
  pub remaining : ℕ
  pub stopped_on : Option (Option ℕ)

abbrev pub no_report : DrainReport
no_report = record {
  delivered = [];
  duplicate = [];
  quarantined = [];
  quarantined_files = [];
  expired = [];
  remaining = 0;
  stopped_on = none;
}

-- What the drain does with one answer: an exception is none.
pub data Verdict : Type 0 where
  delivers duplicates rejects stops : Verdict

unfoldable pub verdict : Option ℕ → Verdict
verdict none = stops
verdict (some status) =
    if status == 202
    then delivers
    else if status == 409
    then duplicates
    else if both (leb 400 status) (ltb status 500)
    then rejects
    else stops

module _ (host : Host) where
  pub record Progress : Type 0 where
    pub spool : Spool host
    pub report : DrainReport
    pub entries : List (Entry host)

  -- One file that loads: too old, or an entry to send.
  unfoldable pub keep_or_expire : ℕ → Entry host → Progress → Progress
  keep_or_expire now e p =
      if ltb (e.created_at + p.spool.max_age) now
      then record p {
        spool = unlink host p.spool e.path;
        report = record p.report { expired = p.report.expired ++ e.batch_id ∷ [] };
      }
      else record p { entries = p.entries ++ e ∷ [] }

  unfoldable pub set_aside : Name → Progress → Progress
  set_aside n p = record p {
    spool = move host p.spool n;
    report = record p.report { quarantined_files = p.report.quarantined_files ++ n ∷ [] };
  }

  -- One turn of `_scan`; none is an exception that leaves the method.
  unfoldable pub scan_loaded : ℕ → Name → Progress → Result (Entry host) → Option Progress
  unfolding keep_or_expire set_aside
  scan_loaded now n p (ok e) = some (keep_or_expire now e p)
  scan_loaded now n p value_error = some (set_aside n p)
  scan_loaded now n p other_error = none

  unfoldable pub scan_file : ℕ → Name → Progress → Option Progress
  unfolding scan_loaded
  scan_file now n p = elim (get n p.spool.files) [
    | none ↦ none
    | some content ↦ scan_loaded now n p (load host n content)
  ]

  -- The loop, with whether it ended without an exception.
  unfoldable pub scan : ℕ → List Name → Progress → Bool × Progress
  unfolding scan_file
  scan now [] p = (true, p)
  scan now (n ∷ ns) p = elim (scan_file now n p) [ none ↦ (false, p) | some q ↦ scan now ns q ]

  module _ {Net : Type 0} (send : Net → host.Bytes → Headers → Option ℕ × Net) where
    -- What an answer that does not stop the drain does.
    unfoldable pub settle :
        Verdict → Entry host → Spool host → DrainReport → Spool host × DrainReport
    settle delivers e s r =
        (unlink host s e.path, record r { delivered = r.delivered ++ e.batch_id ∷ [] })
    settle duplicates e s r =
        (unlink host s e.path, record r { duplicate = r.duplicate ++ e.batch_id ∷ [] })
    settle rejects e s r =
        (move host s e.path, record r { quarantined = r.quarantined ++ e.batch_id ∷ [] })
    settle stops e s r = (s, r)

    unfoldable pub deliver :
        Net → List (Entry host) → Spool host → DrainReport → (Spool host × DrainReport) × Net
    unfolding settle verdict
    deliver w [] s r = ((s, record r { remaining = 0 }), w)
    deliver w (e ∷ es) s r =
        let (answer, w') = send w e.body e.headers in
        let (s', r') = settle (verdict answer) e s r in
        let rest = deliver w' es s' r' in
        elim (verdict answer) [
          | stops ↦ ((s, record r { remaining = length (e ∷ es); stopped_on = some answer }), w')
          | _ ↦ rest
        ]

    -- `drain`: none is an exception out of `_scan`, which leaves what it has moved so far.
    unfoldable pub drain : Net → Spool host → ℕ → (Spool host × Option DrainReport) × Net
    unfolding scan deliver
    drain w s now =
        let (fine, p) =
          scan now (files_of host s) (record { spool = s; report = no_report; entries = [] }) in
        elim fine [
          | false ↦ ((p.spool, none), w)
          | true ↦ let ((s', r), w') = deliver w p.entries p.spool p.report in ((s', some r), w')
        ]
