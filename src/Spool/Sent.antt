-- ===== src/Spool/Sent.antt =====
-- What probe/spool.py `drain` sends, and in which order.
use mathlib.Core.List.{append-nil, append_assoc}
use mathlib.Core.Path.{subst}
use seismograph.Prelude.{
  ◌==◌, ℕ, ◌≡◌, ◌≢◌, refl, ◌∙◌, sym, Bool, true, false, Option, none, some, List, [], ◌∷◌, ◌++◌,
  leb, ltb, both, either, negate, nat_eq, arith, Bool-cases, inl, inr,
}
use seismograph.Dict.Keys.{keys, contains, Distinct}
use seismograph.Spool.{Host}
use seismograph.Spool.Body.{Headers}
use seismograph.Spool.Store.{Name, name_eq, Spool, Entry, files_of}
use seismograph.Spool.Files.{contains-sort, Distinct-sort}
use seismograph.Spool.Drain.{
  DrainReport, no_report, verdict, stops, Progress, scan, settle, deliver, drain,
}
use seismograph.Spool.Waiting.{waiting, Reading, scan-Reading}
use seismograph.Spool.Account.{verdict_cases}
use seismograph.Spool.Order.{Sorted, sort-Sorted}

-- No answer, or one that is neither 202 nor from 400 to 499.
abbrev pub halts : Option ℕ → Bool
halts none = true
halts (some status) = negate (either (status == 202) (both (leb 400 status) (ltb status 500)))

halts-stops : (a : Option ℕ) → verdict a ≡ stops → halts a ≡ true
unfolding verdict
halts-stops none h = refl
halts-stops (some status) h = ground arith

halts_unless : (a : Option ℕ) → verdict a ≢ stops → halts a ≡ false
unfolding verdict
halts_unless none h = absurd (h refl)
halts_unless (some status) h = ground arith

module _ (host : Host) where
  -- A request with its answer.
  abbrev pub Call : Type 0
  Call = host.Bytes × Headers × Option ℕ

  -- The calls send the entries in their order, one call for each, up to the first answer that halts
  -- or to the end.
  abbrev pub Sends : List (Entry host) → List Call → Type 0
  Sends [] calls = calls ≡ []
  Sends (e ∷ es) [] = ⊥
  Sends (e ∷ es) ((body, headers, answer) ∷ calls) =
      (body ≡ e.body)
      × (headers ≡ e.headers)
      × (halts answer ≡ true → calls ≡ [])
      × (halts answer ≡ false → Sends es calls)

  module _ {Net : Type 0} (send : Net → host.Bytes → Headers → Option ℕ × Net) where
    -- The same sender, with a log of its calls.
    abbrev pub logged : Net × List Call → host.Bytes → Headers → Option ℕ × (Net × List Call)
    logged (w, log) body headers =
        let (answer, w') = send w body headers in
        (answer, (w', log ++ (body, headers, answer) ∷ []))

    deliver-Sends :
        (w : Net) (log : List Call) (es : List (Entry host)) (s : Spool host) (r : DrainReport)
        → (calls : List Call) × (((deliver host logged (w, log) es s r).1.1 ≡ log ++ calls)
            × Sends es calls)
    unfolding deliver
    deliver-Sends w log [] s r = ([], (sym (append-nil log), refl))
    deliver-Sends w log (e ∷ es) s r =
        let a = (send w e.body e.headers).0 in
        let w' = (send w e.body e.headers).1 in
        let call : Call = (e.body, e.headers, a) in
        let (calls, (rest, sends)) =
          deliver-Sends w' (log ++ call ∷ []) es (settle host logged (verdict a) e s r).0
            (settle host logged (verdict a) e s r).1 in
        let one = append_assoc log (call ∷ []) calls in
        let goes_on : verdict a ≢ stops → Sends (e ∷ es) (call ∷ calls) =
          (λ go. (refl, refl, (λ h. absurd (cc (h, halts_unless a go))), (λ h. sends))) in
        elim (verdict_cases host (verdict a)) [
          | inl eq ↦
              rw (eq, deliver)
                (
                  call ∷ [],
                  (refl, (refl, refl, (λ h. refl), (λ h. absurd (cc (h, halts-stops a eq))))),
                )
          | inr (inl eq) ↦ rw (eq, deliver) (call ∷ calls, (rest ∙ one, goes_on (λ h. cc)))
          | inr (inr (inl eq)) ↦ rw (eq, deliver) (call ∷ calls, (rest ∙ one, goes_on (λ h. cc)))
          | inr (inr (inr eq)) ↦ rw (eq, deliver) (call ∷ calls, (rest ∙ one, goes_on (λ h. cc)))
        ]

    -- The listing has each file of the directory once, sorted by name, the oldest first.
    abbrev pub Lists : List Name → Spool host → Type 0
    Lists ns s = Sorted ns × Distinct ns × ((n : Name) → contains n ns ≡ contains n (keys s.files))

    -- A drain of a directory without a name twice that ends in an exception sends nothing. Otherwise
    -- it sends, in the sorted order of the file names, one request for each file that loads and is
    -- not too old, with the body and the headers that it loads from the file, up to the first request
    -- with no answer or an answer other than 202 and 400 to 499, and then no more.
    pub drain_in_order :
        (w : Net) (s : Spool host) (now : ℕ)
        → Distinct (keys s.files)
        → (ns : List Name) × (Lists ns s
            × ((drain host logged (w, []) s now).0.1 ≡ none
                → (drain host logged (w, []) s now).1.1 ≡ [])
            × ((drain host logged (w, []) s now).0.1 ≢ none
                → Sends (waiting host s now ns) (drain host logged (w, []) s now).1.1))
    unfolding drain
    drain_in_order w s now unique =
        let start : Progress host = record { spool = s; report = no_report; entries = [] } in
        let ns = files_of host s in
        let lists : Lists ns s = (
          sort-Sorted (keys s.files),
          Distinct-sort (keys s.files) unique,
          λ n. contains-sort n (keys s.files),
        ) in
        let begin : Reading host s now (waiting host s now ns) ns start = record {
          parts = refl;
          untouched = λ m here. refl;
          same_age = refl;
        } in
        elim (Bool-cases (scan host now ns start).0) [
          | inr crash ↦ rw (crash, drain) (ns, (lists, (λ h. refl), (λ h. absurd (h refl))))
          | inl fine ↦
              let last = (scan host now ns start).1 in
              let all =
                scan-Reading host s now (waiting host s now ns) ns start lists.1 begin fine in
              let out = deliver host logged (w, []) last.entries last.spool last.report in
              let (calls, (sent, sends)) = deliver-Sends w [] last.entries last.spool last.report in
              rw (fine, drain)
                (
                  ns,
                  (
                    lists,
                    (λ h. absurd cc),
                    (λ h.
                        subst (λ es. Sends es out.1.1) all
                          (subst (Sends last.entries) (sym sent) sends)),
                  ),
                )
        ]
