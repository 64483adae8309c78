-- ===== src/Audit/Window.antt =====
-- The evidence of a report: which signals `generate` shows, in which order, and which it leaves out.
use mathlib.Core.Path.{ap, sym, subst}
use seismograph.Prelude.{
  take-drop, ◌↔◌, ◌∙◌, ℕ, zero, suc, ◌≤◌, ◌<◌, ◌≡◌, refl, String, Bool, true, Option, none, some,
  List, [], ◌∷◌, ◌++◌, map, leb, min, length, take, drop, keep, All, string_eq, arith, tests,
  Bool-cases, inl, inr, ◌⊎◌,
}
use mathlib.Core.List.Permᴰ
use mathlib.Core.List.{Permᴰ}
use text.Mathlib.TextEquality.{eq_iff}
use seismograph.Float.{Float}
use seismograph.Repository.{
  Repository, TelemetrySignal, LocalDriftAlert, PublicDriftAlert, get_local_alert_by_id,
  get_public_alert_by_id,
}
use seismograph.Audit.{
  public_details, local_details, Report, EvidenceRow, Encoding, Subject, place_signal,
  signals_newest_first, of_fleet, in_window, get_signals_before_timestamp, evidence_row, report_on,
  resolve, generate,
}

length-take {ℓ} : {A : Type ℓ} (n : ℕ) (xs : List A) → length (take n xs) ≡ min n (length xs)
length-take zero xs = omega arith
length-take (suc n) [] = omega arith
length-take (suc n) (x ∷ xs) = omega (arith, length-take n xs)

All-keep {ℓ κ} :
    {A : Type ℓ} {P : A → Type κ} (p : A → Bool) (xs : List A)
    → ((x : A) → p x ≡ true → P x)
    → All P (keep p xs)
All-keep p [] h = tt
All-keep {P} p (x ∷ xs) h = elim (Bool-cases (p x)) [
  | inl here ↦ rw here (h x here, All-keep {P = P} p xs h)
  | inr other ↦ rw other (All-keep {P = P} p xs h)
]

All-take {ℓ κ} : {A : Type ℓ} (P : A → Type κ) (n : ℕ) (xs : List A) → All P xs → All P (take n xs)
All-take P zero xs h = tt
All-take P (suc n) [] h = tt
All-take P (suc n) (x ∷ xs) (here, h) = (here, All-take P n xs h)

module _ (fl : Float) where
  -- Each signal is at least as new as all that follow it.
  abbrev pub NewestFirst : List (TelemetrySignal fl) → Type 0
  NewestFirst [] = Unit
  NewestFirst (s ∷ rest) = All (λ t. t.timestamp ≤ s.timestamp) rest × NewestFirst rest

  -- The signal is of the alert's model, strictly older than the alert, and of its fleet if it has one.
  abbrev pub Precedes : Subject → TelemetrySignal fl → Type 0
  Precedes a s =
      (s.model_tuple ≡ a.model_tuple)
      × (s.timestamp < a.alert_ts)
      × ((a.fleet_id ≡ none) ⊎ (s.fleet_id ≡ a.fleet_id))

  of_fleet_sound :
      (wanted row : Option String)
      → of_fleet fl wanted row ≡ true
      → (wanted ≡ none) ⊎ (row ≡ wanted)
  unfolding of_fleet
  of_fleet_sound none row h = inl refl
  of_fleet_sound (some f) none h = absurd cc
  of_fleet_sound (some f) (some g) h = grind (arith, eq_iff g f)

  in_window-Precedes :
      (a : Subject) (s : TelemetrySignal fl) → in_window fl a s ≡ true → Precedes a s
  unfolding in_window
  in_window-Precedes a s h =
      grind (arith, eq_iff s.model_tuple a.model_tuple, of_fleet_sound a.fleet_id s.fleet_id)

  of_fleet_complete :
      (wanted row : Option String)
      → (wanted ≡ none) ⊎ (row ≡ wanted)
      → of_fleet fl wanted row ≡ true
  unfolding of_fleet
  of_fleet_complete none row h = refl
  of_fleet_complete (some f) none h = absurd (elim h [ inl e ↦ cc | inr e ↦ cc ])
  of_fleet_complete (some f) (some g) h = ground (arith, eq_iff g f)

  Precedes-in_window :
      (a : Subject) (s : TelemetrySignal fl) → Precedes a s → in_window fl a s ≡ true
  unfolding in_window
  Precedes-in_window a s (model, older, fleet) =
      ground
        (arith, eq_iff s.model_tuple a.model_tuple, of_fleet_complete a.fleet_id s.fleet_id fleet)

  All-place_signal :
      (P : TelemetrySignal fl → Type 0) (a : TelemetrySignal fl) (xs : List (TelemetrySignal fl))
      → P a
      → All P xs
      → All P (place_signal fl a xs)
  All-place_signal P a [] h hs = (h, tt)
  All-place_signal P a (x ∷ xs) h (here, hs) = elim (Bool-cases (leb x.timestamp a.timestamp)) [
    | inl newer ↦ rw newer (h, (here, hs))
    | inr other ↦ rw other (here, All-place_signal P a xs h hs)
  ]

  All-older :
      (b c : ℕ) (xs : List (TelemetrySignal fl))
      → b ≤ c
      → All (λ t. t.timestamp ≤ b) xs
      → All (λ t. t.timestamp ≤ c) xs
  All-older b c [] le h = tt
  All-older b c (x ∷ xs) le (here, h) = (omega arith, All-older b c xs le h)

  place-NewestFirst :
      (a : TelemetrySignal fl) (xs : List (TelemetrySignal fl))
      → NewestFirst xs
      → NewestFirst (place_signal fl a xs)
  place-NewestFirst a [] h = (tt, tt)
  place-NewestFirst a (x ∷ xs) (older, h) = elim (Bool-cases (leb x.timestamp a.timestamp)) [
    | inl newer ↦
        rw newer
          ((omega tests, All-older x.timestamp a.timestamp xs (omega tests) older), (older, h))
    | inr other ↦ rw other (
      All-place_signal (λ t. t.timestamp ≤ x.timestamp) a xs (ground arith) older,
      place-NewestFirst a xs h,
    )
  ]

  sort-NewestFirst : (xs : List (TelemetrySignal fl)) → NewestFirst (signals_newest_first fl xs)
  sort-NewestFirst [] = tt
  sort-NewestFirst (x ∷ xs) = place-NewestFirst x (signals_newest_first fl xs) (sort-NewestFirst xs)

  place-Permᴰ :
      (a : TelemetrySignal fl) (xs : List (TelemetrySignal fl))
      → Permᴰ (place_signal fl a xs) (a ∷ xs)
  place-Permᴰ a [] = Permᴰ.refl (a ∷ [])
  place-Permᴰ a (x ∷ xs) = elim (Bool-cases (leb x.timestamp a.timestamp)) [
    | inl newer ↦ rw newer (Permᴰ.refl (a ∷ x ∷ xs))
    | inr other ↦ rw other (Permᴰ.trans (Permᴰ.cons refl (place-Permᴰ a xs)) (Permᴰ.swap refl refl))
  ]

  sort-Permᴰ : (xs : List (TelemetrySignal fl)) → Permᴰ (signals_newest_first fl xs) xs
  sort-Permᴰ [] = Permᴰ.nil
  sort-Permᴰ (x ∷ xs) =
      Permᴰ.trans (place-Permᴰ x (signals_newest_first fl xs)) (Permᴰ.cons refl (sort-Permᴰ xs))

  All-sort :
      (P : TelemetrySignal fl → Type 0) (xs : List (TelemetrySignal fl))
      → All P xs
      → All P (signals_newest_first fl xs)
  All-sort P [] h = tt
  All-sort P (x ∷ xs) (here, h) =
      All-place_signal P x (signals_newest_first fl xs) here (All-sort P xs h)

  module _ (enc : Encoding fl) (r : Repository fl) where
    -- The rows are those of the signals shown; these and the rest are, up to their order, all the
    -- stored signals that precede the alert, the newest first; at most fifty are shown, and all are
    -- if there are no more.
    abbrev pub Evidence : Subject → List (EvidenceRow fl) → Type 0
    Evidence a rows =
        (shown : List (TelemetrySignal fl)) × (rest : List (TelemetrySignal fl)) × (rows
          ≡ map (evidence_row fl enc) shown)
        × All (Precedes a) shown
        × ((precedes : TelemetrySignal fl → Bool) × (((s : TelemetrySignal fl)
                → (precedes s ≡ true) ↔ Precedes a s)
              × Permᴰ (shown ++ rest) (keep precedes r.signals)))
        × NewestFirst (shown ++ rest)
        × (length shown ≡ min 50 (length (shown ++ rest)))

    get_signals-Evidence :
        (a : Subject)
        → Evidence a (map (evidence_row fl enc) (get_signals_before_timestamp fl r a 50))
    unfolding get_signals_before_timestamp
    get_signals-Evidence a =
        let window = keep (in_window fl a) r.signals in
        let xs = signals_newest_first fl window in
        let whole = take-drop 50 xs in
        (
          take 50 xs,
          drop 50 xs,
          refl,
          All-take (Precedes a) 50 xs (
              All-sort (Precedes a) window
                (All-keep {P = Precedes a} (in_window fl a) r.signals (in_window-Precedes a))),
          (
            in_window fl a,
            (
              λ s. (in_window-Precedes a s, Precedes-in_window a s),
              subst (λ ys. Permᴰ ys window) (sym whole) (sort-Permᴰ window),
            ),
          ),
          subst NewestFirst (sym whole) (sort-NewestFirst window),
          length-take 50 xs ∙ ap (λ ys. min 50 (length ys)) (sym whole),
        )

    -- What the answer is, by the rows that the two tables have under the id.
    abbrev pub Reported :
        Option (LocalDriftAlert fl) → Option PublicDriftAlert → Option (Report fl) → Type 0
    Reported l p none = (l ≡ none) × (p ≡ none)
    Reported (some l) p (some report) =
        (report.body.alert_details
          ≡ local_details l.id (enc.isoformat l.timestamp) l.model_tuple l.metric_name l.alert_value
              l.client_id l.fleet_id)
        × (report.report_checksum ≡ enc.checksum report.body)
        × Evidence
            (record { model_tuple = l.model_tuple; fleet_id = l.fleet_id; alert_ts = l.timestamp })
            report.body.baseline_evidence
    Reported none (some p) (some report) =
        (report.body.alert_details
          ≡ public_details p.id (enc.isoformat p.timestamp) p.model_tuple p.metric_name
              p.contributing_org_count)
        × (report.report_checksum ≡ enc.checksum report.body)
        × Evidence (record { model_tuple = p.model_tuple; fleet_id = none; alert_ts = p.timestamp })
            report.body.baseline_evidence
    Reported none none (some report) = ⊥

    report_on-Reported :
        (now : ℕ) (l : Option (LocalDriftAlert fl)) (p : Option PublicDriftAlert)
        → Reported l p (report_on fl enc r now (resolve fl enc l p))
    unfolding report_on resolve
    report_on-Reported now (some l) p = (refl, refl, get_signals-Evidence _)
    report_on-Reported now none (some p) = (refl, refl, get_signals-Evidence _)
    report_on-Reported now none none = (refl, refl)

  -- A report is refused only for an id that neither table has. Otherwise it is about the local alert
  -- of that id or, if there is none, the public one, and gives its fields; it carries the checksum of its body, and its
  -- evidence is of signals of the alert's model that are strictly older than the alert, and of its
  -- fleet if it has one: the newest of those stored, newest first, all of them up to fifty.
  pub generate-Reported :
      (enc : Encoding fl) (r : Repository fl) (now alert_id : ℕ)
      → Reported enc r
          (get_local_alert_by_id fl r alert_id)
          (get_public_alert_by_id fl r alert_id)
          (generate fl enc r now alert_id)
  unfolding generate
  generate-Reported enc r now alert_id =
      report_on-Reported enc r now (get_local_alert_by_id fl r alert_id)
        (get_public_alert_by_id fl r alert_id)
