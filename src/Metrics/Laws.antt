-- ===== src/Metrics/Laws.antt =====
-- What a phase gauge reads after the writes of a sequence of transitions.
use yk_talos_management.Prelude.{
  ℕ, String, List, [], ◌∷◌, ◌++◌, ◌==◌, ◌!=◌, ◌&&◌, string_eq, if◌then◌else◌, ◌≡◌, refl, arith,
}
use yk_talos_management.Effects.Calls.{Note, gauge}
use yk_talos_management.Metrics.Collectors.{Metric}
use yk_talos_management.Metrics.{phase_gauges}

-- The phase of each write, with the value written.
abbrev last_label : List String → String
last_label [] = ""
last_label (l ∷ []) = l
last_label (l ∷ k ∷ labels) = last_label (k ∷ labels)

-- What the series of a phase reads after the writes, the newest first; 0 before any.
unfoldable pub reading : List Note → String → ℕ
reading [] phase = 0
reading (gauge metric labels value ∷ notes) phase =
    if last_label labels == phase then value else reading notes phase
reading (_ ∷ notes) phase = reading notes phase

last_label-append : (labels : List String) (l : String) → last_label (labels ++ (l ∷ [])) ≡ l
last_label-append [] l = refl
last_label-append (k ∷ []) l = refl
last_label-append (k ∷ j ∷ labels) l = last_label-append (j ∷ labels) l

module _ (metric : Metric) (labels : List String) where
  -- One transition sets the new phase to 1 and the old one to 0, and no other series. A
  -- transition from the empty phase clears nothing.
  pub reading-phase_gauges :
      (from to phase : String) (notes : List Note)
      → reading (phase_gauges metric labels from to ++ notes) phase ≡ (
          if to == phase then 1 else if from != "" && from == phase then 0 else reading notes phase)
  unfolding reading phase_gauges
  reading-phase_gauges from to phase notes =
      ground (arith, last_label-append labels to, last_label-append labels from)

  -- The writes of an object that goes through the phases given, each recorded from the one before.
  pub journey : String → List String → List Note → List Note
  journey current [] notes = notes
  journey current (p ∷ phases) notes =
      journey p phases (phase_gauges metric labels current p ++ notes)

  abbrev pub arrival : String → List String → String
  arrival current [] = current
  arrival current (p ∷ phases) = arrival p phases

  -- What each series should read: 1 for the current phase and 0 for any other; the empty phase is
  -- left out.
  abbrev pub expected : String → List Note → String → ℕ
  expected current notes phase =
      if phase == "" then reading notes "" else if current == phase then 1 else 0

  abbrev pub IsOneHot : String → List Note → Type 0
  IsOneHot current notes = (phase : String) → reading notes phase ≡ expected current notes phase

  kept_empty_phase :
      (current : String) (phases : List String) (notes : List Note)
      → reading notes "" ≡ 1
      → reading (journey current phases notes) "" ≡ 1
  unfolding journey
  kept_empty_phase current [] notes h = h
  kept_empty_phase current (p ∷ phases) notes h =
      kept_empty_phase p phases (phase_gauges metric labels current p ++ notes)
        (ground (arith, reading-phase_gauges current p "" notes))

  -- The recording of a transition from the empty phase to itself makes the empty phase read 1,
  -- whatever it read before, and no sequence of transitions after it clears it.
  pub journey_keeps_empty_phase :
      (phases : List String) (notes : List Note) → reading (journey "" ("" ∷ phases) notes) "" ≡ 1
  unfolding journey
  journey_keeps_empty_phase phases notes =
      kept_empty_phase "" phases (phase_gauges metric labels "" "" ++ notes)
        (ground (arith, reading-phase_gauges "" "" "" notes))
