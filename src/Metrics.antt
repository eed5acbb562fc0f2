-- ===== src/Metrics.antt =====
-- internal/metrics/metrics.go: the gauges that show the phase of each object, and the result label.
pub mod Collectors
pub mod Declared
pub mod Laws
use yk_talos_management.Prelude.{
  ℕ, String, List, [], ◌∷◌, ◌++◌, Bool, true, false, ◌==◌, ◌!=◌, ◌&&◌, string_eq, if◌then◌else◌,
}
use yk_talos_management.Metrics.Collectors.{Metric}
use yk_talos_management.Effects.Error.{Answer, ok, err}
use yk_talos_management.Effects.Calls.{Note, gauge}

-- The writes of one phase gauge, the newest first: the labels come before the phase.
unfoldable pub phase_gauges : Metric → List String → String → String → List Note
phase_gauges metric labels from to =
    gauge metric (labels ++ (to ∷ [])) 1
    ∷ (if from != to && from != "" then gauge metric (labels ++ (from ∷ [])) 0 ∷ [] else [])

unfoldable pub record_node_phase :
    String → String → String → String → String → String → String → List Note
unfolding phase_gauges
record_node_phase name namespace cluster role ip from to =
    phase_gauges Metric.node_phase (name ∷ namespace ∷ cluster ∷ role ∷ ip ∷ []) from to

unfoldable pub record_cluster_phase : String → String → String → String → List Note
unfolding phase_gauges
record_cluster_phase name namespace from to =
    phase_gauges Metric.cluster_phase (name ∷ namespace ∷ []) from to

unfoldable pub record_bootstrap_phase : String → String → String → String → List Note
unfolding phase_gauges
record_bootstrap_phase cluster namespace from to =
    phase_gauges Metric.bootstrap_phase (cluster ∷ namespace ∷ []) from to

-- `ResultLabel`
unfoldable pub result_label {ℓ} : {A : Type ℓ} → Answer A → String
result_label (ok a) = "success"
result_label (err e) = "error"
