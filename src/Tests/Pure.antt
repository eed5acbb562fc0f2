-- ===== src/Tests/Pure.antt =====
-- Instances about the functions without effects.
use yk_talos_management.Prelude.{
  ℕ, ◌-◌, ◌*◌, ◌^◌, ◌≤◌, String, ◌<>◌, List, [], ◌∷◌, ◌≡◌, refl, arith, String-discrete, ℕ_discrete,
  some, ◌==◌, string_eq, if◌then◌else◌,
}
use yk_talos_management.Metrics.Collectors.{Metric}
use yk_talos_management.Api.{Condition, ConditionStatus, cond_true, cond_false}
use yk_talos_management.Retry.{backoff, second}
use yk_talos_management.Retry.Laws.{min, IsSane, backoff_lem, backoff_bounds}
use yk_talos_management.Metrics.Laws.{reading, journey, journey_keeps_empty_phase}
use yk_talos_management.Talos.Conditions.{set_condition}
use yk_talos_management.Talos.Conditions.Laws.{
  condition_of, IsUnique, transition_time, condition_of-set, set_condition-IsUnique,
}
use yk_talos_management.Node.Version.{version_from_image}
use yk_talos_management.Node.Version.Laws.{version_from_image-tagged}

-- The defaults: 5 seconds and 5 minutes.
abbrev base : ℕ
base = 5 * second

abbrev longest : ℕ
longest = 300 * second

defaults : IsSane base longest
defaults = record { ordered = omega arith; longest_fits = omega arith; scaled_fits = omega arith }

backoff_lem_example : backoff base longest 4 ≡ min longest (base * 2 ^ min (4 - 1) 10)
backoff_lem_example = backoff_lem base longest 4 defaults (omega arith) (omega arith)

backoff_bounds_example : (base ≤ backoff base longest 7) × (backoff base longest 7 ≤ longest)
backoff_bounds_example = backoff_bounds base longest 7 defaults

journey_keeps_empty_phase_example :
    reading
      (journey Metric.cluster_phase ("prod" ∷ []) "" ("" ∷ "Provisioning" ∷ "Ready" ∷ []) [])
      ""
    ≡ 1
journey_keeps_empty_phase_example =
    journey_keeps_empty_phase Metric.cluster_phase ("prod" ∷ []) ("Provisioning" ∷ "Ready" ∷ []) []

abbrev condition : String → ConditionStatus → Condition
condition type status = record {
  type = type;
  status = status;
  observed_generation = 0;
  last_transition_time = 1;
  reason = "R";
  message = "";
}

abbrev conditions : List Condition
conditions = condition "Ready" cond_true ∷ condition "Applied" cond_false ∷ []

conditions-IsUnique : IsUnique conditions
unfolding condition_of String-discrete
conditions-IsUnique = (refl, (refl, tt))

condition_of-set_example :
    condition_of (set_condition 5 conditions (condition "Applied" cond_true)) "Ready" ≡ (
      if ◌==◌ {A = String} "Applied" "Ready"
      then some (record (condition "Applied" cond_true) {
        last_transition_time =
            transition_time 5 (condition_of conditions "Ready") (condition "Applied" cond_true);
      })
      else condition_of conditions "Ready")
condition_of-set_example = condition_of-set 5 conditions (condition "Applied" cond_true) "Ready"

set_condition-IsUnique_example :
    IsUnique (set_condition 5 conditions (condition "Upgraded" cond_true))
set_condition-IsUnique_example =
    set_condition-IsUnique 5 conditions (condition "Upgraded" cond_true) conditions-IsUnique

version_from_image-tagged_example :
    version_from_image ("registry.local:5000/installer" <> (":" <> "v1.10.0")) ≡ "v1.10.0"
unfolding ℕ_discrete
version_from_image-tagged_example =
    version_from_image-tagged "registry.local:5000/installer" "v1.10.0" refl
