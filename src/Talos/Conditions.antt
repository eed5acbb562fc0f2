-- ===== src/Talos/Conditions.antt =====
-- internal/talos/conditions.go.
pub mod Laws
use yk_talos_management.Prelude.{
  ℕ, String, Bool, List, [], ◌∷◌, ◌==◌, ◌&&◌, string_eq, if◌then◌else◌, false, true,
}
use yk_talos_management.Api.{Condition, ConditionStatus, condition_status_eq}
use yk_talos_management.Effects.Monad.{M, pure, ◌>>=◌}
use yk_talos_management.Effects.Environment.{Env}
use yk_talos_management.Effects.Kube.{now}

unfoldable pub has_condition : List Condition → String → ConditionStatus → Bool
has_condition [] type status = false
has_condition (c ∷ conditions) type status =
    if c.type == type && c.status == status then true else has_condition conditions type status

-- The new condition with the time of its last change of status.
unfoldable pub stamp : ℕ → Condition → Condition → Condition
stamp time old condition =
    if old.status == condition.status
    then record condition { last_transition_time = old.last_transition_time }
    else record condition { last_transition_time = time }

-- `SetCondition`, at the time that it reads from the clock
unfoldable pub set_condition : ℕ → List Condition → Condition → List Condition
unfolding stamp
set_condition time [] condition = record condition { last_transition_time = time } ∷ []
set_condition time (c ∷ conditions) condition =
    if c.type == condition.type
    then stamp time c condition ∷ conditions
    else c ∷ set_condition time conditions condition

module _ (env : Env) where
  unfoldable pub set_condition_status :
      List Condition → String → ConditionStatus → String → String → M (List Condition)
  unfolding set_condition
  set_condition_status conditions type status reason message = do
    time ← now env
    pure (
        set_condition time conditions (record {
          type = type;
          status = status;
          observed_generation = 0;
          last_transition_time = 0;
          reason = reason;
          message = message;
        }))
