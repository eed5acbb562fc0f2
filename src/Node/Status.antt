-- ===== src/Node/Status.antt =====
-- What every part of the TalosNode controller does to a node: labels, phases, conditions.
use yk_talos_management.Prelude.{String, List, Bool, true, none, some}
use yk_talos_management.Api.{
  TalosNode, TalosNodeStatus, NodePhase, NodeRole, Condition, ConditionStatus, ObjectMeta,
}
use yk_talos_management.Effects.Calls.{Note}
use yk_talos_management.Effects.Monad.{M, pure, tell, ◌>>=◌}
use yk_talos_management.Effects.Environment.{Env}
use yk_talos_management.Metrics.{record_node_phase}
use yk_talos_management.Talos.Conditions.{set_condition_status}

abbrev pub condition_config_applied : String
condition_config_applied = "ConfigApplied"

abbrev pub condition_talos_version_up_to_date : String
condition_talos_version_up_to_date = "TalosVersionUpToDate"

abbrev pub condition_extensions_up_to_date : String
condition_extensions_up_to_date = "ExtensionsUpToDate"

unfoldable pub phase_text : NodePhase → String
phase_text NodePhase.unset = ""
phase_text NodePhase.pending = "Pending"
phase_text NodePhase.applying = "Applying"
phase_text NodePhase.ready = "Ready"
phase_text NodePhase.error = "Error"
phase_text NodePhase.deleting = "Deleting"
phase_text NodePhase.upgrading = "Upgrading"

unfoldable pub role_text : NodeRole → String
role_text NodeRole.control_plane = "ControlPlane"
role_text NodeRole.worker = "Worker"

-- `node.Status.f = …` for each field that the code assigns
abbrev pub with_status : TalosNode → TalosNodeStatus → TalosNode
with_status node status = record node { status = status }

abbrev pub with_phase : TalosNode → NodePhase → TalosNode
with_phase node phase = with_status node (record (node.status) { phase = phase })

abbrev pub with_conditions : TalosNode → List Condition → TalosNode
with_conditions node conditions =
    with_status node (record (node.status) { conditions = conditions })

abbrev pub with_meta : TalosNode → ObjectMeta → TalosNode
with_meta node meta = record node { meta = meta }

-- `RecordNodePhase` with the labels of a node
unfoldable pub phase_notes : TalosNode → NodePhase → NodePhase → List Note
unfolding phase_text role_text
phase_notes node from to =
    record_node_phase node.meta.name node.meta.namespace node.spec.cluster_ref
      (role_text node.spec.role) node.spec.node_ip (phase_text from) (phase_text to)

abbrev pub note_phase : TalosNode → NodePhase → NodePhase → M (Unit {0})
note_phase node from to = tell (phase_notes node from to)

-- `driftEnabled`
unfoldable pub drift_enabled : TalosNode → Bool
drift_enabled node = elim (node.spec.drift_detection) [ none ↦ true | some b ↦ b ]

module _ (env : Env) where
  -- `talos.SetConditionStatus(&node.Status.Conditions, …)`
  abbrev pub set_condition : TalosNode → String → ConditionStatus → String → String → M TalosNode
  set_condition node type status reason message = do
    conditions ← set_condition_status env node.status.conditions type status reason message
    pure (with_conditions node conditions)
