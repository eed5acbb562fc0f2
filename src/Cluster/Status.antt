-- ===== src/Cluster/Status.antt =====
-- The status of a TalosCluster: labels, phases, `isUpToDate`, and the loop of `activeNodeCount`.
use yk_talos_management.Prelude.{
  ℕ, suc, String, List, [], ◌∷◌, Bool, not, ◌==◌, ◌&&◌, string_eq, nat_eq, if◌then◌else◌,
}
use yk_talos_management.Api.{
  TalosNode, TalosCluster, TalosClusterStatus, ClusterPhase, ObjectMeta, cluster_phase_eq,
  cond_true,
}
use yk_talos_management.Effects.Calls.{Note}
use yk_talos_management.Effects.Monad.{M, tell}
use yk_talos_management.Metrics.{record_cluster_phase}
use yk_talos_management.Talos.Conditions.{has_condition}
use yk_talos_management.Node.Deletion.Guard.{is_terminating}

abbrev pub condition_secrets_generated : String
condition_secrets_generated = "SecretsGenerated"

abbrev pub condition_configs_generated : String
condition_configs_generated = "ConfigsGenerated"

unfoldable pub phase_text : ClusterPhase → String
phase_text ClusterPhase.unset = ""
phase_text ClusterPhase.pending = "Pending"
phase_text ClusterPhase.provisioning = "Provisioning"
phase_text ClusterPhase.ready = "Ready"
phase_text ClusterPhase.error = "Error"
phase_text ClusterPhase.deleting = "Deleting"

abbrev pub with_status : TalosCluster → TalosClusterStatus → TalosCluster
with_status cluster status = record cluster { status = status }

abbrev pub with_meta : TalosCluster → ObjectMeta → TalosCluster
with_meta cluster meta = record cluster { meta = meta }

unfoldable pub phase_notes : TalosCluster → ClusterPhase → ClusterPhase → List Note
unfolding phase_text
phase_notes cluster from to =
    record_cluster_phase cluster.meta.name cluster.meta.namespace (phase_text from) (phase_text to)

abbrev pub note_phase : TalosCluster → ClusterPhase → ClusterPhase → M (Unit {0})
note_phase cluster from to = tell (phase_notes cluster from to)

-- `isUpToDate`
unfoldable pub is_up_to_date : TalosCluster → Bool
is_up_to_date cluster =
    cluster.status.observed_generation == cluster.meta.generation
    && cluster.status.phase == ClusterPhase.ready
    && has_condition cluster.status.conditions condition_configs_generated cond_true

-- The loop of `activeNodeCount`.
unfoldable pub count_active : String → List TalosNode → ℕ
count_active name [] = 0
count_active name (n ∷ items) =
    let rest = count_active name items in
    if n.spec.cluster_ref == name && not (is_terminating n) then suc rest else rest
