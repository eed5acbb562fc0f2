-- ===== src/Tests/Nodes.antt =====
-- Instances about the TalosNode controller.
use mathlib.Core.List.{Permᴰ}
use yk_talos_management.Prelude.{
  some, true, [], ◌∷◌, false, ◌≡◌, refl, String-discrete, ℕ_discrete, ◌≤◌, arith, ◌*◌, ◌+◌, ◌==◌,
  ◌||◌, string_eq, String,
}
use yk_talos_management.Api.{TalosNode, NodePhase, cond_true, ConditionStatus-discrete}
use yk_talos_management.Effects.Error.{ok}
use yk_talos_management.Effects.Objects.{PodPhase}
use yk_talos_management.Effects.Calls.{Call, did, empty}
use yk_talos_management.Effects.Environment.{Env}
use yk_talos_management.Safety.{IsSafe}
use yk_talos_management.Talos.Finalizer.{contains_finalizer, annotation_last_upgrade}
use yk_talos_management.Shared.Constants.{
  deletion_guard_requeue_delay, drain_poll_interval, requeue,
}
use yk_talos_management.Node.Etcd.{proceed, handle_etcd_leave}
use yk_talos_management.Node.Access.{load_talosconfig}
use yk_talos_management.Shared.Secrets.{secret_key}
use yk_talos_management.Node.Etcd.Laws.{handle_etcd_leave-proceed}
use yk_talos_management.Node.Drain.{evict_pods, drain_pods, poll_pods, await_tick, poll_rounds}
use yk_talos_management.Node.Drain.Rounds.{waits, drain_pods-poll_rounds}
use yk_talos_management.Node.Drain.Evictable.{is_evictable}
use yk_talos_management.Node.Drain.Laws.{WasEmpty, drain_pods-WasEmpty}
use yk_talos_management.Node.Upgrade.{poll_upgrade}
use yk_talos_management.Node.Upgrade.Complete.{
  is_completion, expected_version, poll_upgrade-is_completion,
}
use yk_talos_management.Node.Deletion.{handle_deletion}
use yk_talos_management.Node.Deletion.Laws.{handle_deletion-last_control_plane}
use yk_talos_management.Node.Extensions.Canonical.{canonical_extensions}
use yk_talos_management.Node.Extensions.Laws.{canonical_extensions_perm}
use yk_talos_management.Talos.Conditions.{has_condition}
use yk_talos_management.Node.Apply.{apply_node_config}
use yk_talos_management.Node.Apply.Laws.{insecure_dials, apply_node_config-insecure_dials}
use yk_talos_management.Node.Reconcile.Order.{run}
use yk_talos_management.Node.Declared.{fits}
use yk_talos_management.Node.Declared.Reconcile.{run-fits}
use yk_talos_management.Node.Reconcile.Safety.{
  opened, closed, changes, run-IsSafe, run-opened, reconcile-changes,
}
use yk_talos_management.Node.Reconcile.{reconcile}
use yk_talos_management.Tests.World.{
  world, node_of, upgrading_node, resetting_node, deleting_node, cluster, pod_of, remote,
  connection,
}

abbrev healthy : Env
healthy = world upgrading_node (upgrading_node ∷ []) []

-- A node that is asked to reset.
abbrev resetting : Env
resetting = world resetting_node (resetting_node ∷ []) []

run-IsSafe_example :
    IsSafe resetting (run resetting (("talos", "cp1") ∷ ("talos", "cp1") ∷ []) empty).calls
run-IsSafe_example = run-IsSafe resetting (("talos", "cp1") ∷ ("talos", "cp1") ∷ [])

run-opened_example :
    opened (run healthy (("talos", "cp1") ∷ []) empty).calls
    ≡ closed (run healthy (("talos", "cp1") ∷ []) empty).calls
run-opened_example = run-opened healthy (("talos", "cp1") ∷ [])

run-fits_example : fits (run healthy (("talos", "cp1") ∷ []) empty).notes ≡ true
run-fits_example = run-fits healthy (("talos", "cp1") ∷ [])

reconcile-changes_example : changes (reconcile healthy "talos" "cp1" empty).1.calls ≤ 1
reconcile-changes_example = reconcile-changes healthy "talos" "cp1" empty

abbrev peer : TalosNode
peer = node_of "cp2" NodePhase.ready []

abbrev alone : Env
alone = world deleting_node (deleting_node ∷ []) []

handle_deletion-last_control_plane_example : handle_deletion alone deleting_node empty ≡ (
  ok (requeue deletion_guard_requeue_delay),
  record {
    calls = did (Call.list_nodes "talos") ∷ did (Call.get_cluster "talos" "prod") ∷ [];
    notes = [];
  },
)
unfolding contains_finalizer String-discrete
handle_deletion-last_control_plane_example =
    handle_deletion-last_control_plane alone deleting_node cluster (deleting_node ∷ []) empty refl
      refl refl refl refl refl

handle_etcd_leave-proceed_example :
    (handle_etcd_leave alone
      (record deleting_node { status = record (deleting_node.status) { deletion_attempts = 3 } })
      empty).0
    ≡ ok proceed
unfolding load_talosconfig secret_key String-discrete
handle_etcd_leave-proceed_example =
    handle_etcd_leave-proceed alone
      (record deleting_node { status = record (deleting_node.status) { deletion_attempts = 3 } })
      (some ("context: prod", "10.0.0.1" ∷ "10.0.0.2" ∷ [])) empty refl (omega arith)

-- A node that runs a pod of a DaemonSet only.
abbrev drained : Env
drained = world deleting_node [] (pod_of "proxy" ("DaemonSet" ∷ []) PodPhase.running false ∷ [])

drain_pods-WasEmpty_example :
    WasEmpty drained remote "cp1" (drain_pods drained 3 remote "cp1" 10 empty).1.calls
unfolding drain_pods poll_pods await_tick evict_pods is_evictable String-discrete ℕ_discrete
drain_pods-WasEmpty_example = drain_pods-WasEmpty drained remote 3 "cp1" 10 empty refl

canonical_extensions_perm_example :
    canonical_extensions ("siderolabs/iscsi-tools" ∷ "siderolabs/gvisor" ∷ [])
    ≡ canonical_extensions ("siderolabs/gvisor" ∷ "siderolabs/iscsi-tools" ∷ [])
canonical_extensions_perm_example = canonical_extensions_perm (Permᴰ.swap refl refl)

-- A clock that shows the time of the pauses made so far.
abbrev ticking : Env
ticking = record drained { now = λ t. drain_poll_interval * waits t.calls }

drain_pods-poll_rounds_example :
    drain_pods ticking 100 remote "cp1" (0 + 30000000000) empty
    ≡ drain_pods ticking (poll_rounds ticking 30000000000) remote "cp1" (0 + 30000000000) empty
drain_pods-poll_rounds_example =
    drain_pods-poll_rounds ticking remote "cp1" 30000000000 100 empty (λ t. omega arith)
      (omega arith)

abbrev upgraded_node : TalosNode
upgraded_node =
    node_of "cp1" NodePhase.upgrading
      ((annotation_last_upgrade, "ghcr.io/siderolabs/installer:v1.9.0") ∷ [])

poll_upgrade-is_completion_example :
    is_completion "v1.9.0" (poll_upgrade healthy upgraded_node connection empty).1.calls ≡ (
      expected_version upgraded_node == ""
      || ◌==◌ {A = String} "v1.9.0" (expected_version upgraded_node))
poll_upgrade-is_completion_example =
    poll_upgrade-is_completion healthy upgraded_node connection
      (record { tag = "v1.9.0"; mode = "metal" }) empty refl

abbrev applied_node : TalosNode
applied_node = record upgraded_node {
  status = record (upgraded_node.status) {
    conditions =
        (record {
          type = "ConfigApplied";
          status = cond_true;
          observed_generation = 0;
          last_transition_time = 0;
          reason = "Applied";
          message = "";
        })
        ∷ [];
  };
}

apply_node_config-insecure_dials_example :
    insecure_dials (apply_node_config healthy applied_node empty).1.calls ≡ 0
unfolding has_condition String-discrete ConditionStatus-discrete
apply_node_config-insecure_dials_example =
    apply_node_config-insecure_dials healthy applied_node empty refl
