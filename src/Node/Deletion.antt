-- ===== src/Node/Deletion.antt =====
-- `handleDeletion` of talosnode_controller.go and its steps. Each step is a function, and a step
-- that lets the deletion wait returns `later`.
pub mod Laws
pub mod Stages
pub mod Sequence
pub mod Order
pub mod Guard
use yk_talos_management.Prelude.{
  ℕ, String, ◌<>◌, List, [], ◌∷◌, Bool, true, false, not, length, ◌==◌, ◌!=◌, string_eq, nat_eq,
  if◌then◌else◌, Option, none, some,
}
use yk_talos_management.Metrics.Collectors.{Metric}
use yk_talos_management.Prelude.Dict.{insert}
use yk_talos_management.Api.{
  TalosNode, TalosCluster, NodePhase, NodeRole, node_phase_eq, node_role_eq,
}
use yk_talos_management.Effects.Error.{Error, Answer, ok, err, wrap, is_not_found}
use yk_talos_management.Effects.Objects.{Result, Secret}
use yk_talos_management.Effects.Calls.{normal, warning}
use yk_talos_management.Effects.Monad.{M, pure, raise, try, wrapped, when, ◌>>=◌, ◌>>◌}
use yk_talos_management.Effects.Environment.{Env}
use yk_talos_management.Effects.Kube.{
  update_node, update_node_status, update_cluster, update_secret, get_cluster, get_secret,
  delete_secret, list_nodes, emit_event, count,
}
use yk_talos_management.Talos.Finalizer.{contains_finalizer, remove_finalizer, finalizer_cleanup}
use yk_talos_management.Shared.Names.{cluster_kubeconfig_name, node_config_name}
use yk_talos_management.Shared.Constants.{deletion_guard_requeue_delay, finished, requeue}
use yk_talos_management.Shared.Helpers.{filter_exclude, skip_drain, retry_on_conflict}
use yk_talos_management.Shared.Secrets.{secret_key, from_answer}
use yk_talos_management.Node.Status.{with_phase, with_meta, note_phase}
use yk_talos_management.Node.Access.{try_reset}
use yk_talos_management.Node.Etcd.{Progress, proceed, later, handle_etcd_leave}
use yk_talos_management.Node.Drain.{drain_and_delete_node}
use yk_talos_management.Node.Deletion.Guard.{no_other_control_plane}

module _ (env : Env) where
  -- `isLastControlPlane`
  unfoldable pub is_last_control_plane : TalosNode → M Bool
  is_last_control_plane node = do
    r ← try (get_cluster env node.meta.namespace node.spec.cluster_ref)
    elim r [
      | err e ↦ if is_not_found e then pure false else raise (wrap "get cluster" e)
      | ok cluster ↦ (do
        nodes ← wrapped "list TalosNodes" (list_nodes env node.meta.namespace)
        pure (no_other_control_plane node nodes))
    ]

  -- The phase Deleting is saved on first entry.
  unfoldable pub enter_deleting : TalosNode → M TalosNode
  enter_deleting node =
      if node.status.phase != NodePhase.deleting
      then (do
        note_phase node node.status.phase NodePhase.deleting
        wrapped "update deleting phase"
            (update_node_status env (with_phase node NodePhase.deleting)))
      else pure node

  -- The guard on the last control plane node.
  unfoldable pub guard_quorum : TalosNode → M Progress
  guard_quorum node =
      if node.spec.role == NodeRole.control_plane
      then (do
        last ← wrapped "check last control plane" (is_last_control_plane node)
        pure (if last then later (requeue deletion_guard_requeue_delay) else proceed))
      else pure proceed

  unfoldable pub drain_step : TalosNode → M Progress
  drain_step node =
      if skip_drain node
      then (do count Metric.node_drain_total ("skipped" ∷ node.spec.cluster_ref ∷ []); pure proceed)
      else drain_and_delete_node env node

  unfoldable pub etcd_step : TalosNode → M Progress
  etcd_step node =
      if node.spec.role == NodeRole.control_plane then handle_etcd_leave env node else pure proceed

  -- `spec.resetOnDelete`: a failure never blocks the deletion.
  unfoldable pub reset_step : TalosNode → M (Unit {0})
  reset_step node = when node.spec.reset_on_delete (do
    emit_event env normal "NodeResetTriggered" "Resetting node before cleanup (spec.resetOnDelete)"
    r ← try (try_reset env node false)
    elim r [
      | err e ↦ emit_event env warning "NodeResetFailed" ("reset-on-delete failed: " <> e.message)
      | ok _ ↦ emit_event env normal "NodeResetComplete" "Node reset successfully"
    ])

  unfoldable pub delete_config_step : TalosNode → M (Unit {0})
  delete_config_step node = do
    r ← try (get_secret env node.meta.namespace (node_config_name node.meta.name))
    elim r [
      | err e ↦ if is_not_found e then pure tt else raise e
      | ok secret ↦ delete_secret env secret
    ]

  -- One attempt of `removeEndpointFromCluster`: the last endpoint is never removed.
  unfoldable pub remove_endpoint_once : TalosNode → M (Unit {0})
  remove_endpoint_once node = do
    r ← try (get_cluster env node.meta.namespace node.spec.cluster_ref)
    elim r [
      | err e ↦ if is_not_found e then pure tt else raise e
      | ok cluster ↦
          let updated = filter_exclude cluster.spec.endpoints node.spec.node_ip in
          if length updated == length cluster.spec.endpoints
          then pure tt
          else if length updated == 0
          then pure tt
          else (do
            update_cluster env
                (record cluster { spec = record (cluster.spec) { endpoints = updated } })
            pure tt)
    ]

  unfoldable pub remove_endpoint_from_cluster : TalosNode → M (Unit {0})
  remove_endpoint_from_cluster node = retry_on_conflict env.retries (remove_endpoint_once node)

  -- `refreshKubeconfig` with the first surviving endpoint.
  unfoldable pub rewrite_kubeconfig : TalosNode → String → M (Unit {0})
  rewrite_kubeconfig node endpoint = do
    r ← try (get_secret env node.meta.namespace (cluster_kubeconfig_name node.spec.cluster_ref))
    elim r [
      | err e ↦ if is_not_found e then pure tt else raise e
      | ok secret ↦ (do
        kubeconfig ← wrapped "read kubeconfig" (from_answer (secret_key secret "kubeconfig"))
        updated ←
            wrapped "rewrite kubeconfig server"
              (from_answer (env.with_server kubeconfig ("https://" <> endpoint <> ":6443")))
        update_secret env (record secret { values = insert "kubeconfig" updated secret.values }))
    ]

  unfoldable pub refresh_kubeconfig : TalosNode → M (Unit {0})
  refresh_kubeconfig node = do
    r ← try (get_cluster env node.meta.namespace node.spec.cluster_ref)
    elim r [
      | err e ↦ if is_not_found e then pure tt else raise e
      | ok cluster ↦ elim (cluster.spec.endpoints) [
        | [] ↦ pure tt
        | endpoint ∷ endpoints ↦ rewrite_kubeconfig node endpoint
      ]
    ]

  -- Both parts are best effort.
  unfoldable pub cluster_step : TalosNode → M (Unit {0})
  cluster_step node =
      when (node.spec.role == NodeRole.control_plane)
        (do try (remove_endpoint_from_cluster node); try (refresh_kubeconfig node); pure tt)

  -- The finalizer goes last: the node object may then be removed.
  unfoldable pub release : TalosNode → M Result
  release node = do
    let finalizers = remove_finalizer node.meta.finalizers finalizer_cleanup
    update_node env (with_meta node (record (node.meta) { finalizers = finalizers }))
    pure finished

  -- `handleDeletion` once nothing holds the node back.
  unfoldable pub clean_up : TalosNode → M Result
  clean_up node = do reset_step node; delete_config_step node; cluster_step node; release node

  unfoldable pub after_drain : TalosNode → M Result
  after_drain node = do
    left ← etcd_step node
    elim left [ later r ↦ pure r | proceed ↦ clean_up node ]

  unfoldable pub after_guard : TalosNode → M Result
  after_guard node = do
    drained ← drain_step node
    elim drained [ later r ↦ pure r | proceed ↦ after_drain node ]

  -- `handleDeletion` of a node that has the finalizer.
  unfoldable pub delete_steps : TalosNode → M Result
  delete_steps node = do
    entered ← enter_deleting node
    guarded ← guard_quorum entered
    elim guarded [ later r ↦ pure r | proceed ↦ after_guard entered ]

  unfoldable pub handle_deletion : TalosNode → M Result
  handle_deletion node =
      if not (contains_finalizer node.meta.finalizers finalizer_cleanup)
      then pure finished
      else delete_steps node
