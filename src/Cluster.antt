-- ===== src/Cluster.antt =====
-- internal/controller/taloscluster_controller.go. The source changes the cluster in place, also on
-- the way to an error: `provision` returns it beside the error.
pub mod Status
pub mod Laws
pub mod Generate
pub mod Store
pub mod Bundle
pub mod Settled
use yk_talos_management.Prelude.{
  ℕ, zero, suc, String, ◌<>◌, List, [], ◌∷◌, Bool, true, false, not, ltb, ◌==◌, ◌&&◌, string_eq,
  nat_eq, if◌then◌else◌, Option, none, some,
}
use yk_talos_management.Prelude.Dict.{text_at}
use yk_talos_management.Api.{
  TalosNode, TalosCluster, TalosClusterStatus, ClusterPhase, Condition, ConditionStatus, ObjectMeta,
  cluster_phase_eq, cond_true, cond_false,
}
use yk_talos_management.Effects.Error.{
  Error, Answer, ok, err, wrap, errorf, is_not_found, is_context_cancelled,
}
use yk_talos_management.Effects.Objects.{Result}
use yk_talos_management.Effects.Calls.{normal, warning, Note}
use yk_talos_management.Effects.Monad.{M, pure, raise, tell, try, wrapped, ◌>>=◌, ◌>>◌}
use yk_talos_management.Effects.Environment.{Env}
use yk_talos_management.Effects.Kube.{
  get_cluster, update_cluster, update_cluster_status, get_secret, list_nodes, emit_event, now,
}
use yk_talos_management.Metrics.{record_cluster_phase}
use yk_talos_management.Retry.{get_retry_delay, increment}
use yk_talos_management.Talos.Conditions.{has_condition, set_condition_status}
use yk_talos_management.Talos.Finalizer.{contains_finalizer, remove_finalizer, finalizer_cleanup}
use yk_talos_management.Talos.Secrets.{cluster_owner, create, delete_multiple}
use yk_talos_management.Talos.Generate.{ClusterConfigs, load_or_gen_secrets_bundle, gen_config}
use yk_talos_management.Shared.Names.{
  cluster_secrets_name, cluster_control_plane_name, cluster_worker_name, cluster_talosconfig_name,
}
use yk_talos_management.Shared.Constants.{deletion_guard_requeue_delay, finished, requeue}
use yk_talos_management.Shared.Helpers.{ensure_finalizer}
use yk_talos_management.Node.Deletion.Guard.{is_terminating}
use yk_talos_management.Cluster.Status.{
  condition_secrets_generated, condition_configs_generated, phase_text, with_status, with_meta,
  phase_notes, note_phase, is_up_to_date, count_active,
}

module _ (env : Env) where
  unfoldable pub active_node_count : TalosCluster → M ℕ
  active_node_count cluster = do
    nodes ← list_nodes env cluster.meta.namespace
    pure (count_active cluster.meta.name nodes)

  unfoldable pub block_deletion : TalosCluster → M Result
  block_deletion cluster = do
    note_phase cluster cluster.status.phase ClusterPhase.deleting
    try (
        update_cluster_status env
          (with_status cluster (record (cluster.status) { phase = ClusterPhase.deleting })))
    pure (requeue deletion_guard_requeue_delay)

  unfoldable pub tear_down : TalosCluster → M Result
  tear_down cluster = do
    let name = cluster.meta.name
    delete_multiple env cluster.meta.namespace (
        cluster_secrets_name name
        ∷ cluster_control_plane_name name
        ∷ cluster_worker_name name
        ∷ cluster_talosconfig_name name
        ∷ [])
    let finalizers = remove_finalizer cluster.meta.finalizers finalizer_cleanup
    update_cluster env (with_meta cluster (record (cluster.meta) { finalizers = finalizers }))
    pure finished

  unfoldable pub handle_deletion : TalosCluster → M Result
  handle_deletion cluster =
      if not (contains_finalizer cluster.meta.finalizers finalizer_cleanup)
      then pure finished
      else (do
        count ← wrapped "count active nodes" (active_node_count cluster)
        (if ltb 0 count then block_deletion cluster else tear_down cluster))

  abbrev set_condition : TalosCluster → String → ConditionStatus → String → String → M TalosCluster
  set_condition cluster type status reason message = do
    conditions ← set_condition_status env cluster.status.conditions type status reason message
    pure (with_status cluster (record (cluster.status) { conditions = conditions }))

  -- The JSON of the bundle that an earlier reconcile stored; empty where the secret cannot be read.
  unfoldable pub existing_bundle_json : TalosCluster → M String
  existing_bundle_json cluster = do
    r ← try (get_secret env cluster.meta.namespace (cluster_secrets_name cluster.meta.name))
    elim r [ err e ↦ pure "" | ok s ↦ pure (text_at "secrets.yaml" s.values) ]

  -- The secrets with the three configs.
  unfoldable pub store_configs : TalosCluster → ClusterConfigs → M (Unit {0})
  store_configs cluster configs = do
    let name = cluster.meta.name
    let namespace = cluster.meta.namespace
    let owner = cluster_owner name cluster.meta.uid
    wrapped "store controlplane" (
        create env owner (cluster_control_plane_name name) namespace "controlplane.yaml"
          configs.control_plane)
    wrapped "store worker"
        (create env owner (cluster_worker_name name) namespace "worker.yaml" configs.worker)
    wrapped "store talosconfig" (
        create env owner (cluster_talosconfig_name name) namespace "talosconfig"
          configs.talosconfig)

  -- The secrets of the cluster, from the bundle on.
  unfoldable pub generate : TalosCluster → M (Unit {0})
  generate cluster = do
    let name = cluster.meta.name
    let owner = cluster_owner name cluster.meta.uid
    existing ← existing_bundle_json cluster
    b ← load_or_gen_secrets_bundle env existing cluster.spec.talos_version
    wrapped "store secrets"
        (create env owner (cluster_secrets_name name) cluster.meta.namespace "secrets.yaml" b.json)
    configs ←
        gen_config env cluster.spec.cluster_name cluster.spec.endpoints cluster.spec.talos_version
          b.bundle cluster.spec.kubernetes_version
    store_configs cluster configs

  -- The status Ready, and the conditions True.
  unfoldable pub mark_ready : TalosCluster → M (TalosCluster × Answer (Unit {0}))
  mark_ready cluster = do
    note_phase cluster ClusterPhase.provisioning ClusterPhase.ready
    time ← now env
    let status = record (cluster.status) {
      phase = ClusterPhase.ready;
      retry_count = 0;
      last_update_time = some time;
    }
    secrets ←
        set_condition (with_status cluster status) condition_secrets_generated cond_true "Generated"
          "Cluster secrets generated successfully"
    configs ←
        set_condition secrets condition_configs_generated cond_true "Generated"
          "Cluster configs generated successfully"
    r ← try (update_cluster_status env configs)
    elim r [ err e ↦ pure (configs, err e) | ok saved ↦ pure (saved, ok tt) ]

  -- The status Provisioning, and the conditions False, in memory.
  unfoldable pub mark_provisioning : TalosCluster → M TalosCluster
  mark_provisioning cluster = do
    note_phase cluster cluster.status.phase ClusterPhase.provisioning
    let status = record (cluster.status) {
      observed_generation = cluster.meta.generation;
      phase = ClusterPhase.provisioning;
    }
    secrets ←
        set_condition (with_status cluster status) condition_secrets_generated cond_false
          "Generating" "Generating cluster secrets"
    set_condition secrets condition_configs_generated cond_false "Generating"
        "Generating cluster configs"

  -- `provision` from the saved status on.
  unfoldable pub provision_saved : TalosCluster → M (TalosCluster × Answer (Unit {0}))
  provision_saved cluster = elim (cluster.spec.endpoints) [
    | [] ↦ pure (cluster, err (errorf "no endpoints configured"))
    | endpoint ∷ endpoints ↦ (do
      r ← try (generate cluster)
      elim r [ err e ↦ pure (cluster, err e) | ok _ ↦ mark_ready cluster ])
  ]

  unfoldable pub provision : TalosCluster → M (TalosCluster × Answer (Unit {0}))
  provision cluster = do
    marked ← mark_provisioning cluster
    r ← try (update_cluster_status env marked)
    elim r [
      | err e ↦ pure (marked, err (wrap "update status" e))
      | ok saved ↦ provision_saved saved
    ]

  unfoldable pub set_error : TalosCluster → Error → M Result
  set_error cluster e t =
      let retries = increment cluster.status.retry_count in
      let delay = get_retry_delay env retries t in
      let status = record (cluster.status) { phase = ClusterPhase.error; retry_count = retries } in
      (do
        note_phase cluster cluster.status.phase ClusterPhase.error
        emit_event env warning "ProvisionFailed" e.message
        try (update_cluster_status env (with_status cluster status))
        pure (requeue delay))
        t

  unfoldable pub provision_step : TalosCluster → M Result
  provision_step cluster = do
    (cluster', outcome) ← provision cluster
    elim outcome [
      | err e ↦
          if is_context_cancelled e then pure finished else set_error cluster' (wrap "provision" e)
      | ok _ ↦ (do
        emit_event env normal "Provisioned" "Cluster configs and secrets generated successfully"
        pure finished)
    ]

  unfoldable pub reconcile_live : TalosCluster → M Result
  reconcile_live cluster = do
    live ← ensure_finalizer (λ c. c.meta) with_meta (update_cluster env) cluster
    (if is_up_to_date live then pure finished else provision_step live)

  unfoldable pub reconcile : String → String → M Result
  reconcile namespace name = do
    r ← try (get_cluster env namespace name)
    elim r [
      | err e ↦ if is_not_found e then pure finished else raise e
      | ok cluster ↦ (do
        note_phase cluster cluster.status.phase cluster.status.phase
        elim (cluster.meta.deletion_timestamp) [
          | some time ↦ handle_deletion cluster
          | none ↦ reconcile_live cluster
        ])
    ]
