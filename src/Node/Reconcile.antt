-- ===== src/Node/Reconcile.antt =====
-- `Reconcile`, `setError`, `checkDrift` and `refreshConfigSizeMetric` of talosnode_controller.go.
pub mod Order
pub mod Safety
use yk_talos_management.Prelude.{
  ℕ, String, ◌<>◌, List, [], ◌∷◌, Bool, true, false, ◌==◌, ◌!=◌, ◌&&◌, string_eq, nat_eq,
  if◌then◌else◌, Option, none, some, ltb,
}
use yk_talos_management.Metrics.Collectors.{Metric}
use yk_talos_management.Prelude.Dict.{text_at}
use yk_talos_management.Api.{TalosNode, NodePhase, node_phase_eq, cond_true}
use yk_talos_management.Effects.Error.{
  Error, Answer, ok, err, wrap, is_not_found, is_context_cancelled,
}
use yk_talos_management.Effects.Objects.{Connection, Result, Secret}
use yk_talos_management.Effects.Calls.{gauge, normal, warning}
use yk_talos_management.Effects.Monad.{M, pure, raise, tell, try, wrapped, ◌>>=◌, ◌>>◌}
use yk_talos_management.Effects.Environment.{Env}
use yk_talos_management.Effects.Kube.{
  get_node, update_node, update_node_status, get_secret, emit_event, count,
}
use yk_talos_management.Effects.Talos.{dial, closing, get_machine_config}
use yk_talos_management.Retry.{get_retry_delay, increment}
use yk_talos_management.Talos.Conditions.{has_condition}
use yk_talos_management.Talos.Finalizer.{
  annotation_upgrade, annotation_last_upgrade, annotation_reset, annotation_last_reset,
}
use yk_talos_management.Shared.Names.{cluster_talosconfig_name, node_config_name}
use yk_talos_management.Shared.Constants.{drift_check_interval, finished, requeue}
use yk_talos_management.Shared.Helpers.{ensure_finalizer}
use yk_talos_management.Shared.Secrets.{secret_key, from_answer, get_secret_or_skip}
use yk_talos_management.Node.Status.{
  condition_config_applied, role_text, with_status, with_meta, note_phase, drift_enabled,
}
use yk_talos_management.Node.Upgrade.{handle_upgrade, check_upgrade_complete}
use yk_talos_management.Node.Extensions.{done, go_on, reconcile_version}
use yk_talos_management.Node.Reset.{handle_standalone_reset}
use yk_talos_management.Node.Apply.{apply_node_config}
use yk_talos_management.Node.Deletion.{handle_deletion}
use yk_talos_management.Node.Deletion.Guard.{is_terminating}

-- `isNodeUpToDate`
unfoldable pub is_node_up_to_date : TalosNode → Bool
is_node_up_to_date node =
    node.status.observed_generation == node.meta.generation
    && node.status.phase == NodePhase.ready
    && has_condition node.status.conditions condition_config_applied cond_true

-- An annotation that asks for something its companion does not record as done.
abbrev pub is_requested : String → String → TalosNode → Bool
is_requested request last node =
    text_at request node.meta.annotations != ""
    && text_at request node.meta.annotations != text_at last node.meta.annotations

module _ (env : Env) where
  -- `setError`
  unfoldable pub set_error : TalosNode → Error → M Result
  set_error node e t =
      let retries = increment node.status.retry_count in
      let delay = get_retry_delay env retries t in
      let marked = with_status node (record (node.status) {
        phase = NodePhase.error;
        retry_count = retries;
        message = e.message;
      }) in
      (do
        note_phase marked node.status.phase NodePhase.error
        count Metric.config_apply_total
            (role_text node.spec.role ∷ "error" ∷ node.spec.cluster_ref ∷ [])
        emit_event env warning "ApplyFailed" e.message
        try (update_node_status env marked)
        pure (requeue delay))
        t

  -- What follows `applyConfig`: a cancelled context is no error of the node.
  unfoldable pub settle_apply : Result → TalosNode × Answer (Unit {0}) → M Result
  settle_apply success (node, ok _) = pure success
  settle_apply success (node, err e) =
      if is_context_cancelled e then pure finished else set_error node e

  -- The body of `Reconcile` from the call of `applyConfig` on.
  unfoldable pub apply_step : TalosNode → M Result
  apply_step node = do
    (node', outcome) ← apply_node_config env node
    elim outcome [
      | err e ↦ settle_apply finished (node', err e)
      | ok _ ↦ (do
        emit_event env normal "Applied" "Machine configuration applied successfully"
        pure (if drift_enabled node' then requeue drift_check_interval else finished))
    ]

  -- The end of `checkDrift`, with the saved and the running config.
  unfoldable pub compare_configs : TalosNode → String → String → M Bool
  compare_configs node saved running = do
    local ← wrapped "parse local config" (from_answer (env.parse_yaml saved))
    remote ← wrapped "parse remote config" (from_answer (env.parse_yaml running))
    pure (if env.deep_equal local remote then false else true)

  drift_count : TalosNode → String → M (Unit {0})
  drift_count node result =
      count Metric.drift_check_total (result ∷ node.spec.cluster_ref ∷ node.meta.name ∷ [])

  unfoldable pub drift_over : TalosNode → Secret → Connection → M Result
  unfolding drift_count
  drift_over node saved_secret conn = do
    running ← try (get_machine_config env conn node.spec.node_ip)
    elim running [
      | err e ↦ drift_count node "error" >> pure (requeue drift_check_interval)
      | ok remote ↦ (do
        differ ← try (
            from_answer (secret_key saved_secret "config.yaml") >>= λ saved.
            compare_configs node saved remote)
        elim differ [
          | err e ↦ drift_count node "error" >> pure (requeue drift_check_interval)
          | ok drifted ↦
              if drifted
              then (do
                drift_count node "drifted"
                emit_event env warning "DriftDetected" "Node config drift detected, re-applying"
                applied ← apply_node_config env node
                settle_apply (requeue drift_check_interval) applied)
              else (drift_count node "in_sync" >> pure (requeue drift_check_interval))
        ])
    ]

  unfoldable pub check_drift : TalosNode → M Result
  unfolding drift_count
  check_drift node = do
    found ←
        get_secret_or_skip env (cluster_talosconfig_name node.spec.cluster_ref) node.meta.namespace
    elim found [
      | none ↦ pure (requeue drift_check_interval)
      | some talosconfig_secret ↦ (do
        saved ← get_secret_or_skip env (node_config_name node.meta.name) node.meta.namespace
        elim saved [
          | none ↦ pure (requeue drift_check_interval)
          | some saved_secret ↦ elim (secret_key talosconfig_secret "talosconfig") [
            | err e ↦ drift_count node "error" >> pure (requeue drift_check_interval)
            | ok talosconfig ↦ (do
              dialed ← try (dial env talosconfig node.spec.node_ip)
              elim dialed [
                | err e ↦ drift_count node "unreachable" >> pure (requeue drift_check_interval)
                | ok conn ↦ closing conn (drift_over node saved_secret conn)
              ])
          ]
        ])
    ]

  unfoldable pub refresh_config_size_metric : TalosNode → M (Unit {0})
  refresh_config_size_metric node = do
    r ← try (get_secret env node.meta.namespace (node_config_name node.meta.name))
    elim r [
      | err e ↦ pure tt
      | ok s ↦
          let size = env.byte_length (text_at "config.yaml" s.values) in
          if ltb 0 size
          then tell (
              gauge Metric.node_config_size_bytes
                (node.meta.name
                  ∷ node.meta.namespace
                  ∷ node.spec.cluster_ref
                  ∷ role_text node.spec.role
                  ∷ node.spec.node_ip
                  ∷ [])
                size
              ∷ [])
          else pure tt
    ]

  -- `Reconcile` after the upgrade by the spec.
  unfoldable pub reconcile_config : TalosNode → M Result
  reconcile_config node =
      if is_requested annotation_reset annotation_last_reset node
      then handle_standalone_reset env node
      else if is_node_up_to_date node
      then (if drift_enabled node then check_drift node else pure finished)
      else apply_step node

  unfoldable pub reconcile_spec : TalosNode → M Result
  reconcile_spec node = do
    verdict ← reconcile_version env node
    elim verdict [ done result ↦ pure result | go_on node' ↦ reconcile_config node' ]

  -- `Reconcile` of a node that is not being deleted, with its finalizer.
  unfoldable pub reconcile_live : TalosNode → M Result
  reconcile_live node =
      if node.status.phase == NodePhase.upgrading
      then check_upgrade_complete env node
      else if is_requested annotation_upgrade annotation_last_upgrade node
      then handle_upgrade env node (text_at annotation_upgrade node.meta.annotations)
      else reconcile_spec node

  unfoldable pub reconcile_measured : TalosNode → M Result
  reconcile_measured node =
      if is_terminating node
      then handle_deletion env node
      else (ensure_finalizer (λ n. n.meta) with_meta (update_node env) node >>= reconcile_live)

  unfoldable pub reconcile_found : TalosNode → M Result
  reconcile_found node = do
    note_phase node node.status.phase node.status.phase
    refresh_config_size_metric node
    reconcile_measured node

  unfoldable pub reconcile : String → String → M Result
  reconcile namespace name = do
    r ← try (get_node env namespace name)
    elim r [
      | err e ↦ if is_not_found e then pure finished else raise e
      | ok node ↦ reconcile_found node
    ]
