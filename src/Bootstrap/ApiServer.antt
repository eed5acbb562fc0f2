-- ===== src/Bootstrap/ApiServer.antt =====
-- `waitForAPIServer`: the probe of the API server and what becomes of the status.
use yk_talos_management.Prelude.{◌∷◌, [], ◌<>◌, some}
use yk_talos_management.Metrics.Collectors.{Metric}
use yk_talos_management.Api.{
  TalosCluster, TalosClusterBootstrap, BootstrapPhase, cond_true, cond_false,
}
use yk_talos_management.Effects.Error.{Error, ok, err, wrap}
use yk_talos_management.Effects.Objects.{Result, Secret}
use yk_talos_management.Effects.Calls.{normal}
use yk_talos_management.Effects.Monad.{M, pure, try, wrapped, ◌>>=◌, ◌>>◌}
use yk_talos_management.Effects.Environment.{Env}
use yk_talos_management.Effects.Kube.{
  update_bootstrap_status, get_secret, remote_client, server_version, emit_event, observe, now,
}
use yk_talos_management.Shared.Names.{cluster_kubeconfig_name}
use yk_talos_management.Shared.Constants.{api_server_check_delay, finished, requeue}
use yk_talos_management.Shared.Secrets.{secret_key, from_answer}
use yk_talos_management.Bootstrap.Status.{
  condition_api_server, with_status, note_phase, set_condition, set_error,
}

module _ (env : Env) where
  -- The probe of the API server, from the kubeconfig secret on.
  unfoldable pub probe_api_server : Secret → M (Unit {0})
  probe_api_server secret = do
    kubeconfig ← from_answer (secret_key secret "kubeconfig")
    c ← remote_client env kubeconfig
    server_version env c

  unfoldable pub save_api_server_wait : TalosClusterBootstrap → Error → M Result
  save_api_server_wait bootstrap e = do
    note_phase bootstrap bootstrap.status.phase BootstrapPhase.waiting_for_api_server
    let status = record (bootstrap.status) {
      phase = BootstrapPhase.waiting_for_api_server;
      message = "Waiting for Kubernetes API server to become reachable";
    }
    conditioned ←
        set_condition env (with_status bootstrap status) condition_api_server cond_false "NotReady"
          ("API server unreachable: " <> e.message)
    time ← now env
    try (
        update_bootstrap_status env
          (with_status conditioned (record (conditioned.status) { last_update_time = some time })))
    pure (requeue api_server_check_delay)

  unfoldable pub complete : TalosClusterBootstrap → M Result
  complete bootstrap = do
    note_phase bootstrap bootstrap.status.phase BootstrapPhase.completed
    let status = record (bootstrap.status) {
      phase = BootstrapPhase.completed;
      retry_count = 0;
      message = "Bootstrap completed";
    }
    conditioned ←
        set_condition env (with_status bootstrap status) condition_api_server cond_true "Ready"
          "Kubernetes API server is reachable"
    time ← now env
    saved ← wrapped "update completed status" (
        update_bootstrap_status env
          (with_status conditioned (record (conditioned.status) { last_update_time = some time })))
    observe Metric.bootstrap_duration (saved.spec.cluster_ref ∷ [])
    emit_event env normal "Completed"
        "Bootstrap complete; kubeconfig stored and API server reachable"
    pure finished

  unfoldable pub wait_for_api_server : TalosClusterBootstrap → TalosCluster → M Result
  wait_for_api_server bootstrap cluster = do
    r ← try (get_secret env cluster.meta.namespace (cluster_kubeconfig_name cluster.meta.name))
    elim r [
      | err e ↦ set_error env bootstrap (wrap "load kubeconfig secret" e)
      | ok secret ↦ (do
        probed ← try (probe_api_server secret)
        elim probed [ err e ↦ save_api_server_wait bootstrap e | ok _ ↦ complete bootstrap ])
    ]
