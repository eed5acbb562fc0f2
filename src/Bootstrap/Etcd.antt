-- ===== src/Bootstrap/Etcd.antt =====
-- The part of `Reconcile` that bootstraps etcd and fetches the kubeconfig, and `saveKubeconfig`.
use yk_talos_management.Prelude.{
  String, ◌<>◌, [], ◌∷◌, Bool, true, false, if◌then◌else◌, none, some,
}
use yk_talos_management.Api.{
  TalosCluster, TalosClusterBootstrap, BootstrapPhase, cond_true, cond_false,
}
use yk_talos_management.Effects.Error.{
  Error, ok, err, wrap, is_context_cancelled, is_grpc_already_exists, is_already_exists,
}
use yk_talos_management.Effects.Objects.{Connection, Result, OwnerReference}
use yk_talos_management.Effects.Calls.{normal}
use yk_talos_management.Effects.Monad.{M, pure, raise, try, wrapped, ◌>>=◌, ◌>>◌}
use yk_talos_management.Effects.Environment.{Env}
use yk_talos_management.Effects.Kube.{
  update_bootstrap_status, get_secret, create_secret, emit_event,
}
use yk_talos_management.Effects.Talos
use yk_talos_management.Effects.Talos.{dial, closing, get_kubeconfig}
use yk_talos_management.Retry.{get_retry_delay, increment}
use yk_talos_management.Talos.Conditions.{has_condition}
use yk_talos_management.Shared.Names.{cluster_talosconfig_name, cluster_kubeconfig_name}
use yk_talos_management.Shared.Constants.{finished, requeue}
use yk_talos_management.Shared.Secrets.{secret_key, new_secret}
use yk_talos_management.Node.Etcd.{dial_any}
use yk_talos_management.Bootstrap.Status.{
  condition_bootstrapped, condition_kubeconfig, with_status, note_phase, set_condition, set_error,
}
use yk_talos_management.Bootstrap.ApiServer.{wait_for_api_server}

module _ (env : Env) where
  -- `saveKubeconfig`: a secret that exists already is left as it is
  unfoldable pub save_kubeconfig : TalosCluster → String → M (Unit {0})
  save_kubeconfig cluster kubeconfig = do
    let owner : OwnerReference = record {
      kind = "TalosCluster";
      name = cluster.meta.name;
      uid = cluster.meta.uid;
      controller = true;
      block_owner_deletion = none;
    }
    let fresh =
        new_secret (cluster_kubeconfig_name cluster.meta.name) cluster.meta.namespace "kubeconfig"
          kubeconfig
    r ← try (create_secret env (record fresh { owners = owner ∷ [] }))
    elim r [ ok _ ↦ pure tt | err e ↦ if is_already_exists e then pure tt else raise e ]

  -- A failed fetch of the kubeconfig is retried with a delay.
  unfoldable pub retry_kubeconfig : TalosClusterBootstrap → M Result
  retry_kubeconfig bootstrap t =
      let retries = increment bootstrap.status.retry_count in
      let delay = get_retry_delay env retries t in
      (do
        note_phase bootstrap BootstrapPhase.bootstrapping BootstrapPhase.waiting_for_kubeconfig
        let status = record (bootstrap.status) {
          phase = BootstrapPhase.waiting_for_kubeconfig;
          retry_count = retries;
        }
        conditioned ←
            set_condition env (with_status bootstrap status) condition_kubeconfig cond_false
              "Retrying" ("Retrying (attempt " <> env.decimal retries <> ")")
        try (update_bootstrap_status env conditioned)
        pure (requeue delay))
        t

  -- From the kubeconfig on: it is stored before the condition says so.
  unfoldable pub store_kubeconfig : TalosClusterBootstrap → TalosCluster → String → M Result
  store_kubeconfig bootstrap cluster kubeconfig = do
    r ← try (save_kubeconfig cluster kubeconfig)
    elim r [
      | err e ↦ set_error env bootstrap (wrap "save kubeconfig" e)
      | ok _ ↦ (do
        conditioned ←
            set_condition env bootstrap condition_kubeconfig cond_true "Retrieved"
              "Kubeconfig retrieved"
        saved ← wrapped "update kubeconfig status" (update_bootstrap_status env conditioned)
        wait_for_api_server env saved cluster)
    ]

  unfoldable pub fetch_kubeconfig :
      TalosClusterBootstrap → TalosCluster → Connection → String → M Result
  fetch_kubeconfig bootstrap cluster conn dialed_to = do
    r ← try (get_kubeconfig env conn dialed_to)
    elim r [
      | err e ↦ if is_context_cancelled e then pure finished else retry_kubeconfig bootstrap
      | ok kubeconfig ↦ store_kubeconfig bootstrap cluster kubeconfig
    ]

  -- Etcd is bootstrapped: the condition is saved, then the kubeconfig is fetched.
  unfoldable pub mark_bootstrapped :
      TalosClusterBootstrap → TalosCluster → Connection → String → M Result
  mark_bootstrapped bootstrap cluster conn dialed_to = do
    conditioned ←
        set_condition env bootstrap condition_bootstrapped cond_true "Bootstrapped"
          "Cluster bootstrapped"
    emit_event env normal "Bootstrapped" "etcd bootstrap triggered successfully"
    saved ← wrapped "update bootstrapped status" (update_bootstrap_status env conditioned)
    fetch_kubeconfig saved cluster conn dialed_to

  -- The bootstrap RPC. That etcd was bootstrapped before counts as success.
  unfoldable pub bootstrap_over :
      TalosClusterBootstrap → TalosCluster → Connection → String → M Result
  bootstrap_over bootstrap cluster conn dialed_to = do
    r ← try (Talos.bootstrap env conn dialed_to)
    elim r [
      | ok _ ↦ mark_bootstrapped bootstrap cluster conn dialed_to
      | err e ↦
          if is_context_cancelled e
          then pure finished
          else if is_grpc_already_exists e
          then mark_bootstrapped bootstrap cluster conn dialed_to
          else set_error env bootstrap (wrap "bootstrap" e)
    ]

  -- The failed dial.
  unfoldable pub dial_failed : TalosClusterBootstrap → Error → M Result
  dial_failed bootstrap e =
      if is_context_cancelled e
      then pure finished
      else set_error env bootstrap (wrap "create client" e)

  -- Bootstrapped before: any endpoint serves. Otherwise it has to be the first one.
  unfoldable pub dial_and_go :
      TalosClusterBootstrap → TalosCluster → String → Bool → String → M Result
  dial_and_go bootstrap cluster first true talosconfig = do
    r ← try (dial_any env talosconfig cluster.spec.endpoints none)
    elim r [
      | err e ↦ dial_failed bootstrap e
      | ok found ↦ elim found [
        | none ↦ pure finished
        | some (conn, dialed_to) ↦ closing conn (fetch_kubeconfig bootstrap cluster conn dialed_to)
      ]
    ]
  dial_and_go bootstrap cluster first false talosconfig = do
    r ← try (dial env talosconfig first)
    elim r [
      | err e ↦ dial_failed bootstrap e
      | ok conn ↦ closing conn (bootstrap_over bootstrap cluster conn first)
    ]

  -- The talosconfig, then the connection.
  unfoldable pub connect : TalosClusterBootstrap → TalosCluster → String → Bool → M Result
  connect bootstrap cluster first already = do
    r ← try (get_secret env bootstrap.meta.namespace (cluster_talosconfig_name cluster.meta.name))
    elim r [
      | err e ↦ set_error env bootstrap (wrap "get talosconfig secret" e)
      | ok secret ↦ elim (secret_key secret "talosconfig") [
        | err e ↦ set_error env bootstrap (wrap "read talosconfig" e)
        | ok talosconfig ↦ dial_and_go bootstrap cluster first already talosconfig
      ]
    ]

  -- The status Bootstrapping, in memory.
  unfoldable pub mark_bootstrapping : TalosClusterBootstrap → Bool → M TalosClusterBootstrap
  mark_bootstrapping bootstrap already = do
    note_phase bootstrap bootstrap.status.phase BootstrapPhase.bootstrapping
    let status = record (bootstrap.status) {
      observed_generation = bootstrap.meta.generation;
      phase = BootstrapPhase.bootstrapping;
    }
    let started = with_status bootstrap status
    marked ←
        (if already
          then pure started
          else set_condition env started condition_bootstrapped cond_false "Bootstrapping"
              "Bootstrapping cluster")
    set_condition env marked condition_kubeconfig cond_false "Retrieving" "Retrieving kubeconfig"

  -- `Reconcile` from the check of the condition Bootstrapped on.
  unfoldable pub bootstrap_cluster : TalosClusterBootstrap → TalosCluster → String → M Result
  bootstrap_cluster bootstrap cluster first = do
    let already = has_condition bootstrap.status.conditions condition_bootstrapped cond_true
    marked ← mark_bootstrapping bootstrap already
    saved ← wrapped "update status" (update_bootstrap_status env marked)
    connect saved cluster first already
