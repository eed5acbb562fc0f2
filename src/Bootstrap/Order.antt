-- ===== src/Bootstrap/Order.antt =====
-- The bootstrap RPCs in the history of calls, stage by stage.
use yk_talos_management.Prelude.{
  String, List, [], ◌∷◌, true, false, string_eq, ◌≡◌, refl, arith, Option, ◌⊎◌,
}
use yk_talos_management.Api.{
  condition_status_eq, TalosCluster, TalosClusterBootstrap, bootstrap_phase_eq, cond_true,
}
use yk_talos_management.Effects.Error.{Error}
use yk_talos_management.Effects.Objects.{Connection}
use yk_talos_management.Effects.Calls.{Call, Entry, did, failed, Trace}
use yk_talos_management.Effects.Environment.{Env}
use yk_talos_management.Talos.Conditions.{has_condition, set_condition_status}
use yk_talos_management.Node.Etcd.{dial_any}
use yk_talos_management.Bootstrap.Status.{condition_bootstrapped, set_error}
use yk_talos_management.Bootstrap.ApiServer.{
  probe_api_server, save_api_server_wait, complete, wait_for_api_server,
}
use yk_talos_management.Bootstrap.Etcd.{
  save_kubeconfig, retry_kubeconfig, store_kubeconfig, fetch_kubeconfig, mark_bootstrapped,
  bootstrap_over, dial_failed, dial_and_go, connect, mark_bootstrapping, bootstrap_cluster,
}

-- The endpoints that bootstrap RPCs were sent to, the newest first, with those that failed.
abbrev pub bootstrapped : List Entry → List String
bootstrapped [] = []
bootstrapped (did (Call.bootstrap conn ip) ∷ rest) = ip ∷ bootstrapped rest
bootstrapped (failed (Call.bootstrap conn ip) ∷ rest) = ip ∷ bootstrapped rest
bootstrapped (_ ∷ rest) = bootstrapped rest

-- At most one RPC more, to the endpoint.
abbrev pub AtMostOnce : String → List Entry → List Entry → Type 0
AtMostOnce endpoint before after =
    (bootstrapped after ≡ bootstrapped before)
    ⊎ (bootstrapped after ≡ (endpoint ∷ bootstrapped before))

module _ (env : Env) (first : String) where
  dial_any-bootstrapped :
      (talosconfig : String) (endpoints : List String) (last : Option Error) (t : Trace)
      → bootstrapped (dial_any env talosconfig endpoints last t).1.calls ≡ bootstrapped t.calls
  unfolding dial_any
  dial_any-bootstrapped talosconfig [] Option.none t = refl
  dial_any-bootstrapped talosconfig [] (Option.some e) t = refl
  dial_any-bootstrapped talosconfig (ep ∷ endpoints) last t =
      grind (arith, dial_any-bootstrapped talosconfig endpoints)

  module _ (bootstrap : TalosClusterBootstrap) where
    pub set_error-bootstrapped :
        (e : Error) (t : Trace)
        → bootstrapped (set_error env bootstrap e t).1.calls ≡ bootstrapped t.calls
    unfolding set_error
    set_error-bootstrapped e t = ground arith

    complete-bootstrapped :
        (t : Trace) → bootstrapped (complete env bootstrap t).1.calls ≡ bootstrapped t.calls
    unfolding complete set_condition_status
    complete-bootstrapped t = ground arith

    save_api_server_wait-bootstrapped :
        (e : Error) (t : Trace)
        → bootstrapped (save_api_server_wait env bootstrap e t).1.calls ≡ bootstrapped t.calls
    unfolding save_api_server_wait set_condition_status
    save_api_server_wait-bootstrapped e t = ground arith

    retry_kubeconfig-bootstrapped :
        (t : Trace) → bootstrapped (retry_kubeconfig env bootstrap t).1.calls ≡ bootstrapped t.calls
    unfolding retry_kubeconfig set_condition_status
    retry_kubeconfig-bootstrapped t = ground arith

  module _ (cluster : TalosCluster) where
    pub wait_for_api_server-bootstrapped :
        (bootstrap : TalosClusterBootstrap) (t : Trace)
        → bootstrapped (wait_for_api_server env bootstrap cluster t).1.calls ≡ bootstrapped t.calls
    unfolding wait_for_api_server probe_api_server
    wait_for_api_server-bootstrapped bootstrap t =
        grind
          (arith, set_error-bootstrapped, complete-bootstrapped, save_api_server_wait-bootstrapped)

    store_kubeconfig-bootstrapped :
        (bootstrap : TalosClusterBootstrap) (kubeconfig : String) (t : Trace)
        → bootstrapped (store_kubeconfig env bootstrap cluster kubeconfig t).1.calls
          ≡ bootstrapped t.calls
    unfolding store_kubeconfig save_kubeconfig set_condition_status
    store_kubeconfig-bootstrapped bootstrap kubeconfig t =
        grind (arith, set_error-bootstrapped, wait_for_api_server-bootstrapped)

    fetch_kubeconfig-bootstrapped :
        (bootstrap : TalosClusterBootstrap) (conn : Connection) (endpoint : String) (t : Trace)
        → bootstrapped (fetch_kubeconfig env bootstrap cluster conn endpoint t).1.calls
          ≡ bootstrapped t.calls
    unfolding fetch_kubeconfig
    fetch_kubeconfig-bootstrapped bootstrap conn endpoint t =
        grind (arith, store_kubeconfig-bootstrapped, retry_kubeconfig-bootstrapped)

    mark_bootstrapped-bootstrapped :
        (bootstrap : TalosClusterBootstrap) (conn : Connection) (endpoint : String) (t : Trace)
        → bootstrapped (mark_bootstrapped env bootstrap cluster conn endpoint t).1.calls
          ≡ bootstrapped t.calls
    unfolding mark_bootstrapped set_condition_status
    mark_bootstrapped-bootstrapped bootstrap conn endpoint t =
        grind (arith, fetch_kubeconfig-bootstrapped)

    bootstrap_over-bootstrapped :
        (bootstrap : TalosClusterBootstrap) (conn : Connection) (t : Trace)
        → bootstrapped (bootstrap_over env bootstrap cluster conn first t).1.calls
          ≡ (first ∷ bootstrapped t.calls)
    unfolding bootstrap_over
    bootstrap_over-bootstrapped bootstrap conn t =
        grind (arith, mark_bootstrapped-bootstrapped, set_error-bootstrapped)

    dial_any_and_go-bootstrapped :
        (bootstrap : TalosClusterBootstrap) (talosconfig : String) (t : Trace)
        → bootstrapped (dial_and_go env bootstrap cluster first true talosconfig t).1.calls
          ≡ bootstrapped t.calls
    unfolding dial_and_go dial_failed
    dial_any_and_go-bootstrapped bootstrap talosconfig t =
        grind (arith, dial_any-bootstrapped, fetch_kubeconfig-bootstrapped, set_error-bootstrapped)

    dial_first_and_go-bootstrapped :
        (bootstrap : TalosClusterBootstrap) (talosconfig : String) (t : Trace)
        → AtMostOnce first t.calls
            (dial_and_go env bootstrap cluster first false talosconfig t).1.calls
    unfolding dial_and_go dial_failed
    dial_first_and_go-bootstrapped bootstrap talosconfig t =
        grind (arith, bootstrap_over-bootstrapped, set_error-bootstrapped)

    connect_already-bootstrapped :
        (bootstrap : TalosClusterBootstrap) (t : Trace)
        → bootstrapped (connect env bootstrap cluster first true t).1.calls ≡ bootstrapped t.calls
    unfolding connect
    connect_already-bootstrapped bootstrap t =
        grind (arith, dial_any_and_go-bootstrapped, set_error-bootstrapped)

    connect-bootstrapped :
        (bootstrap : TalosClusterBootstrap) (t : Trace)
        → AtMostOnce first t.calls (connect env bootstrap cluster first false t).1.calls
    unfolding connect
    connect-bootstrapped bootstrap t =
        grind (arith, dial_first_and_go-bootstrapped, set_error-bootstrapped)

    -- A cluster whose condition Bootstrapped is True is not bootstrapped again.
    pub bootstrap_cluster-already :
        (bootstrap : TalosClusterBootstrap) (t : Trace)
        → has_condition bootstrap.status.conditions condition_bootstrapped cond_true ≡ true
        → bootstrapped (bootstrap_cluster env bootstrap cluster first t).1.calls
          ≡ bootstrapped t.calls
    unfolding bootstrap_cluster mark_bootstrapping set_condition_status
    bootstrap_cluster-already bootstrap t h = grind (arith, connect_already-bootstrapped)

    pub bootstrap_cluster-AtMostOnce :
        (bootstrap : TalosClusterBootstrap) (t : Trace)
        → AtMostOnce first t.calls (bootstrap_cluster env bootstrap cluster first t).1.calls
    unfolding bootstrap_cluster mark_bootstrapping set_condition_status
    bootstrap_cluster-AtMostOnce bootstrap t =
        grind (arith, connect_already-bootstrapped, connect-bootstrapped)
