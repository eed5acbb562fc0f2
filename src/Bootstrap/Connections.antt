-- ===== src/Bootstrap/Connections.antt =====
-- The connections that `Reconcile` of talosclusterbootstrap_controller.go opens and closes.
use yk_talos_management.Prelude.{
  ◌+◌, String, List, [], ◌∷◌, Bool, true, false, Option, none, some, ◌≡◌, refl, arith, string_eq,
}
use yk_talos_management.Api.{TalosCluster, TalosClusterBootstrap}
use yk_talos_management.Effects.Error.{Error}
use yk_talos_management.Effects.Objects.{Connection}
use yk_talos_management.Effects.Calls.{Trace}
use yk_talos_management.Effects.Environment.{Env}
use yk_talos_management.Effects.Kube.{update_bootstrap}
use yk_talos_management.Effects.Monad.{M}
use yk_talos_management.Talos.Conditions.{set_condition_status}
use yk_talos_management.Shared.Helpers.{ensure_finalizer}
use yk_talos_management.Node.Etcd.{dial_any}
use yk_talos_management.Node.Etcd.Order.{dialed}
use yk_talos_management.Node.Reconcile.Safety.{opened, closed}
use yk_talos_management.Bootstrap.Status.{with_meta, set_error}
use yk_talos_management.Bootstrap.Nodes.{wait_for_ready_nodes, save_waiting}
use yk_talos_management.Bootstrap.ApiServer.{
  wait_for_api_server, probe_api_server, save_api_server_wait, complete,
}
use yk_talos_management.Bootstrap.Etcd.{
  save_kubeconfig, retry_kubeconfig, store_kubeconfig, fetch_kubeconfig, mark_bootstrapped,
  bootstrap_over, dial_failed, dial_and_go, connect, mark_bootstrapping, bootstrap_cluster,
}
use yk_talos_management.Bootstrap.{
  delete_kubeconfig, handle_deletion, reconcile_cluster, reconcile_live, reconcile_found, reconcile,
}

-- An action that closes as many connections as it opens.
abbrev pub IsBalanced : {A : Type 0} → M A → Type 0
IsBalanced m =
    (t : Trace) → opened (m t).1.calls + closed t.calls ≡ closed (m t).1.calls + opened t.calls

module _ (env : Env) where
  set_error-IsBalanced :
      (bootstrap : TalosClusterBootstrap) (e : Error) → IsBalanced (set_error env bootstrap e)
  unfolding set_error
  set_error-IsBalanced bootstrap e t = grind arith

  complete-IsBalanced : (bootstrap : TalosClusterBootstrap) → IsBalanced (complete env bootstrap)
  unfolding complete set_condition_status
  complete-IsBalanced bootstrap t = grind arith

  save_api_server_wait-IsBalanced :
      (bootstrap : TalosClusterBootstrap) (e : Error)
      → IsBalanced (save_api_server_wait env bootstrap e)
  unfolding save_api_server_wait set_condition_status
  save_api_server_wait-IsBalanced bootstrap e t = grind arith

  wait_for_api_server-IsBalanced :
      (bootstrap : TalosClusterBootstrap) (cluster : TalosCluster)
      → IsBalanced (wait_for_api_server env bootstrap cluster)
  unfolding wait_for_api_server probe_api_server
  wait_for_api_server-IsBalanced bootstrap cluster t =
      grind (arith, set_error-IsBalanced, save_api_server_wait-IsBalanced, complete-IsBalanced)

  save_kubeconfig-IsBalanced :
      (cluster : TalosCluster) (kubeconfig : String)
      → IsBalanced (save_kubeconfig env cluster kubeconfig)
  unfolding save_kubeconfig
  save_kubeconfig-IsBalanced cluster kubeconfig t = grind arith

  retry_kubeconfig-IsBalanced :
      (bootstrap : TalosClusterBootstrap) → IsBalanced (retry_kubeconfig env bootstrap)
  unfolding retry_kubeconfig set_condition_status
  retry_kubeconfig-IsBalanced bootstrap t = grind arith

  store_kubeconfig-IsBalanced :
      (bootstrap : TalosClusterBootstrap) (cluster : TalosCluster) (kubeconfig : String)
      → IsBalanced (store_kubeconfig env bootstrap cluster kubeconfig)
  unfolding store_kubeconfig set_condition_status
  store_kubeconfig-IsBalanced bootstrap cluster kubeconfig t =
      grind
        (arith, save_kubeconfig-IsBalanced, set_error-IsBalanced, wait_for_api_server-IsBalanced)

  fetch_kubeconfig-IsBalanced :
      (bootstrap : TalosClusterBootstrap) (cluster : TalosCluster) (conn : Connection)
      (dialed_to : String)
      → IsBalanced (fetch_kubeconfig env bootstrap cluster conn dialed_to)
  unfolding fetch_kubeconfig
  fetch_kubeconfig-IsBalanced bootstrap cluster conn dialed_to t =
      grind (arith, retry_kubeconfig-IsBalanced, store_kubeconfig-IsBalanced)

  mark_bootstrapped-IsBalanced :
      (bootstrap : TalosClusterBootstrap) (cluster : TalosCluster) (conn : Connection)
      (dialed_to : String)
      → IsBalanced (mark_bootstrapped env bootstrap cluster conn dialed_to)
  unfolding mark_bootstrapped set_condition_status
  mark_bootstrapped-IsBalanced bootstrap cluster conn dialed_to t =
      grind (arith, fetch_kubeconfig-IsBalanced)

  bootstrap_over-IsBalanced :
      (bootstrap : TalosClusterBootstrap) (cluster : TalosCluster) (conn : Connection)
      (dialed_to : String)
      → IsBalanced (bootstrap_over env bootstrap cluster conn dialed_to)
  unfolding bootstrap_over
  bootstrap_over-IsBalanced bootstrap cluster conn dialed_to t =
      grind (arith, mark_bootstrapped-IsBalanced, set_error-IsBalanced)

  dial_failed-IsBalanced :
      (bootstrap : TalosClusterBootstrap) (e : Error) → IsBalanced (dial_failed env bootstrap e)
  unfolding dial_failed
  dial_failed-IsBalanced bootstrap e t = grind (arith, set_error-IsBalanced)

  -- What `dialAny` opens is the connection that it answers.
  dial_any-opened :
      (talosconfig : String) (endpoints : List String) (last : Option Error) (t : Trace)
      → (opened (dial_any env talosconfig endpoints last t).1.calls
          ≡ dialed (opened t.calls) (dial_any env talosconfig endpoints last t).0)
        × (closed (dial_any env talosconfig endpoints last t).1.calls ≡ closed t.calls)
  unfolding dial_any
  dial_any-opened talosconfig [] none t = (refl, refl)
  dial_any-opened talosconfig [] (some e) t = (refl, refl)
  dial_any-opened talosconfig (ep ∷ endpoints) last t =
      grind (arith, dial_any-opened talosconfig endpoints)

  dial_and_go-IsBalanced :
      (bootstrap : TalosClusterBootstrap) (cluster : TalosCluster) (first : String) (already : Bool)
      (talosconfig : String)
      → IsBalanced (dial_and_go env bootstrap cluster first already talosconfig)
  unfolding dial_and_go
  dial_and_go-IsBalanced bootstrap cluster first true talosconfig t = grind (
    arith,
    dial_any-opened talosconfig cluster.spec.endpoints none t,
    dial_failed-IsBalanced,
    fetch_kubeconfig-IsBalanced,
  )
  dial_and_go-IsBalanced bootstrap cluster first false talosconfig t =
      grind (arith, dial_failed-IsBalanced, bootstrap_over-IsBalanced)

  connect-IsBalanced :
      (bootstrap : TalosClusterBootstrap) (cluster : TalosCluster) (first : String) (already : Bool)
      → IsBalanced (connect env bootstrap cluster first already)
  unfolding connect
  connect-IsBalanced bootstrap cluster first already t =
      grind (arith, set_error-IsBalanced, dial_and_go-IsBalanced)

  mark_bootstrapping-IsBalanced :
      (bootstrap : TalosClusterBootstrap) (already : Bool)
      → IsBalanced (mark_bootstrapping env bootstrap already)
  unfolding mark_bootstrapping set_condition_status
  mark_bootstrapping-IsBalanced bootstrap already t = grind arith

  bootstrap_cluster-IsBalanced :
      (bootstrap : TalosClusterBootstrap) (cluster : TalosCluster) (first : String)
      → IsBalanced (bootstrap_cluster env bootstrap cluster first)
  unfolding bootstrap_cluster
  bootstrap_cluster-IsBalanced bootstrap cluster first t =
      grind (arith, mark_bootstrapping-IsBalanced, connect-IsBalanced)

  wait_for_ready_nodes-IsBalanced :
      (bootstrap : TalosClusterBootstrap) → IsBalanced (wait_for_ready_nodes env bootstrap)
  unfolding wait_for_ready_nodes save_waiting
  wait_for_ready_nodes-IsBalanced bootstrap t = grind arith

  reconcile_cluster-IsBalanced :
      (bootstrap : TalosClusterBootstrap) (cluster : TalosCluster)
      → IsBalanced (reconcile_cluster env bootstrap cluster)
  unfolding reconcile_cluster
  reconcile_cluster-IsBalanced bootstrap cluster t = grind (
    arith, set_error-IsBalanced, wait_for_ready_nodes-IsBalanced, wait_for_api_server-IsBalanced,
    bootstrap_cluster-IsBalanced,
  )

  handle_deletion-IsBalanced :
      (bootstrap : TalosClusterBootstrap) → IsBalanced (handle_deletion env bootstrap)
  unfolding handle_deletion delete_kubeconfig
  handle_deletion-IsBalanced bootstrap t = grind arith

  reconcile_live-IsBalanced :
      (bootstrap : TalosClusterBootstrap) → IsBalanced (reconcile_live env bootstrap)
  unfolding reconcile_live
  reconcile_live-IsBalanced bootstrap t =
      grind (arith, set_error-IsBalanced, reconcile_cluster-IsBalanced)

  ensure_finalizer-IsBalanced :
      (bootstrap : TalosClusterBootstrap)
      → IsBalanced (ensure_finalizer (λ b. b.meta) with_meta (update_bootstrap env) bootstrap)
  unfolding ensure_finalizer
  ensure_finalizer-IsBalanced bootstrap t = grind arith

  reconcile_found-IsBalanced :
      (bootstrap : TalosClusterBootstrap) → IsBalanced (reconcile_found env bootstrap)
  unfolding reconcile_found
  reconcile_found-IsBalanced bootstrap t = grind (
    arith,
    handle_deletion-IsBalanced,
    ensure_finalizer-IsBalanced bootstrap,
    reconcile_live-IsBalanced,
  )

  -- A reconcile of a bootstrap, whatever the environment answers, closes exactly as many connections
  -- to machines as it opens.
  pub reconcile-IsBalanced : (namespace name : String) → IsBalanced (reconcile env namespace name)
  unfolding reconcile
  reconcile-IsBalanced namespace name t = grind (arith, reconcile_found-IsBalanced)
