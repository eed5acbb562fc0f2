-- ===== src/Bootstrap/Once.antt =====
-- About the bootstrap RPCs of `Reconcile` of talosclusterbootstrap_controller.go.
use yk_talos_management.Prelude.{String, List, ◌∷◌, ◌≡◌, arith}
use yk_talos_management.Api.{TalosCluster, TalosClusterBootstrap}
use yk_talos_management.Effects.Calls.{Trace}
use yk_talos_management.Effects.Environment.{Env}
use yk_talos_management.Bootstrap.Nodes.{save_waiting, wait_for_ready_nodes}
use yk_talos_management.Bootstrap.Order.{
  bootstrapped, AtMostOnce, set_error-bootstrapped, wait_for_api_server-bootstrapped,
  bootstrap_cluster-AtMostOnce,
}
use yk_talos_management.Bootstrap.{reconcile_cluster}

module _ (env : Env) where
  wait_for_ready_nodes-bootstrapped :
      (bootstrap : TalosClusterBootstrap) (t : Trace)
      → bootstrapped (wait_for_ready_nodes env bootstrap t).1.calls ≡ bootstrapped t.calls
  unfolding wait_for_ready_nodes save_waiting
  wait_for_ready_nodes-bootstrapped bootstrap t = ground arith

  module _ (cluster : TalosCluster) (first : String) (endpoints : List String) where
    -- A reconcile with a known cluster that has endpoints sends at most one bootstrap RPC, and
    -- sends it to the first endpoint of the cluster.
    pub reconcile_cluster-AtMostOnce :
        (bootstrap : TalosClusterBootstrap) (t : Trace)
        → cluster.spec.endpoints ≡ (first ∷ endpoints)
        → AtMostOnce first t.calls (reconcile_cluster env bootstrap cluster t).1.calls
    unfolding reconcile_cluster
    reconcile_cluster-AtMostOnce bootstrap t h = grind (
      arith, wait_for_ready_nodes-bootstrapped, set_error-bootstrapped,
      wait_for_api_server-bootstrapped, bootstrap_cluster-AtMostOnce,
    )
