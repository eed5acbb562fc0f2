-- ===== src/Bootstrap/Backed/Reconcile.antt =====
-- The kubeconfig secret in a reconcile of a bootstrap, in talosclusterbootstrap_controller.go.
use yk_talos_management.Prelude.{String, List, true, string_eq, nat_eq, ◌≡◌, arith}
use yk_talos_management.Api.{condition_status_eq, TalosCluster, TalosClusterBootstrap}
use yk_talos_management.Effects.Error.{ok}
use yk_talos_management.Effects.Objects.{Secret}
use yk_talos_management.Effects.Calls.{Trace}
use yk_talos_management.Effects.Environment.{Env}
use yk_talos_management.Cluster.Store.{stored, is_refused, is_some}
use yk_talos_management.Bootstrap.Status.{with_meta}
use yk_talos_management.Bootstrap
use yk_talos_management.Bootstrap.{
  reconcile_live, handle_deletion, delete_kubeconfig, reconcile_found,
}
use yk_talos_management.Shared.Helpers.{ensure_finalizer}
use yk_talos_management.Bootstrap.Backed.{is_backed, kubeconfig_of, unbacked}
use yk_talos_management.Bootstrap.Backed.Cluster.{reconcile_live-unbacked}

module _ (env : Env)
    (creates : (s : Secret) (t : Trace)
      → is_refused (env.create_secret s t) ≡ is_some (stored s.namespace s.name t.calls))
    (cluster : TalosCluster)
    (saves : (b b' : TalosClusterBootstrap) (t : Trace)
      → env.update_bootstrap_status b t ≡ ok b'
      → b' ≡ b) where
  handle_deletion-unbacked :
      (b : TalosClusterBootstrap) (t : Trace)
      → unbacked cluster (handle_deletion env b t).1.calls ≡ unbacked cluster t.calls
  unfolding handle_deletion delete_kubeconfig
  handle_deletion-unbacked b t = grind arith

  module _
      (keeps : (b b' : TalosClusterBootstrap) (t : Trace)
        → env.update_bootstrap b t ≡ ok b'
        → b' ≡ b)
      (b : TalosClusterBootstrap)
      (finds : (t : Trace)
        → env.get_cluster b.meta.namespace b.spec.cluster_ref t ≡ ok cluster) where
    finalized-unbacked :
        (finalizers : List String) (t : Trace)
        → is_backed b.status.conditions (kubeconfig_of cluster t.calls) ≡ true
        → unbacked cluster
            (reconcile_live env
              (with_meta b (record (b.meta) { finalizers = finalizers }))
              t).1.calls
          ≡ unbacked cluster t.calls
    finalized-unbacked finalizers t h =
        reconcile_live-unbacked env creates cluster saves
          (with_meta b (record (b.meta) { finalizers = finalizers })) t finds h

    found-unbacked :
        (t : Trace)
        → is_backed b.status.conditions (kubeconfig_of cluster t.calls) ≡ true
        → unbacked cluster (reconcile_live env b t).1.calls ≡ unbacked cluster t.calls
    found-unbacked t h = reconcile_live-unbacked env creates cluster saves b t finds h

    reconcile_found-unbacked :
        (t : Trace)
        → is_backed b.status.conditions (kubeconfig_of cluster t.calls) ≡ true
        → unbacked cluster (reconcile_found env b t).1.calls ≡ unbacked cluster t.calls
    unfolding reconcile_found ensure_finalizer
    reconcile_found-unbacked t h =
        grind (arith, handle_deletion-unbacked, keeps, finalized-unbacked, found-unbacked)

    -- A reconcile of a bootstrap whose cluster can be read saves no status whose condition
    -- KubeconfigAvailable is True before the kubeconfig secret of the cluster is stored, if the
    -- bootstrap that it finds has no such condition or the secret is stored already. The API
    -- server is taken to keep what is written, and to refuse a creation as `AlreadyExists` exactly
    -- where the secret is there.
    pub reconcile-unbacked :
        (namespace name : String) (t : Trace)
        → env.get_bootstrap namespace name t ≡ ok b
        → is_backed b.status.conditions (kubeconfig_of cluster t.calls) ≡ true
        → unbacked cluster (Bootstrap.reconcile env namespace name t).1.calls
          ≡ unbacked cluster t.calls
    unfolding Bootstrap.reconcile
    reconcile-unbacked namespace name t g h = grind (arith, reconcile_found-unbacked)
