-- ===== src/Bootstrap.antt =====
-- internal/controller/talosclusterbootstrap_controller.go: `Reconcile` and `handleDeletion`.
pub mod Status
pub mod Nodes
pub mod ApiServer
pub mod Etcd
pub mod Order
pub mod Once
pub mod Connections
pub mod Backed
pub mod Current
pub mod Settled
use yk_talos_management.Prelude.{
  ℕ, String, ◌<>◌, List, [], ◌∷◌, Bool, true, false, not, if◌then◌else◌, Option, none, some,
}
use yk_talos_management.Api.{TalosCluster, TalosClusterBootstrap, BootstrapPhase, cond_true}
use yk_talos_management.Effects.Error.{Error, Answer, ok, err, wrap, errorf, is_not_found}
use yk_talos_management.Effects.Objects.{Result}
use yk_talos_management.Effects.Monad.{M, pure, raise, try, wrapped, ◌>>=◌, ◌>>◌}
use yk_talos_management.Effects.Environment.{Env}
use yk_talos_management.Effects.Kube.{
  get_bootstrap, get_cluster, update_bootstrap, get_secret, delete_secret,
}
use yk_talos_management.Talos.Conditions.{has_condition}
use yk_talos_management.Talos.Finalizer.{contains_finalizer, remove_finalizer, finalizer_cleanup}
use yk_talos_management.Shared.Names.{cluster_kubeconfig_name}
use yk_talos_management.Shared.Constants.{finished}
use yk_talos_management.Shared.Helpers.{ensure_finalizer}
use yk_talos_management.Bootstrap.Status.{
  condition_kubeconfig, with_meta, note_phase, set_error, is_bootstrap_up_to_date,
}
use yk_talos_management.Bootstrap.Nodes.{wait_for_ready_nodes}
use yk_talos_management.Bootstrap.ApiServer.{wait_for_api_server}
use yk_talos_management.Bootstrap.Etcd.{bootstrap_cluster}

module _ (env : Env) where
  -- The kubeconfig secret of the cluster goes, as far as it can be found.
  unfoldable pub delete_kubeconfig : TalosClusterBootstrap → M (Unit {0})
  delete_kubeconfig bootstrap = do
    r ← try (get_cluster env bootstrap.meta.namespace bootstrap.spec.cluster_ref)
    elim r [
      | err e ↦ pure tt
      | ok cluster ↦ (do
        s ← try (get_secret env cluster.meta.namespace (cluster_kubeconfig_name cluster.meta.name))
        elim s [
          | err e ↦ pure tt
          | ok secret ↦ (do
            d ← try (delete_secret env secret)
            elim d [ ok _ ↦ pure tt | err e ↦ if is_not_found e then pure tt else raise e ])
        ])
    ]

  unfoldable pub handle_deletion : TalosClusterBootstrap → M Result
  handle_deletion bootstrap =
      if not (contains_finalizer bootstrap.meta.finalizers finalizer_cleanup)
      then pure finished
      else (do
        delete_kubeconfig bootstrap
        let finalizers = remove_finalizer bootstrap.meta.finalizers finalizer_cleanup
        update_bootstrap env
            (with_meta bootstrap (record (bootstrap.meta) { finalizers = finalizers }))
        pure finished)

  -- `Reconcile` once the cluster is known: it waits for a ready control plane node.
  unfoldable pub reconcile_cluster : TalosClusterBootstrap → TalosCluster → M Result
  reconcile_cluster bootstrap cluster = elim (cluster.spec.endpoints) [
    | [] ↦ set_error env bootstrap (errorf "cluster has no endpoints")
    | first ∷ endpoints ↦ (do
      (bootstrap', waited) ← wait_for_ready_nodes env bootstrap
      elim waited [
        | err e ↦ set_error env bootstrap' e
        | ok outcome ↦ elim outcome [
          | some result ↦ pure result
          | none ↦
              if has_condition bootstrap'.status.conditions condition_kubeconfig cond_true
              then wait_for_api_server env bootstrap' cluster
              else bootstrap_cluster env bootstrap' cluster first
        ]
      ])
  ]

  unfoldable pub reconcile_live : TalosClusterBootstrap → M Result
  reconcile_live bootstrap = if is_bootstrap_up_to_date bootstrap then pure finished else (do
    r ← try (get_cluster env bootstrap.meta.namespace bootstrap.spec.cluster_ref)
    elim r [
      | err e ↦ set_error env bootstrap (wrap "get cluster" e)
      | ok cluster ↦ reconcile_cluster bootstrap cluster
    ])

  unfoldable pub reconcile_found : TalosClusterBootstrap → M Result
  reconcile_found bootstrap = do
    note_phase bootstrap bootstrap.status.phase bootstrap.status.phase
    elim (bootstrap.meta.deletion_timestamp) [
      | some time ↦ handle_deletion bootstrap
      | none ↦
          ensure_finalizer (λ b. b.meta) with_meta (update_bootstrap env) bootstrap
          >>= reconcile_live
    ]

  unfoldable pub reconcile : String → String → M Result
  reconcile namespace name = do
    r ← try (get_bootstrap env namespace name)
    elim r [
      | err e ↦ if is_not_found e then pure finished else raise e
      | ok bootstrap ↦ reconcile_found bootstrap
    ]
