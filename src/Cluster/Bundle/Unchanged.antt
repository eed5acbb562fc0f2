-- ===== src/Cluster/Bundle/Unchanged.antt =====
-- The parts of taloscluster_controller.go that store no secret.
use yk_talos_management.Prelude.{String, List, string_eq, ◌≡◌, arith}
use yk_talos_management.Api.{TalosCluster}
use yk_talos_management.Effects.Error.{Error}
use yk_talos_management.Effects.Calls.{Entry, Trace}
use yk_talos_management.Effects.Environment.{Env}
use yk_talos_management.Effects.Kube.{update_cluster}
use yk_talos_management.Shared.Names.{
  cluster_secrets_name, cluster_control_plane_name, cluster_worker_name, cluster_talosconfig_name,
}
use yk_talos_management.Talos.Conditions.{set_condition_status}
use yk_talos_management.Shared.Helpers.{ensure_finalizer}
use yk_talos_management.Cluster.Status.{with_meta}
use yk_talos_management.Cluster.{mark_ready, mark_provisioning, set_error}
use yk_talos_management.Cluster.Store.{stored, IsShared}

module _ (env : Env) where
  pub IsShared-stored :
      (namespace name : String) (calls calls' : List Entry)
      → ((n : String) → stored namespace n calls' ≡ stored namespace n calls)
      → IsShared env namespace name calls
      → IsShared env namespace name calls'
  IsShared-stored namespace name calls calls' same h =
      rw
        (
          same (cluster_secrets_name name),
          same (cluster_control_plane_name name),
          same (cluster_worker_name name),
          same (cluster_talosconfig_name name),
        )
        h

  pub mark_provisioning-stored :
      (cluster : TalosCluster) (namespace name : String) (t : Trace)
      → stored namespace name (mark_provisioning env cluster t).1.calls
        ≡ stored namespace name t.calls
  unfolding mark_provisioning set_condition_status
  mark_provisioning-stored cluster namespace name t = ground arith

  pub mark_ready-stored :
      (cluster : TalosCluster) (namespace name : String) (t : Trace)
      → stored namespace name (mark_ready env cluster t).1.calls ≡ stored namespace name t.calls
  unfolding mark_ready set_condition_status
  mark_ready-stored cluster namespace name t = ground arith

  pub set_error-stored :
      (cluster : TalosCluster) (e : Error) (namespace name : String) (t : Trace)
      → stored namespace name (set_error env cluster e t).1.calls ≡ stored namespace name t.calls
  unfolding set_error
  set_error-stored cluster e namespace name t = ground arith

  pub ensure_finalizer-stored :
      (cluster : TalosCluster) (namespace name : String) (t : Trace)
      → stored namespace name
          (ensure_finalizer (λ c. c.meta) with_meta (update_cluster env) cluster t).1.calls
        ≡ stored namespace name t.calls
  unfolding ensure_finalizer
  ensure_finalizer-stored cluster namespace name t = ground arith
