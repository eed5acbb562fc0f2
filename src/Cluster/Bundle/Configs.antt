-- ===== src/Cluster/Bundle/Configs.antt =====
-- The configs that `provision` of taloscluster_controller.go stores follow the stored bundle.
use yk_talos_management.Prelude.{String, string_eq, ◌≡◌, sym}
use yk_talos_management.Effects.Objects.{Secret, OwnerReference}
use yk_talos_management.Effects.Calls.{Trace}
use yk_talos_management.Effects.Environment.{Env}
use yk_talos_management.Talos.Secrets.{create}
use yk_talos_management.Shared.Names.{
  cluster_control_plane_name, cluster_worker_name, cluster_talosconfig_name,
}
use yk_talos_management.Shared.Names.Laws.{
  secrets_name-control_plane, secrets_name-worker, secrets_name-talosconfig,
  control_plane_name-worker, control_plane_name-talosconfig, worker_name-talosconfig,
}
use yk_talos_management.Cluster.Store.Laws.{create-other, create-IsFollowing}
use yk_talos_management.Cluster.Store.{
  stored, is_refused, is_some, control_plane_config, worker_config, client_config, IsGenerated,
  IsSharing,
}

module _ (env : Env)
    (creates : (s : Secret) (t : Trace)
      → is_refused (env.create_secret s t) ≡ is_some (stored s.namespace s.name t.calls)) where
  module _ (owner : OwnerReference) (name namespace : String) where
    pub store_control_plane-IsSharing :
        (content bundle : String) (t : Trace)
        → IsGenerated (control_plane_config env) bundle content
        → IsSharing env namespace name bundle t.calls
        → IsSharing env namespace name bundle
            (create env owner
              (cluster_control_plane_name name)
              namespace
              "controlplane.yaml"
              content
              t).1.calls
    store_control_plane-IsSharing content bundle t g h =
        let other =
          create-other env creates owner (cluster_control_plane_name name) namespace
            "controlplane.yaml" content in
        rw
          (
            other _ t (λ p. secrets_name-control_plane name name (sym p)),
            other _ t (control_plane_name-worker name name),
            other _ t (control_plane_name-talosconfig name name),
          )
          (
            h.0,
            (
              h.1.0,
              rw h.0 (
                  create-IsFollowing env creates _ bundle owner _ namespace "controlplane.yaml"
                    content t (rw h.0 at h.1.1) g),
              h.1.2,
              h.1.3,
            ),
          )

    pub store_worker-IsSharing :
        (content bundle : String) (t : Trace)
        → IsGenerated (worker_config env) bundle content
        → IsSharing env namespace name bundle t.calls
        → IsSharing env namespace name bundle
            (create env owner (cluster_worker_name name) namespace "worker.yaml" content t).1.calls
    store_worker-IsSharing content bundle t g h =
        let other =
          create-other env creates owner (cluster_worker_name name) namespace "worker.yaml"
            content in
        rw
          (
            other _ t (λ p. secrets_name-worker name name (sym p)),
            other _ t (λ p. control_plane_name-worker name name (sym p)),
            other _ t (worker_name-talosconfig name name),
          )
          (
            h.0,
            (
              h.1.0,
              h.1.1,
              rw h.0 (
                  create-IsFollowing env creates _ bundle owner _ namespace "worker.yaml" content t
                    (rw h.0 at h.1.2) g),
              h.1.3,
            ),
          )

    pub store_talosconfig-IsSharing :
        (content bundle : String) (t : Trace)
        → IsGenerated (client_config env) bundle content
        → IsSharing env namespace name bundle t.calls
        → IsSharing env namespace name bundle
            (create env owner
              (cluster_talosconfig_name name)
              namespace
              "talosconfig"
              content
              t).1.calls
    store_talosconfig-IsSharing content bundle t g h =
        let other =
          create-other env creates owner (cluster_talosconfig_name name) namespace "talosconfig"
            content in
        rw
          (
            other _ t (λ p. secrets_name-talosconfig name name (sym p)),
            other _ t (λ p. control_plane_name-talosconfig name name (sym p)),
            other _ t (λ p. worker_name-talosconfig name name (sym p)),
          )
          (
            h.0,
            (
              h.1.0,
              h.1.1,
              h.1.2,
              rw h.0 (
                  create-IsFollowing env creates _ bundle owner _ namespace "talosconfig" content t
                    (rw h.0 at h.1.3) g),
            ),
          )
