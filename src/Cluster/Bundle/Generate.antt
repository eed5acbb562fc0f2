-- ===== src/Cluster/Bundle/Generate.antt =====
-- All secrets that `provision` of taloscluster_controller.go stores share one bundle.
use yk_talos_management.Prelude.{String, string_eq, some, ◌≡◌}
use yk_talos_management.Api.{TalosCluster}
use yk_talos_management.Effects.Error.{ok}
use yk_talos_management.Effects.Objects.{Secret}
use yk_talos_management.Effects.Calls.{Trace}
use yk_talos_management.Effects.Monad.{M, wrapped, ◌>>=◌, ◌>>◌}
use yk_talos_management.Effects.Environment.{Env}
use yk_talos_management.Talos.Secrets.{create, cluster_owner}
use yk_talos_management.Talos.Generate.{
  Bundle, ClusterConfigs, load_or_gen_secrets_bundle, gen_config,
}
use yk_talos_management.Shared.Names.{
  cluster_secrets_name, cluster_control_plane_name, cluster_worker_name, cluster_talosconfig_name,
}
use yk_talos_management.Cluster.{existing_bundle_json, store_configs, generate}
use yk_talos_management.Cluster.Generate.{load_or_gen_secrets_bundle-trace, gen_config-trace}
use yk_talos_management.Cluster.Store.{
  stored, found, is_refused, is_some, bundle_of_json, control_plane_config, worker_config,
  client_config, IsGenerated, IsShared, IsSharing, IsLoaded,
}
use yk_talos_management.Cluster.Bundle.{store_bundle-IsShared, store_bundle-bundle_of}
use yk_talos_management.Cluster.Bundle.Configs.{
  store_control_plane-IsSharing, store_worker-IsSharing, store_talosconfig-IsSharing,
}
use yk_talos_management.Cluster.Bundle.Inputs.{
  existing_bundle_json-stored, gen_config-IsGenerated, stored_bundle-IsLoaded,
}
use yk_talos_management.Effects.Monad.Laws.{>>=-holds, wrapped-ok}

module _ (env : Env)
    (reads : (namespace name : String) (t : Trace)
      → found (env.get_secret namespace name t) ≡ stored namespace name t.calls)
    (creates : (s : Secret) (t : Trace)
      → is_refused (env.create_secret s t) ≡ is_some (stored s.namespace s.name t.calls))
    (marshals : (bundle json : String)
      → env.marshal_bundle bundle ≡ ok json
      → bundle_of_json env json ≡ some bundle) where
  -- The configs, from the stored bundle on.
  store_configs-IsSharing :
      (cluster : TalosCluster) (bundle : String) (configs : ClusterConfigs) (t : Trace)
      → IsGenerated (control_plane_config env) bundle configs.control_plane
      → IsGenerated (worker_config env) bundle configs.worker
      → IsGenerated (client_config env) bundle configs.talosconfig
      → IsSharing env cluster.meta.namespace cluster.meta.name bundle t.calls
      → IsSharing env cluster.meta.namespace cluster.meta.name bundle
          (store_configs env cluster configs t).1.calls
  unfolding store_configs
  store_configs-IsSharing cluster bundle configs t c w k h =
      let name = cluster.meta.name in
      let namespace = cluster.meta.namespace in
      let P = IsSharing env namespace name bundle in
      let owner = cluster_owner name cluster.meta.uid in
      let first = wrapped "store controlplane" (
        create env owner (cluster_control_plane_name name) namespace "controlplane.yaml"
          configs.control_plane) in
      let second =
        wrapped "store worker"
          (create env owner (cluster_worker_name name) namespace "worker.yaml" configs.worker) in
      let p =
        store_control_plane-IsSharing env creates owner name namespace configs.control_plane bundle
          t c h in
      let q =
        store_worker-IsSharing env creates owner name namespace configs.worker bundle (first t).1 w
          p in
      >>=-holds P first _ t p (λ _ _. >>=-holds P second _ (first t).1 q (λ _ _.
        store_talosconfig-IsSharing env creates owner name namespace configs.talosconfig bundle
          (second (first t).1).1 k q))

  -- `generate` from the loaded bundle on.
  abbrev store_all : TalosCluster → Bundle → M (Unit {0})
  store_all cluster b = do
    let name = cluster.meta.name
    let owner = cluster_owner name cluster.meta.uid
    wrapped "store secrets"
        (create env owner (cluster_secrets_name name) cluster.meta.namespace "secrets.yaml" b.json)
    configs ←
        gen_config env cluster.spec.cluster_name cluster.spec.endpoints cluster.spec.talos_version
          b.bundle cluster.spec.kubernetes_version
    store_configs env cluster configs

  store_all-IsShared :
      (cluster : TalosCluster) (b : Bundle) (t : Trace)
      → IsLoaded env b
          (stored cluster.meta.namespace (cluster_secrets_name cluster.meta.name) t.calls)
      → IsShared env cluster.meta.namespace cluster.meta.name t.calls
      → IsShared env cluster.meta.namespace cluster.meta.name (store_all cluster b t).1.calls
  store_all-IsShared cluster b t l h =
      let name = cluster.meta.name in
      let namespace = cluster.meta.namespace in
      let P = IsShared env namespace name in
      let owner = cluster_owner name cluster.meta.uid in
      let made = create env owner (cluster_secrets_name name) namespace "secrets.yaml" b.json in
      let bundle = wrapped "store secrets" made in
      let t1 = (bundle t).1 in
      let h1 = store_bundle-IsShared env creates owner name namespace b t l h in
      let spec = cluster.spec in
      let same =
        gen_config-trace env spec.cluster_name spec.endpoints spec.talos_version b.bundle
          spec.kubernetes_version t1 in
      >>=-holds P bundle _ t h1 (λ _ e.
        let shared =
          store_bundle-bundle_of env creates owner name namespace b t l
            (wrapped-ok "store secrets" made tt t e) in
        >>=-holds P
          (gen_config env spec.cluster_name spec.endpoints spec.talos_version b.bundle
            spec.kubernetes_version)
          _ t1 (rw same h1)
          (λ configs g.
            let from = gen_config-IsGenerated env _ _ _ _ _ configs t1 g in
            rw same
              (store_configs-IsSharing cluster b.bundle configs t1 from.0 from.1 from.2
                (shared, h1)).1))

  -- If the stored secrets of a cluster share one bundle, then they do after `generate`, whatever
  -- it returns: the stored bundle can be read back, and each of the stored configs is generated
  -- from it. The API server is taken to read what is stored, and to refuse a creation as
  -- `AlreadyExists` exactly where the secret is there; the JSON of a bundle is taken to read back.
  pub generate-IsShared :
      (cluster : TalosCluster) (t : Trace)
      → IsShared env cluster.meta.namespace cluster.meta.name t.calls
      → IsShared env cluster.meta.namespace cluster.meta.name (generate env cluster t).1.calls
  unfolding generate
  generate-IsShared cluster t h =
      let name = cluster.meta.name in
      let namespace = cluster.meta.namespace in
      let P = IsShared env namespace name in
      let owner = cluster_owner name cluster.meta.uid in
      let read = existing_bundle_json-stored env cluster namespace in
      let t1 = (existing_bundle_json env cluster t).1 in
      let h1 : P t1.calls =
        rw
          (
            read (cluster_secrets_name name) t,
            read (cluster_control_plane_name name) t,
            read (cluster_worker_name name) t,
            read (cluster_talosconfig_name name) t,
          )
          h in
      >>=-holds P (existing_bundle_json env cluster) _ t h1 (λ existing e.
        let same = load_or_gen_secrets_bundle-trace env existing cluster.spec.talos_version t1 in
        >>=-holds P (load_or_gen_secrets_bundle env existing cluster.spec.talos_version)
          (store_all cluster) t1 (rw same h1)
          (λ b l. rw same (
            store_all-IsShared cluster b t1
              (rw (read (cluster_secrets_name name) t)
                (stored_bundle-IsLoaded env reads marshals cluster existing b t t1 e l h))
              h1)))
