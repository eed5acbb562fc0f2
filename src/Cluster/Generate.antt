-- ===== src/Cluster/Generate.antt =====
-- About the secrets that `provision` of taloscluster_controller.go stores.
use yk_talos_management.Prelude.{String, List, [], ◌∷◌, ◌≡◌, refl, arith}
use yk_talos_management.Api.{TalosCluster}
use yk_talos_management.Effects.Error.{ok}
use yk_talos_management.Effects.Objects.{OwnerReference}
use yk_talos_management.Effects.Calls.{Call, Entry, did, failed, Trace}
use yk_talos_management.Effects.Environment.{Env}
use yk_talos_management.Talos.Secrets.{create}
use yk_talos_management.Talos.Generate.{gen_secrets_bundle, load_or_gen_secrets_bundle, gen_config}
use yk_talos_management.Shared.Names.{
  cluster_secrets_name, cluster_control_plane_name, cluster_worker_name, cluster_talosconfig_name,
}
use yk_talos_management.Cluster.{existing_bundle_json, store_configs, generate}

-- The names of the secrets whose creation was asked for, the newest first.
abbrev pub created : List Entry → List String
created [] = []
created (did (Call.create_secret s) ∷ rest) = s.name ∷ created rest
created (failed (Call.create_secret s) ∷ rest) = s.name ∷ created rest
created (_ ∷ rest) = created rest

module _ (env : Env) where
  create-created :
      (owner : OwnerReference) (name namespace key content : String) (t : Trace)
      → created (create env owner name namespace key content t).1.calls ≡ (name ∷ created t.calls)
  unfolding create
  create-created owner name namespace key content t = ground arith

  existing_bundle_json-created :
      (cluster : TalosCluster) (t : Trace)
      → created (existing_bundle_json env cluster t).1.calls ≡ created t.calls
  unfolding existing_bundle_json
  existing_bundle_json-created cluster t = ground arith

  pub load_or_gen_secrets_bundle-trace :
      (existing talos_version : String) (t : Trace)
      → (load_or_gen_secrets_bundle env existing talos_version t).1 ≡ t
  unfolding load_or_gen_secrets_bundle gen_secrets_bundle
  load_or_gen_secrets_bundle-trace existing talos_version t = ground arith

  pub gen_config-trace :
      (cluster_name : String) (endpoints : List String) (talos_version bundle version : String)
      (t : Trace)
      → (gen_config env cluster_name endpoints talos_version bundle version t).1 ≡ t
  unfolding gen_config
  gen_config-trace cluster_name [] talos_version bundle version t = refl
  gen_config-trace cluster_name (first ∷ endpoints) talos_version bundle version t = ground arith

  -- If the generation succeeds, the creation of exactly four secrets of the cluster was asked for,
  -- in this order: the bundle, the control plane config, the worker config, the talosconfig.
  pub generate-created :
      (cluster : TalosCluster) (t : Trace)
      → (generate env cluster t).0 ≡ ok tt
      → created (generate env cluster t).1.calls ≡ (
          cluster_talosconfig_name cluster.meta.name
          ∷ cluster_worker_name cluster.meta.name
          ∷ cluster_control_plane_name cluster.meta.name
          ∷ cluster_secrets_name cluster.meta.name
          ∷ created t.calls)
  unfolding generate store_configs
  generate-created cluster t h = grind (
    arith, create-created, existing_bundle_json-created, load_or_gen_secrets_bundle-trace,
    gen_config-trace,
  )
