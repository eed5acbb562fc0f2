-- ===== src/Cluster/Bundle/Inputs.antt =====
-- What `provision` of taloscluster_controller.go stores: the bundle that it loads or generates,
-- and the configs that it generates.
use yk_talos_management.Prelude.{
  String, List, [], ◌∷◌, string_eq, Option, none, some, ◌≡◌, ◌≢◌, refl, arith,
}
use yk_talos_management.Prelude.Dict.{text_at}
use yk_talos_management.Api.{TalosCluster}
use yk_talos_management.Effects.Error.{Error, Answer, ok, err}
use yk_talos_management.Effects.Objects.{Secret}
use yk_talos_management.Effects.Calls.{Trace}
use yk_talos_management.Effects.Environment.{Env}
use yk_talos_management.Talos.Generate.{
  Bundle, ClusterConfigs, gen_secrets_bundle, load_or_gen_secrets_bundle, gen_config, input_for,
}
use yk_talos_management.Shared.Names.{cluster_secrets_name}
use yk_talos_management.Cluster.{existing_bundle_json}
use yk_talos_management.Cluster.Store.{
  stored, found, is_some, bundle_of_json, bundle_of, control_plane_config, worker_config,
  client_config, IsGenerated, IsShared, IsLoaded,
}

module _ (env : Env) where
  pub existing_bundle_json-stored :
      (cluster : TalosCluster) (namespace name : String) (t : Trace)
      → stored namespace name (existing_bundle_json env cluster t).1.calls
        ≡ stored namespace name t.calls
  unfolding existing_bundle_json
  existing_bundle_json-stored cluster namespace name t = ground arith

  gen_config-rendered :
      (cluster_name first : String) (endpoints : List String)
      (talos_version bundle version contract : String) (c : ClusterConfigs) (t : Trace)
      → env.parse_contract talos_version ≡ ok contract
      → (gen_config env cluster_name (first ∷ endpoints) talos_version bundle version t).0 ≡ ok c
      → (control_plane_config env
            (input_for env cluster_name first (first ∷ endpoints) contract bundle version)
          ≡ ok c.control_plane)
        × (worker_config env
              (input_for env cluster_name first (first ∷ endpoints) contract bundle version)
            ≡ ok c.worker)
        × (client_config env
              (input_for env cluster_name first (first ∷ endpoints) contract bundle version)
            ≡ ok c.talosconfig)
  unfolding gen_config
  gen_config-rendered cluster_name first endpoints talos_version bundle version contract c t p h =
      grind arith

  gen_config-contract :
      (cluster_name first : String) (endpoints : List String)
      (talos_version bundle version : String) (c : ClusterConfigs) (e : Error) (t : Trace)
      → env.parse_contract talos_version ≡ err e
      → (gen_config env cluster_name (first ∷ endpoints) talos_version bundle version t).0 ≢ ok c
  unfolding gen_config
  gen_config-contract cluster_name first endpoints talos_version bundle version c e t p h =
      grind arith

  pub gen_config-IsGenerated :
      (cluster_name : String) (endpoints : List String) (talos_version bundle version : String)
      (c : ClusterConfigs) (t : Trace)
      → (gen_config env cluster_name endpoints talos_version bundle version t).0 ≡ ok c
      → IsGenerated (control_plane_config env) bundle c.control_plane
        × IsGenerated (worker_config env) bundle c.worker
        × IsGenerated (client_config env) bundle c.talosconfig
  unfolding gen_config input_for
  gen_config-IsGenerated cluster_name [] talos_version bundle version c t h = ground arith
  gen_config-IsGenerated cluster_name (first ∷ endpoints) talos_version bundle version c t h =
      let of_contract : (r : Answer String)
          → env.parse_contract talos_version ≡ r
          → IsGenerated (control_plane_config env) bundle c.control_plane
            × IsGenerated (worker_config env) bundle c.worker
            × IsGenerated (client_config env) bundle c.talosconfig =
        elim [
          | ok contract ↦ λ p.
              let input =
                input_for env cluster_name first (first ∷ endpoints) contract bundle version in
              let made =
                gen_config-rendered cluster_name first endpoints talos_version bundle version
                  contract c t p h in
              ((input, refl, made.0), (input, refl, made.1), (input, refl, made.2))
          | err e ↦ λ p. absurd (
              gen_config-contract cluster_name first endpoints talos_version bundle version c e t p
                h)
        ] in
      of_contract _ refl

module _ (env : Env)
    (reads : (namespace name : String) (t : Trace)
      → found (env.get_secret namespace name t) ≡ stored namespace name t.calls)
    (marshals : (bundle json : String)
      → env.marshal_bundle bundle ≡ ok json
      → bundle_of_json env json ≡ some bundle) where
  abbrev json_in : Option Secret → String
  json_in none = ""
  json_in (some s) = text_at "secrets.yaml" s.values

  existing_bundle_json-reads :
      (cluster : TalosCluster) (t : Trace)
      → (existing_bundle_json env cluster t).0
        ≡ ok (
            json_in
              (stored cluster.meta.namespace (cluster_secrets_name cluster.meta.name) t.calls))
  unfolding existing_bundle_json
  existing_bundle_json-reads cluster t =
      ground (arith, reads cluster.meta.namespace (cluster_secrets_name cluster.meta.name) t)

  gen_secrets_bundle-reads :
      (talos_version : String) (b : Bundle) (t : Trace)
      → (gen_secrets_bundle env talos_version t).0 ≡ ok b
      → bundle_of_json env b.json ≡ some b.bundle
  unfolding gen_secrets_bundle
  gen_secrets_bundle-reads talos_version b t h = ground (arith, marshals b.bundle b.json)

  load-IsLoaded :
      (talos_version : String) (o : Option Secret) (b : Bundle) (t : Trace)
      → is_some (bundle_of env o) ≡ is_some o
      → (load_or_gen_secrets_bundle env (json_in o) talos_version t).0 ≡ ok b
      → IsLoaded env b o
  unfolding load_or_gen_secrets_bundle
  load-IsLoaded talos_version none b t i h =
      ground (arith, gen_secrets_bundle-reads talos_version b t)
  load-IsLoaded talos_version (some s) b t i h = ground arith

  pub stored_bundle-IsLoaded :
      (cluster : TalosCluster) (existing : String) (b : Bundle) (t t' : Trace)
      → (existing_bundle_json env cluster t).0 ≡ ok existing
      → (load_or_gen_secrets_bundle env existing cluster.spec.talos_version t').0 ≡ ok b
      → IsShared env cluster.meta.namespace cluster.meta.name t.calls
      → IsLoaded env b
          (stored cluster.meta.namespace (cluster_secrets_name cluster.meta.name) t.calls)
  stored_bundle-IsLoaded cluster existing b t t' e l h =
      let same : existing
          ≡ json_in
              (stored cluster.meta.namespace (cluster_secrets_name cluster.meta.name) t.calls) =
        grind (arith, existing_bundle_json-reads cluster t) in
      load-IsLoaded cluster.spec.talos_version
        (stored cluster.meta.namespace (cluster_secrets_name cluster.meta.name) t.calls) b t' h.0
        (rw same at l)
