-- ===== src/Cluster/Bundle/Others.antt =====
-- What `provision` of taloscluster_controller.go does to the secrets of other clusters: nothing.
use yk_talos_management.Prelude.{String, string_eq, ◌≡◌, ◌≢◌, ◌⊎◌, inl, inr, arith}
use yk_talos_management.Api.{TalosCluster}
use yk_talos_management.Effects.Calls.{Trace}
use yk_talos_management.Effects.Environment.{Env}
use yk_talos_management.Effects.Objects.{OwnerReference}
use yk_talos_management.Talos.Secrets.{create}
use yk_talos_management.Shared.Names.Laws.{
  Kind, of_bundle, of_control_plane, of_worker, of_talosconfig, named, same_cluster,
}
use yk_talos_management.Cluster.{store_configs, generate}
use yk_talos_management.Cluster.Generate.{load_or_gen_secrets_bundle-trace, gen_config-trace}
use yk_talos_management.Cluster.Store.{stored, IsShared}
use yk_talos_management.Cluster.Bundle.Inputs.{existing_bundle_json-stored}

module _ (env : Env) where
  create-elsewhere :
      (owner : OwnerReference) (name namespace key content there other : String) (t : Trace)
      → namespace ≢ there
      → stored there other (create env owner name namespace key content t).1.calls
        ≡ stored there other t.calls
  unfolding create
  create-elsewhere owner name namespace key content there other t h = ground arith

  create-besides :
      (owner : OwnerReference) (name namespace key content there other : String) (t : Trace)
      → name ≢ other
      → stored there other (create env owner name namespace key content t).1.calls
        ≡ stored there other t.calls
  unfolding create
  create-besides owner name namespace key content there other t h = ground arith

  -- The other cluster has another namespace or another name.
  create-apart :
      (c : TalosCluster) (kind k : Kind) (namespace name : String)
      → (c.meta.namespace ≢ namespace) ⊎ (c.meta.name ≢ name)
      → (owner : OwnerReference) (key content : String) (t : Trace)
      → stored namespace
          (named k name)
          (create env owner (named kind c.meta.name) c.meta.namespace key content t).1.calls
        ≡ stored namespace (named k name) t.calls
  create-apart c kind k namespace name (inl h) owner key content t =
      create-elsewhere owner (named kind c.meta.name) c.meta.namespace key content namespace
        (named k name) t h
  create-apart c kind k namespace name (inr h) owner key content t =
      create-besides owner (named kind c.meta.name) c.meta.namespace key content namespace
        (named k name) t (λ p. h (same_cluster kind k c.meta.name name p))

  generate-apart :
      (c : TalosCluster) (k : Kind) (namespace name : String) (t : Trace)
      → (c.meta.namespace ≢ namespace) ⊎ (c.meta.name ≢ name)
      → stored namespace (named k name) (generate env c t).1.calls
        ≡ stored namespace (named k name) t.calls
  unfolding generate store_configs
  generate-apart c k namespace name t h =
      let q = named k name in
      let bundle = create-apart c of_bundle k namespace name h in
      let control_plane = create-apart c of_control_plane k namespace name h in
      let worker = create-apart c of_worker k namespace name h in
      let talosconfig = create-apart c of_talosconfig k namespace name h in
      grind (
        arith,
        bundle,
        control_plane,
        worker,
        talosconfig,
        existing_bundle_json-stored env,
        load_or_gen_secrets_bundle-trace,
        gen_config-trace,
      )

  pub generate-apart-IsShared :
      (c : TalosCluster) (namespace name : String) (t : Trace)
      → (c.meta.namespace ≢ namespace) ⊎ (c.meta.name ≢ name)
      → IsShared env namespace name t.calls
      → IsShared env namespace name (generate env c t).1.calls
  generate-apart-IsShared c namespace name t h shared =
      let same = λ (k : Kind). generate-apart c k namespace name t h in
      rw (same of_bundle, same of_control_plane, same of_worker, same of_talosconfig) shared
