-- ===== src/Cluster/Bundle.antt =====
-- `provision` of taloscluster_controller.go: all secrets of a cluster share one bundle.
pub mod Configs
pub mod Inputs
pub mod Generate
pub mod Unchanged
pub mod Others
pub mod Reconcile
use yk_talos_management.Prelude.{
  String, List, [], ◌∷◌, Bool, true, false, ◌==◌, string_eq, Option, none, some, ◌≡◌, ◌≢◌, refl,
  sym, arith,
}
use yk_talos_management.Prelude.Dict.{text_at}
use yk_talos_management.Api.{TalosCluster}
use yk_talos_management.Effects.Error.{Error, Answer, ok, err}
use yk_talos_management.Effects.Objects.{Secret, OwnerReference, GenerateInput}
use yk_talos_management.Effects.Calls.{Entry, Trace}
use yk_talos_management.Effects.Environment.{Env}
use yk_talos_management.Talos.Secrets.{create}
use yk_talos_management.Talos.Generate.{
  Bundle, ClusterConfigs, gen_secrets_bundle, load_or_gen_secrets_bundle, gen_config, input_for,
}
use yk_talos_management.Shared.Names.{
  cluster_secrets_name, cluster_control_plane_name, cluster_worker_name, cluster_talosconfig_name,
}
use yk_talos_management.Shared.Names.Laws.{
  secrets_name-control_plane, secrets_name-worker, secrets_name-talosconfig,
  control_plane_name-worker, control_plane_name-talosconfig, worker_name-talosconfig,
}
use yk_talos_management.Cluster.{existing_bundle_json, generate}
use yk_talos_management.Cluster.Store.Laws.{
  entry, create-other, create-kept, create-new, text_at-entry, create-IsFollowing,
}
use yk_talos_management.Cluster.Store.{
  stored, found, is_refused, is_some, bundle_of_json, bundle_of, control_plane_config,
  worker_config, client_config, IsGenerated, IsFollowing, AreShared, IsShared, IsSharing, IsLoaded,
}

module _ (env : Env)
    (creates : (s : Secret) (t : Trace)
      → is_refused (env.create_secret s t) ≡ is_some (stored s.namespace s.name t.calls)) where
  -- Without a bundle there are no configs, so that any bundle may be stored.
  AreShared-none :
      (a : Option Secret) (c w k : Option Secret)
      → is_some (bundle_of env a) ≡ is_some a
      → AreShared env none c w k
      → AreShared env a c w k
  AreShared-none none c w k p h = h
  AreShared-none (some a) none none none p h = (p, tt, tt, tt)
  AreShared-none (some a) (some c) w k p h = absurd h.1
  AreShared-none (some a) none (some w) k p h = absurd h.2
  AreShared-none (some a) none none (some k) p h = absurd h.3

  module _ (owner : OwnerReference) (name namespace : String) where
    abbrev pub store_bundle : String → Trace → Answer (Unit {0}) × Trace
    store_bundle json = create env owner (cluster_secrets_name name) namespace "secrets.yaml" json

    bundle_entry-is_some :
        (b : Bundle)
        → bundle_of_json env b.json ≡ some b.bundle
        → bundle_of env
            (some (entry owner (cluster_secrets_name name) namespace "secrets.yaml" b.json))
          ≡ some b.bundle
    bundle_entry-is_some b l = rw (text_at-entry env creates) l

    store_bundle-AreShared :
        (b : Bundle) (o c w k : Option Secret) (t : Trace)
        → stored namespace (cluster_secrets_name name) t.calls ≡ o
        → IsLoaded env b o
        → AreShared env o c w k
        → AreShared env
            (stored namespace (cluster_secrets_name name) (store_bundle b.json t).1.calls)
            c
            w
            k
    store_bundle-AreShared b none c w k t p l h =
        let of_answer : (a : Answer (Unit {0}))
            → AreShared env
                (elim a [
                  | ok _ ↦
                      some (entry owner (cluster_secrets_name name) namespace "secrets.yaml" b.json)
                  | err e ↦ none
                ])
                c w k =
          elim [
            | ok _ ↦
                AreShared-none
                  (some (entry owner (cluster_secrets_name name) namespace "secrets.yaml" b.json)) c
                  w k (rw (bundle_entry-is_some b l) refl) h
            | err e ↦ h
          ] in
        rw
          (create-new env creates owner (cluster_secrets_name name) namespace "secrets.yaml" b.json
            t p)
          (of_answer (store_bundle b.json t).0)
    store_bundle-AreShared b (some s) c w k t p l h =
        rw
          (create-kept env creates owner (cluster_secrets_name name) namespace "secrets.yaml" b.json
            s t p)
          h

    pub store_bundle-IsShared :
        (b : Bundle) (t : Trace)
        → IsLoaded env b (stored namespace (cluster_secrets_name name) t.calls)
        → IsShared env namespace name t.calls
        → IsShared env namespace name (store_bundle b.json t).1.calls
    store_bundle-IsShared b t l h =
        rw
          (create-other env creates owner _ namespace "secrets.yaml" b.json _ t
            (secrets_name-control_plane name name))
          (rw
            (create-other env creates owner _ namespace "secrets.yaml" b.json _ t
              (secrets_name-worker name name))
            (rw
              (create-other env creates owner _ namespace "secrets.yaml" b.json _ t
                (secrets_name-talosconfig name name))
              (store_bundle-AreShared b _ _ _ _ t refl l h)))

    -- If it succeeds, the bundle in hand is the stored one.
    pub store_bundle-bundle_of :
        (b : Bundle) (t : Trace)
        → IsLoaded env b (stored namespace (cluster_secrets_name name) t.calls)
        → (store_bundle b.json t).0 ≡ ok tt
        → bundle_of env
            (stored namespace (cluster_secrets_name name) (store_bundle b.json t).1.calls)
          ≡ some b.bundle
    store_bundle-bundle_of b t l s =
        let of_stored : (o : Option Secret)
            → stored namespace (cluster_secrets_name name) t.calls ≡ o
            → IsLoaded env b o
            → bundle_of env
                (stored namespace (cluster_secrets_name name) (store_bundle b.json t).1.calls)
              ≡ some b.bundle =
          elim [
            | none ↦ λ p l.
                rw
                  (create-new env creates owner (cluster_secrets_name name) namespace "secrets.yaml"
                    b.json t p)
                  (rw s (bundle_entry-is_some b l))
            | some x ↦ λ p l.
                rw
                  (create-kept env creates owner (cluster_secrets_name name) namespace
                    "secrets.yaml" b.json x t p)
                  l
          ] in
        of_stored _ refl l
