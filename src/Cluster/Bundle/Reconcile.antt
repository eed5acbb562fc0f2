-- ===== src/Cluster/Bundle/Reconcile.antt =====
-- The secrets of a cluster under any number of reconciles by taloscluster_controller.go.
use yk_talos_management.Prelude.{
  String-discrete, inl, inr, String, List, [], ◌∷◌, string_eq, none, some, ◌≡◌, refl, arith,
}
use yk_talos_management.Api.{TalosCluster}
use yk_talos_management.Effects.Error.{Error, Answer, ok, err}
use yk_talos_management.Effects.Objects.{Secret}
use yk_talos_management.Effects.Calls.{Call, Entry, did, failed, Trace}
use yk_talos_management.Effects.Environment.{Env}
use yk_talos_management.Effects.Monad.{settle}
use yk_talos_management.Effects.Kube.{update_cluster}
use yk_talos_management.Shared.Helpers.{ensure_finalizer}
use yk_talos_management.Cluster.Status.{with_meta}
use yk_talos_management.Cluster.{
  generate, mark_ready, mark_provisioning, provision_saved, provision, set_error, provision_step,
  reconcile_live, reconcile,
}
use yk_talos_management.Cluster.Store.{stored, found, is_refused, is_some, bundle_of_json, IsShared}
use yk_talos_management.Cluster.Bundle.Generate.{generate-IsShared}
use yk_talos_management.Cluster.Bundle.Unchanged.{
  IsShared-stored, mark_provisioning-stored, mark_ready-stored, set_error-stored,
  ensure_finalizer-stored,
}
use yk_talos_management.Cluster.Bundle.Others.{generate-apart-IsShared}

-- A predicate that only looks at the secrets of a namespace and is kept by `generate`.
module _ (env : Env) (namespace : String) (P : List Entry → Type 0)
    (kept : (calls calls' : List Entry)
      → ((n : String) → stored namespace n calls' ≡ stored namespace n calls)
      → P calls
      → P calls')
    (generates : (c : TalosCluster) (t : Trace) → P t.calls → P (generate env c t).1.calls) where
  mark_ready-kept : (c : TalosCluster) (t : Trace) → P t.calls → P (mark_ready env c t).1.calls
  mark_ready-kept c t =
      kept t.calls (mark_ready env c t).1.calls (λ n. mark_ready-stored env c namespace n t)

  mark_provisioning-kept :
      (c : TalosCluster) (t : Trace) → P t.calls → P (mark_provisioning env c t).1.calls
  mark_provisioning-kept c t =
      kept t.calls (mark_provisioning env c t).1.calls
        (λ n. mark_provisioning-stored env c namespace n t)

  set_error-kept :
      (c : TalosCluster) (e : Error) (t : Trace) → P t.calls → P (set_error env c e t).1.calls
  set_error-kept c e t =
      kept t.calls (set_error env c e t).1.calls (λ n. set_error-stored env c e namespace n t)

  status-kept :
      (c : TalosCluster) (r : Answer TalosCluster) (t : Trace)
      → P t.calls
      → P (settle (Call.update_cluster_status c) r t).1.calls
  status-kept c (ok a) t = kept t.calls (did (Call.update_cluster_status c) ∷ t.calls) (λ n. refl)
  status-kept c (err e) t =
      kept t.calls (failed (Call.update_cluster_status c) ∷ t.calls) (λ n. refl)

  get-kept :
      (there name : String) (r : Answer TalosCluster) (t : Trace)
      → P t.calls
      → P (settle (Call.get_cluster there name) r t).1.calls
  get-kept there name (ok a) t =
      kept t.calls (did (Call.get_cluster there name) ∷ t.calls) (λ n. refl)
  get-kept there name (err e) t =
      kept t.calls (failed (Call.get_cluster there name) ∷ t.calls) (λ n. refl)

  provision_saved-kept :
      (c : TalosCluster) (t : Trace) → P t.calls → P (provision_saved env c t).1.calls
  unfolding provision_saved
  provision_saved-kept c t h = grind (arith, generates, mark_ready-kept)

  provision-kept : (c : TalosCluster) (t : Trace) → P t.calls → P (provision env c t).1.calls
  unfolding provision
  provision-kept c t h = grind (arith, mark_provisioning-kept, status-kept, provision_saved-kept)

  provision_step-kept :
      (c : TalosCluster) (t : Trace) → P t.calls → P (provision_step env c t).1.calls
  unfolding provision_step
  provision_step-kept c t h = grind (arith, provision-kept, set_error-kept)

  ensure_finalizer-kept :
      (c : TalosCluster) (t : Trace)
      → P t.calls
      → P (ensure_finalizer (λ c. c.meta) with_meta (update_cluster env) c t).1.calls
  ensure_finalizer-kept c t =
      kept t.calls (ensure_finalizer (λ c. c.meta) with_meta (update_cluster env) c t).1.calls
        (λ n. ensure_finalizer-stored env c namespace n t)

  reconcile_live-kept :
      (c : TalosCluster) (t : Trace) → P t.calls → P (reconcile_live env c t).1.calls
  unfolding reconcile_live
  reconcile_live-kept c t h = grind (arith, ensure_finalizer-kept, provision_step-kept)

  reconcile-kept :
      ((there name : String) (c : TalosCluster) (t : Trace)
        → env.get_cluster there name t ≡ ok c
        → c.meta.deletion_timestamp ≡ none)
      → (there name : String) (t : Trace) → P t.calls
      → P (reconcile env there name t).1.calls
  unfolding reconcile
  reconcile-kept live there name t h = grind (arith, live, get-kept, reconcile_live-kept)

-- Reconciles of clusters by namespace and name, one after the other.
abbrev pub reconciles : Env → List (String × String) → Trace → Trace
reconciles env [] t = t
reconciles env ((namespace, name) ∷ requests) t =
    reconciles env requests (reconcile env namespace name t).1

module _ (env : Env)
    (reads : (namespace name : String) (t : Trace)
      → found (env.get_secret namespace name t) ≡ stored namespace name t.calls)
    (creates : (s : Secret) (t : Trace)
      → is_refused (env.create_secret s t) ≡ is_some (stored s.namespace s.name t.calls))
    (marshals : (bundle json : String)
      → env.marshal_bundle bundle ≡ ok json
      → bundle_of_json env json ≡ some bundle)
    (live : (namespace name : String) (c : TalosCluster) (t : Trace)
      → env.get_cluster namespace name t ≡ ok c
      → c.meta.deletion_timestamp ≡ none)
    (namespace name : String) where
  generates_own :
      (c : TalosCluster) (t : Trace)
      → c.meta.namespace ≡ namespace
      → c.meta.name ≡ name
      → IsShared env namespace name t.calls
      → IsShared env namespace name (generate env c t).1.calls
  generates_own c t p q h =
      rw (← p, ← q) (generate-IsShared env reads creates marshals c t (rw (p, q) h))

  generates_any :
      (c : TalosCluster) (t : Trace)
      → IsShared env namespace name t.calls
      → IsShared env namespace name (generate env c t).1.calls
  generates_any c t h = elim (String-discrete c.meta.namespace namespace) [
    | no p ↦ generate-apart-IsShared env c namespace name t (inl p) h
    | yes p ↦ elim (String-discrete c.meta.name name) [
      | no q ↦ generate-apart-IsShared env c namespace name t (inr q) h
      | yes q ↦ generates_own c t p q h
    ]
  ]

  -- Any reconciles of clusters that are not being deleted, in any order, keep the stored secrets
  -- of every cluster sharing one bundle: it can be read back, and each of the stored configs is
  -- generated from it. The reconciles may end in errors anywhere. The API server is taken to read
  -- what is stored, and to refuse a creation as `AlreadyExists` exactly where the secret is there;
  -- the JSON of a bundle is taken to read back.
  pub reconciles-IsShared :
      (requests : List (String × String)) (t : Trace)
      → IsShared env namespace name t.calls
      → IsShared env namespace name (reconciles env requests t).calls
  reconciles-IsShared [] t h = h
  reconciles-IsShared ((there, other) ∷ requests) t h =
      reconciles-IsShared requests (reconcile env there other t).1 (
        reconcile-kept env namespace (IsShared env namespace name)
          (IsShared-stored env namespace name) generates_any live there other t h)
