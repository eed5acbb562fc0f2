-- ===== src/Tests/Bundles.antt =====
-- Instances about stored secrets, against an API server that keeps what is stored.
use yk_talos_management.Prelude.{
  String, [], ◌∷◌, ◌==◌, string_eq, none, some, ◌≡◌, refl, arith, if◌then◌else◌,
}
use yk_talos_management.Api.{TalosCluster, TalosClusterBootstrap}
use yk_talos_management.Effects.Error.{Error, ok, err, not_found, api, Reason}
use yk_talos_management.Effects.Objects.{Secret}
use yk_talos_management.Effects.Calls.{Trace, empty}
use yk_talos_management.Effects.Environment.{Env}
use yk_talos_management.Cluster.Store.{stored, found, is_refused, is_some, bundle_of_json, IsShared}
use yk_talos_management.Cluster.Bundle.Reconcile.{reconciles, reconciles-IsShared}
use yk_talos_management.Talos.Conditions.{has_condition}
use yk_talos_management.Bootstrap
use yk_talos_management.Bootstrap.Backed.{is_backed, unbacked}
use yk_talos_management.Bootstrap.Backed.Reconcile.{reconcile-unbacked}
use yk_talos_management.Tests.World.{
  world, upgrading_node, cluster, cluster_bootstrap, secret, failure,
}

abbrev missing : Error
missing = record { cause = api not_found; message = "not found" }

abbrev present : Error
present = record { cause = api Reason.already_exists; message = "already exists" }

-- The world with an API server that reads what was stored.
abbrev keeping : Env
keeping = record (world upgrading_node (upgrading_node ∷ []) []) {
  get_secret = λ namespace name t. elim (stored namespace name t.calls) [
    | some s ↦ ok s
    | none ↦ err missing
  ];
  create_secret = λ s t. if is_some (stored s.namespace s.name t.calls) then err present else ok tt;
  marshal_bundle = λ bundle. if bundle == "" then err failure else ok bundle;
}

keeping-reads :
    (namespace name : String) (t : Trace)
    → found (keeping.get_secret namespace name t) ≡ stored namespace name t.calls
keeping-reads namespace name t = ground arith

keeping-creates :
    (s : Secret) (t : Trace)
    → is_refused (keeping.create_secret s t) ≡ is_some (stored s.namespace s.name t.calls)
keeping-creates s t = ground arith

keeping-marshals :
    (bundle json : String)
    → keeping.marshal_bundle bundle ≡ ok json
    → bundle_of_json keeping json ≡ some bundle
keeping-marshals bundle json h = ground arith

keeping_live :
    (namespace name : String) (c : TalosCluster) (t : Trace)
    → keeping.get_cluster namespace name t ≡ ok c
    → c.meta.deletion_timestamp ≡ none
keeping_live namespace name c t h = ground arith

reconciles-IsShared_example :
    IsShared keeping "talos" "prod"
      (reconciles keeping
        (("talos", "prod") ∷ ("talos", "test") ∷ ("talos", "prod") ∷ [])
        empty).calls
reconciles-IsShared_example =
    reconciles-IsShared keeping keeping-reads keeping-creates keeping-marshals keeping_live "talos"
      "prod" (("talos", "prod") ∷ ("talos", "test") ∷ ("talos", "prod") ∷ []) empty
      (refl, tt, tt, tt)

-- ... and one that has the talosconfig besides.
abbrev bootstrapping : Env
bootstrapping = record keeping { get_secret = λ _ _ _. ok secret }

bootstrapping-saves :
    (b b' : TalosClusterBootstrap) (t : Trace)
    → bootstrapping.update_bootstrap_status b t ≡ ok b'
    → b' ≡ b
bootstrapping-saves b b' t h = ground arith

bootstrapping-keeps :
    (b b' : TalosClusterBootstrap) (t : Trace) → bootstrapping.update_bootstrap b t ≡ ok b' → b' ≡ b
bootstrapping-keeps b b' t h = ground arith

reconcile-unbacked_example :
    unbacked cluster (Bootstrap.reconcile bootstrapping "talos" "boot" empty).1.calls ≡ 0
unfolding is_backed has_condition
reconcile-unbacked_example =
    reconcile-unbacked bootstrapping keeping-creates cluster bootstrapping-saves bootstrapping-keeps
      cluster_bootstrap (λ t. refl) "talos" "boot" empty refl refl
