-- ===== src/Bootstrap/Current.antt =====
-- The statuses that talosclusterbootstrap_controller.go saves from the bootstrap of etcd on.
use yk_talos_management.Prelude.{
  ℕ, suc, String, List, [], ◌∷◌, Bool, true, ◌==◌, ◌&&◌, string_eq, nat_eq, ◌≡◌, ◌∙◌, refl, arith,
  Option, none, some, if◌then◌else◌,
}
use yk_talos_management.Api.{
  condition_status_eq, TalosCluster, TalosClusterBootstrap, BootstrapPhase, BootstrapPhase-discrete,
  bootstrap_phase_eq, cond_true, Condition, ConditionStatus,
}
use yk_talos_management.Effects.Error.{Error, Answer, ok, err, wrap}
use yk_talos_management.Effects.Objects.{Secret, Result}
use yk_talos_management.Effects.Calls.{Call, Entry, did, Trace}
use yk_talos_management.Effects.Monad.{M, wrapped, settle, ◌>>=◌}
use yk_talos_management.Effects.Kube.{update_bootstrap_status}
use yk_talos_management.Effects.Environment.{Env}
use yk_talos_management.Talos.Conditions.{set_condition_status}
use yk_talos_management.Talos.Conditions.Laws.{has_condition-set}
use yk_talos_management.Node.Etcd.{dial_any}
use yk_talos_management.Bootstrap.Status.{
  set_error, is_bootstrap_up_to_date, with_status, set_condition, condition_kubeconfig,
}
use yk_talos_management.Bootstrap.ApiServer.{
  probe_api_server, save_api_server_wait, complete, wait_for_api_server,
}
use yk_talos_management.Bootstrap.Etcd.{save_kubeconfig, retry_kubeconfig, store_kubeconfig}

-- A completed bootstrap is up to date.
unfoldable pub is_current : TalosClusterBootstrap → Bool
is_current b =
    if b.status.phase == BootstrapPhase.completed then is_bootstrap_up_to_date b else true

-- The number of completed bootstraps whose status was saved without being up to date.
abbrev pub stale : List Entry → ℕ
stale [] = 0
stale (did (Call.update_bootstrap_status b) ∷ rest) =
    if is_current b then stale rest else suc (stale rest)
stale (_ ∷ rest) = stale rest

-- The status is that of the present generation.
unfoldable pub is_observed : TalosClusterBootstrap → Bool
is_observed b = b.status.observed_generation == b.meta.generation

-- ... and its phase is Bootstrapping.
unfoldable pub is_started : TalosClusterBootstrap → Bool
is_started b = b.status.phase == BootstrapPhase.bootstrapping && is_observed b

abbrev with_conditions : TalosClusterBootstrap → List Condition → TalosClusterBootstrap
with_conditions b conditions = with_status b (record (b.status) { conditions = conditions })

pub is_started-is_observed :
    (b : TalosClusterBootstrap) → is_started b ≡ true → is_observed b ≡ true
unfolding is_started
is_started-is_observed b h = ground arith

pub is_started-conditions :
    (b : TalosClusterBootstrap) (conditions : List Condition)
    → is_started b ≡ true
    → is_started (with_conditions b conditions) ≡ true
unfolding is_started is_observed
is_started-conditions b conditions h = ground arith

pub is_started-is_current :
    (b : TalosClusterBootstrap) (conditions : List Condition)
    → is_started b ≡ true
    → is_current (with_conditions b conditions) ≡ true
unfolding is_started is_observed is_current BootstrapPhase-discrete
is_started-is_current b conditions h = ground arith

module _ (env : Env) where
  pub dial_any-stale :
      (talosconfig : String) (endpoints : List String) (last : Option Error) (t : Trace)
      → stale (dial_any env talosconfig endpoints last t).1.calls ≡ stale t.calls
  unfolding dial_any
  dial_any-stale talosconfig [] none t = refl
  dial_any-stale talosconfig [] (some e) t = refl
  dial_any-stale talosconfig (ep ∷ endpoints) last t =
      grind (arith, dial_any-stale talosconfig endpoints)

  pub set_error-stale :
      (b : TalosClusterBootstrap) (e : Error) (t : Trace)
      → stale (set_error env b e t).1.calls ≡ stale t.calls
  unfolding set_error is_current BootstrapPhase-discrete
  set_error-stale b e t = grind arith

  complete-stale :
      (b : TalosClusterBootstrap) (t : Trace)
      → is_observed b ≡ true
      → stale (complete env b t).1.calls ≡ stale t.calls
  unfolding complete is_current is_observed set_condition_status is_bootstrap_up_to_date
  complete-stale b t o = grind (arith, has_condition-set)

  save_api_server_wait-stale :
      (b : TalosClusterBootstrap) (e : Error) (t : Trace)
      → stale (save_api_server_wait env b e t).1.calls ≡ stale t.calls
  unfolding save_api_server_wait set_condition_status is_current BootstrapPhase-discrete
  save_api_server_wait-stale b e t = grind arith

  pub retry_kubeconfig-stale :
      (b : TalosClusterBootstrap) (t : Trace)
      → stale (retry_kubeconfig env b t).1.calls ≡ stale t.calls
  unfolding retry_kubeconfig set_condition_status is_current BootstrapPhase-discrete
  retry_kubeconfig-stale b t = grind arith

  probe_api_server-stale :
      (secret : Secret) (t : Trace) → stale (probe_api_server env secret t).1.calls ≡ stale t.calls
  unfolding probe_api_server
  probe_api_server-stale secret t = grind arith

  pub wait_for_api_server-stale :
      (b : TalosClusterBootstrap) (cluster : TalosCluster) (t : Trace)
      → is_observed b ≡ true
      → stale (wait_for_api_server env b cluster t).1.calls ≡ stale t.calls
  unfolding wait_for_api_server probe_api_server
  wait_for_api_server-stale b cluster t o =
      grind (arith, set_error-stale, save_api_server_wait-stale, complete-stale)

  save_kubeconfig-stale :
      (cluster : TalosCluster) (kubeconfig : String) (t : Trace)
      → stale (save_kubeconfig env cluster kubeconfig t).1.calls ≡ stale t.calls
  unfolding save_kubeconfig
  save_kubeconfig-stale cluster kubeconfig t = ground arith

module _ (env : Env)
    (saves : (b b' : TalosClusterBootstrap) (t : Trace)
      → env.update_bootstrap_status b t ≡ ok b'
      → b' ≡ b) where
  -- A current status is saved, and what follows starts from what was saved.
  pub save_then-stale :
      (text : String) (c : TalosClusterBootstrap) (f : TalosClusterBootstrap → M Result) (t : Trace)
      → is_started c ≡ true
      → is_current c ≡ true
      → ((b : TalosClusterBootstrap) (t' : Trace)
          → is_started b ≡ true
          → stale (f b t').1.calls ≡ stale t'.calls)
      → stale ((wrapped text (update_bootstrap_status env c) >>= f) t).1.calls ≡ stale t.calls
  save_then-stale text c f t s u next =
      let of_answer : (r : Answer TalosClusterBootstrap)
          → env.update_bootstrap_status c t ≡ r
          → stale ((wrapped text (settle (Call.update_bootstrap_status c) r) >>= f) t).1.calls
            ≡ stale t.calls =
        elim [ ok b ↦ λ p. next b _ (rw (saves c b t p) s) ∙ rw u refl | err e ↦ λ p. refl ] in
      of_answer _ refl

  -- ... with a condition set first.
  condition_then-stale :
      (b : TalosClusterBootstrap) (type : String) (status : ConditionStatus)
      (reason message text : String) (f : TalosClusterBootstrap → M Result) (t : Trace)
      → is_started b ≡ true
      → ((x : TalosClusterBootstrap) (t' : Trace)
          → is_started x ≡ true
          → stale (f x t').1.calls ≡ stale t'.calls)
      → stale
          ((set_condition env b type status reason message >>= λ c.
              wrapped text (update_bootstrap_status env c) >>= f)
            t).1.calls
        ≡ stale t.calls
  unfolding set_condition_status
  condition_then-stale b type status reason message text f t s next =
      save_then-stale text _ f _ (is_started-conditions b _ s) (is_started-is_current b _ s) next

  module _ (cluster : TalosCluster) where
    -- `store_kubeconfig` once the secret is stored, or is not.
    abbrev stored_kubeconfig : TalosClusterBootstrap → Answer (Unit {0}) → M Result
    stored_kubeconfig b r = elim r [
      | err e ↦ set_error env b (wrap "save kubeconfig" e)
      | ok _ ↦ (do
        conditioned ←
            set_condition env b condition_kubeconfig cond_true "Retrieved" "Kubeconfig retrieved"
        saved ← wrapped "update kubeconfig status" (update_bootstrap_status env conditioned)
        wait_for_api_server env saved cluster)
    ]

    pub store_kubeconfig-stale :
        (b : TalosClusterBootstrap) (kubeconfig : String) (t : Trace)
        → is_started b ≡ true
        → stale (store_kubeconfig env b cluster kubeconfig t).1.calls ≡ stale t.calls
    unfolding store_kubeconfig
    store_kubeconfig-stale b kubeconfig t o =
        let t1 = (save_kubeconfig env cluster kubeconfig t).1 in
        let of_answer : (r : Answer (Unit {0}))
            → stale (stored_kubeconfig b r t1).1.calls ≡ stale t1.calls =
          elim [
            | err e ↦ set_error-stale env b _ t1
            | ok _ ↦
                condition_then-stale b _ _ _ _ _ _ t1 o (λ x t' h.
                  wait_for_api_server-stale env x cluster t' (is_started-is_observed x h))
          ] in
        of_answer (save_kubeconfig env cluster kubeconfig t).0
        ∙ save_kubeconfig-stale env cluster kubeconfig t
