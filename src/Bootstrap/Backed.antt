-- ===== src/Bootstrap/Backed.antt =====
-- The kubeconfigs that the statuses of talosclusterbootstrap_controller.go speak of.
pub mod Cluster
pub mod Reconcile
use yk_talos_management.Prelude.{
  String-discrete, ℕ, suc, String, List, [], ◌∷◌, Bool, true, false, ◌==◌, ◌&&◌, string_eq, nat_eq,
  ◌≡◌, ◌∙◌, refl, arith, Option, none, some, if◌then◌else◌,
}
use yk_talos_management.Api.{
  condition_status_eq, TalosCluster, TalosClusterBootstrap, cond_true, cond_false, Condition,
  ConditionStatus,
}
use yk_talos_management.Effects.Error.{Error, Answer, ok, err, wrap}
use yk_talos_management.Effects.Objects.{Secret, Result}
use yk_talos_management.Effects.Calls.{Call, Entry, did, failed, Trace}
use yk_talos_management.Effects.Monad.{M, wrapped, settle, ◌>>=◌}
use yk_talos_management.Effects.Kube.{update_bootstrap_status}
use yk_talos_management.Effects.Environment.{Env}
use yk_talos_management.Talos.Conditions.{has_condition, set_condition, set_condition_status}
use yk_talos_management.Talos.Conditions.Laws.{has_condition-before}
use yk_talos_management.Shared.Names.{cluster_kubeconfig_name}
use yk_talos_management.Cluster.Store.{stored, is_refused, is_some}
use yk_talos_management.Bootstrap.Status.{
  set_error, with_status, condition_kubeconfig, condition_api_server,
}
use yk_talos_management.Bootstrap.ApiServer.{
  probe_api_server, save_api_server_wait, complete, wait_for_api_server,
}
use yk_talos_management.Bootstrap.Etcd.{save_kubeconfig, retry_kubeconfig, store_kubeconfig}

-- Conditions that say that the kubeconfig is there are backed by its secret.
unfoldable pub is_backed : List Condition → Option Secret → Bool
is_backed conditions s =
    if has_condition conditions condition_kubeconfig cond_true then is_some s else true

-- The kubeconfig secret of a cluster.
abbrev pub kubeconfig_of : TalosCluster → List Entry → Option Secret
kubeconfig_of cluster calls =
    stored cluster.meta.namespace (cluster_kubeconfig_name cluster.meta.name) calls

-- The number of statuses that were saved without the secret that they speak of.
abbrev pub unbacked : TalosCluster → List Entry → ℕ
unbacked cluster [] = 0
unbacked cluster (did (Call.update_bootstrap_status b) ∷ rest) =
    if is_backed b.status.conditions (kubeconfig_of cluster rest)
    then unbacked cluster rest
    else suc (unbacked cluster rest)
unbacked cluster (_ ∷ rest) = unbacked cluster rest

-- Setting another condition, or that the kubeconfig is not there, needs no secret.
pub is_backed-set :
    (time : ℕ) (conditions : List Condition) (type : String) (status : ConditionStatus)
    (reason message : String) (s : Option Secret)
    → (type == condition_kubeconfig && status == cond_true) ≡ false
    → is_backed conditions s ≡ true
    → is_backed
        (set_condition time conditions (record {
          type = type;
          status = status;
          observed_generation = 0;
          last_transition_time = 0;
          reason = reason;
          message = message;
        }))
        s
      ≡ true
unfolding is_backed
is_backed-set time conditions type status reason message s o h = ground (
  arith,
  has_condition-before time conditions
      (record {
        type = type;
        status = status;
        observed_generation = 0;
        last_transition_time = 0;
        reason = reason;
        message = message;
      })
      condition_kubeconfig cond_true o,
)

api_server_is_other : (condition_api_server == condition_kubeconfig) ≡ false
unfolding String-discrete
api_server_is_other = refl

-- With the secret there, every status is backed.
pub is_backed-some :
    (conditions : List Condition) (s : Option Secret)
    → is_some s ≡ true
    → is_backed conditions s ≡ true
unfolding is_backed
is_backed-some conditions s h = ground arith

module _ (env : Env) (cluster : TalosCluster) where
  pub set_error-unbacked :
      (b : TalosClusterBootstrap) (e : Error) (t : Trace)
      → is_backed b.status.conditions (kubeconfig_of cluster t.calls) ≡ true
      → unbacked cluster (set_error env b e t).1.calls ≡ unbacked cluster t.calls
  unfolding set_error
  set_error-unbacked b e t h = grind arith

  complete-unbacked :
      (b : TalosClusterBootstrap) (t : Trace)
      → is_backed b.status.conditions (kubeconfig_of cluster t.calls) ≡ true
      → unbacked cluster (complete env b t).1.calls ≡ unbacked cluster t.calls
  unfolding complete set_condition_status
  complete-unbacked b t h = grind (arith, api_server_is_other, is_backed-set)

  save_api_server_wait-unbacked :
      (b : TalosClusterBootstrap) (e : Error) (t : Trace)
      → is_backed b.status.conditions (kubeconfig_of cluster t.calls) ≡ true
      → unbacked cluster (save_api_server_wait env b e t).1.calls ≡ unbacked cluster t.calls
  unfolding save_api_server_wait set_condition_status
  save_api_server_wait-unbacked b e t h = grind (arith, is_backed-set)

  pub retry_kubeconfig-unbacked :
      (b : TalosClusterBootstrap) (t : Trace)
      → is_backed b.status.conditions (kubeconfig_of cluster t.calls) ≡ true
      → unbacked cluster (retry_kubeconfig env b t).1.calls ≡ unbacked cluster t.calls
  unfolding retry_kubeconfig set_condition_status
  retry_kubeconfig-unbacked b t h = grind (arith, is_backed-set)

  pub wait_for_api_server-unbacked :
      (b : TalosClusterBootstrap) (t : Trace)
      → is_backed b.status.conditions (kubeconfig_of cluster t.calls) ≡ true
      → unbacked cluster (wait_for_api_server env b cluster t).1.calls ≡ unbacked cluster t.calls
  unfolding wait_for_api_server probe_api_server
  wait_for_api_server-unbacked b t h =
      grind (arith, set_error-unbacked, save_api_server_wait-unbacked, complete-unbacked)

module _ (env : Env)
    (creates : (s : Secret) (t : Trace)
      → is_refused (env.create_secret s t) ≡ is_some (stored s.namespace s.name t.calls))
    (cluster : TalosCluster) where
  -- A kubeconfig that was stored with success is there, ...
  save_kubeconfig-there :
      (kubeconfig : String) (t : Trace)
      → (save_kubeconfig env cluster kubeconfig t).0 ≡ ok tt
      → is_some (kubeconfig_of cluster (save_kubeconfig env cluster kubeconfig t).1.calls) ≡ true
  unfolding save_kubeconfig
  save_kubeconfig-there kubeconfig t h = grind (arith, creates)

  -- ... one that was not leaves the secret as it is, ...
  save_kubeconfig-failed :
      (kubeconfig : String) (e : Error) (t : Trace)
      → (save_kubeconfig env cluster kubeconfig t).0 ≡ err e
      → kubeconfig_of cluster (save_kubeconfig env cluster kubeconfig t).1.calls
        ≡ kubeconfig_of cluster t.calls
  unfolding save_kubeconfig
  save_kubeconfig-failed kubeconfig e t h = ground arith

  -- ... and no status is saved on the way.
  save_kubeconfig-unbacked :
      (kubeconfig : String) (t : Trace)
      → unbacked cluster (save_kubeconfig env cluster kubeconfig t).1.calls
        ≡ unbacked cluster t.calls
  unfolding save_kubeconfig
  save_kubeconfig-unbacked kubeconfig t = ground arith

  module _
      (saves : (b b' : TalosClusterBootstrap) (t : Trace)
        → env.update_bootstrap_status b t ≡ ok b'
        → b' ≡ b) where
    -- A backed status is saved, and what follows starts from what was saved.
    pub save_then-unbacked :
        (text : String) (c : TalosClusterBootstrap) (f : TalosClusterBootstrap → M Result)
        (t : Trace)
        → is_backed c.status.conditions (kubeconfig_of cluster t.calls) ≡ true
        → ((b : TalosClusterBootstrap) (t' : Trace)
            → is_backed b.status.conditions (kubeconfig_of cluster t'.calls) ≡ true
            → unbacked cluster (f b t').1.calls ≡ unbacked cluster t'.calls)
        → unbacked cluster ((wrapped text (update_bootstrap_status env c) >>= f) t).1.calls
          ≡ unbacked cluster t.calls
    save_then-unbacked text c f t u next =
        let of_answer : (r : Answer TalosClusterBootstrap)
            → env.update_bootstrap_status c t ≡ r
            → unbacked cluster
                ((wrapped text (settle (Call.update_bootstrap_status c) r) >>= f) t).1.calls
              ≡ unbacked cluster t.calls =
          elim [ ok b ↦ λ p. next b _ (rw (saves c b t p) u) ∙ rw u refl | err e ↦ λ p. refl ] in
        of_answer _ refl

    -- `store_kubeconfig` once the secret is stored, or is not.
    abbrev stored_kubeconfig : TalosClusterBootstrap → Answer (Unit {0}) → M Result
    stored_kubeconfig b r = elim r [
      | err e ↦ set_error env b (wrap "save kubeconfig" e)
      | ok _ ↦ (do
        conditions ←
            set_condition_status env b.status.conditions condition_kubeconfig cond_true "Retrieved"
              "Kubeconfig retrieved"
        saved ← wrapped "update kubeconfig status" (
            update_bootstrap_status env
              (with_status b (record (b.status) { conditions = conditions })))
        wait_for_api_server env saved cluster)
    ]

    pub store_kubeconfig-unbacked :
        (b : TalosClusterBootstrap) (kubeconfig : String) (t : Trace)
        → is_backed b.status.conditions (kubeconfig_of cluster t.calls) ≡ true
        → unbacked cluster (store_kubeconfig env b cluster kubeconfig t).1.calls
          ≡ unbacked cluster t.calls
    unfolding store_kubeconfig set_condition_status
    store_kubeconfig-unbacked b kubeconfig t h =
        let t1 = (save_kubeconfig env cluster kubeconfig t).1 in
        let of_answer : (r : Answer (Unit {0}))
            → (save_kubeconfig env cluster kubeconfig t).0 ≡ r
            → unbacked cluster (stored_kubeconfig b r t1).1.calls ≡ unbacked cluster t1.calls =
          elim [
            | err e ↦ λ p.
                set_error-unbacked env cluster b _ t1
                  (rw (save_kubeconfig-failed kubeconfig e t p) h)
            | ok _ ↦ λ p.
                save_then-unbacked "update kubeconfig status" _ _ _
                  (is_backed-some _ _ (save_kubeconfig-there kubeconfig t p))
                  (λ x t' k. wait_for_api_server-unbacked env cluster x t' k)
          ] in
        of_answer (save_kubeconfig env cluster kubeconfig t).0 refl
        ∙ save_kubeconfig-unbacked kubeconfig t
