-- ===== src/Bootstrap/Settled.antt =====
-- The reconcile after the bootstrap of a cluster, in talosclusterbootstrap_controller.go.
use yk_talos_management.Prelude.{
  String, List, [], ◌∷◌, Bool, true, false, string_eq, nat_eq, ◌≡◌, ◌∙◌, arith, Option, none, some,
}
use yk_talos_management.Api.{
  condition_status_eq, TalosCluster, TalosClusterBootstrap, BootstrapPhase, BootstrapPhase-discrete,
  bootstrap_phase_eq, cond_true,
}
use yk_talos_management.Effects.Error.{Error, ok}
use yk_talos_management.Effects.Objects.{Connection, Result}
use yk_talos_management.Effects.Calls.{Call, Entry, did, failed, Trace}
use yk_talos_management.Effects.Monad.{M, wrapped, ◌>>=◌}
use yk_talos_management.Effects.Kube.{update_bootstrap_status}
use yk_talos_management.Effects.Environment.{Env}
use yk_talos_management.Talos.Conditions.{has_condition, set_condition_status}
use yk_talos_management.Talos.Conditions.Laws.{has_condition-set}
use yk_talos_management.Shared.Constants.{finished}
use yk_talos_management.Shared.Helpers.{ensure_finalizer}
use yk_talos_management.Talos.Finalizer.{contains_finalizer, finalizer_cleanup}
use yk_talos_management.Bootstrap
use yk_talos_management.Bootstrap.Status.{
  condition_bootstrapped, is_bootstrap_up_to_date, with_status,
}
use yk_talos_management.Bootstrap.ApiServer.{complete}
use yk_talos_management.Bootstrap.Etcd.{
  fetch_kubeconfig, mark_bootstrapped, bootstrap_over, dial_failed, dial_and_go, connect,
  mark_bootstrapping, bootstrap_cluster,
}
use yk_talos_management.Bootstrap.Current.{
  is_current, stale, is_observed, is_started, is_started-conditions, is_started-is_current,
  dial_any-stale, set_error-stale, retry_kubeconfig-stale, save_then-stale, store_kubeconfig-stale,
}

-- The bootstrap whose status was saved last.
abbrev pub last_saved : List Entry → Option TalosClusterBootstrap
last_saved [] = none
last_saved (did (Call.update_bootstrap_status b) ∷ rest) = some b
last_saved (_ ∷ rest) = last_saved rest

last_saved-is_current :
    (x : TalosClusterBootstrap) (calls : List Entry)
    → stale calls ≡ 0
    → last_saved calls ≡ some x
    → is_current x ≡ true
last_saved-is_current x [] z l = ground arith
last_saved-is_current x (did c ∷ rest) z l = grind (arith, last_saved-is_current x rest)
last_saved-is_current x (failed c ∷ rest) z l = last_saved-is_current x rest z l

completed-is_up_to_date :
    (x : TalosClusterBootstrap)
    → x.status.phase ≡ BootstrapPhase.completed
    → is_current x ≡ true
    → is_bootstrap_up_to_date x ≡ true
unfolding is_current
completed-is_up_to_date x c h = ground arith

abbrev started : TalosClusterBootstrap → TalosClusterBootstrap
started b = with_status b (record (b.status) {
  observed_generation = b.meta.generation;
  phase = BootstrapPhase.bootstrapping;
})

started-is_started : (b : TalosClusterBootstrap) → is_started (started b) ≡ true
unfolding is_started is_observed BootstrapPhase-discrete
started-is_started b = ground arith

-- A bootstrap that is up to date is only read.
reconcile_quiet :
    (env : Env) (x : TalosClusterBootstrap) (namespace name : String) (t : Trace)
    → is_bootstrap_up_to_date x ≡ true
    → contains_finalizer x.meta.finalizers finalizer_cleanup ≡ true
    → x.meta.deletion_timestamp ≡ none
    → env.get_bootstrap namespace name t ≡ ok x
    → ((Bootstrap.reconcile env namespace name t).0 ≡ ok finished)
      × ((Bootstrap.reconcile env namespace name t).1.calls
          ≡ did (Call.get_bootstrap namespace name) ∷ t.calls)
unfolding Bootstrap.reconcile Bootstrap.reconcile_found Bootstrap.reconcile_live ensure_finalizer
reconcile_quiet env x namespace name t u f d g = grind arith

-- The completion of a bootstrap saves a status that is up to date exactly when the status is that
-- of the present generation already; `complete` does not set it.
pub complete-is_bootstrap_up_to_date :
    (env : Env) (b x : TalosClusterBootstrap) (t : Trace)
    → (complete env b t).0 ≡ ok finished
    → last_saved (complete env b t).1.calls ≡ some x
    → is_bootstrap_up_to_date x ≡ is_observed b
unfolding complete set_condition_status is_bootstrap_up_to_date is_observed
complete-is_bootstrap_up_to_date env b x t h l = grind (arith, has_condition-set)

module _ (env : Env)
    (saves : (b b' : TalosClusterBootstrap) (t : Trace)
      → env.update_bootstrap_status b t ≡ ok b'
      → b' ≡ b)
    (cluster : TalosCluster) where
  fetch_kubeconfig-stale :
      (b : TalosClusterBootstrap) (conn : Connection) (dialed_to : String) (t : Trace)
      → is_started b ≡ true
      → stale (fetch_kubeconfig env b cluster conn dialed_to t).1.calls ≡ stale t.calls
  unfolding fetch_kubeconfig
  fetch_kubeconfig-stale b conn dialed_to t s =
      grind (arith, retry_kubeconfig-stale, store_kubeconfig-stale)

  mark_bootstrapped-stale :
      (b : TalosClusterBootstrap) (conn : Connection) (dialed_to : String) (t : Trace)
      → is_started b ≡ true
      → stale (mark_bootstrapped env b cluster conn dialed_to t).1.calls ≡ stale t.calls
  unfolding mark_bootstrapped set_condition_status
  mark_bootstrapped-stale b conn dialed_to t s =
      save_then-stale env saves "update bootstrapped status" _ _ _ (is_started-conditions b _ s)
        (is_started-is_current b _ s) (λ x t' h. fetch_kubeconfig-stale x conn dialed_to t' h)

  bootstrap_over-stale :
      (b : TalosClusterBootstrap) (conn : Connection) (dialed_to : String) (t : Trace)
      → is_started b ≡ true
      → stale (bootstrap_over env b cluster conn dialed_to t).1.calls ≡ stale t.calls
  unfolding bootstrap_over
  bootstrap_over-stale b conn dialed_to t s =
      grind (arith, set_error-stale, mark_bootstrapped-stale)

  dial_failed-stale :
      (b : TalosClusterBootstrap) (e : Error) (t : Trace)
      → stale (dial_failed env b e t).1.calls ≡ stale t.calls
  unfolding dial_failed
  dial_failed-stale b e t = grind (arith, set_error-stale)

  dial_and_go-stale :
      (b : TalosClusterBootstrap) (first : String) (already : Bool) (talosconfig : String)
      (t : Trace)
      → is_started b ≡ true
      → stale (dial_and_go env b cluster first already talosconfig t).1.calls ≡ stale t.calls
  unfolding dial_and_go
  dial_and_go-stale b first true talosconfig t s =
      grind (arith, dial_any-stale, dial_failed-stale, fetch_kubeconfig-stale)
  dial_and_go-stale b first false talosconfig t s =
      grind (arith, dial_failed-stale, bootstrap_over-stale)

  connect-stale :
      (b : TalosClusterBootstrap) (first : String) (already : Bool) (t : Trace)
      → is_started b ≡ true
      → stale (connect env b cluster first already t).1.calls ≡ stale t.calls
  unfolding connect
  connect-stale b first already t s = grind (arith, set_error-stale, dial_and_go-stale)

  marked_then-stale :
      (b : TalosClusterBootstrap) (already : Bool) (f : TalosClusterBootstrap → M Result)
      (t : Trace)
      → ((x : TalosClusterBootstrap) (t' : Trace)
          → is_started x ≡ true
          → stale (f x t').1.calls ≡ stale t'.calls)
      → stale
          ((mark_bootstrapping env b already >>= λ m.
              wrapped "update status" (update_bootstrap_status env m) >>= f)
            t).1.calls
        ≡ stale t.calls
  unfolding mark_bootstrapping set_condition_status
  marked_then-stale b true f t next =
      save_then-stale env saves "update status" _ f _
        (is_started-conditions (started b) _ (started-is_started b))
        (is_started-is_current (started b) _ (started-is_started b)) next
  marked_then-stale b false f t next =
      save_then-stale env saves "update status" _ f _
        (is_started-conditions (started b) _ (started-is_started b))
        (is_started-is_current (started b) _ (started-is_started b)) next

  bootstrap_cluster-stale :
      (b : TalosClusterBootstrap) (first : String) (t : Trace)
      → stale (bootstrap_cluster env b cluster first t).1.calls ≡ stale t.calls
  unfolding bootstrap_cluster
  bootstrap_cluster-stale b first t =
      let already = has_condition b.status.conditions condition_bootstrapped cond_true in
      marked_then-stale b already (λ saved. connect env saved cluster first already) t
        (λ x t' h. connect-stale x first already t' h)

  -- If the API server keeps the status that is written, then a bootstrap that `bootstrap_cluster`
  -- leaves with the phase Completed is finished: a reconcile that finds it as it was last saved
  -- only reads it, and returns with no delay. It is taken to have the finalizer and not to be
  -- deleted, and no stale status to be saved before.
  pub bootstrap_cluster-settled :
      (b x : TalosClusterBootstrap) (first namespace name : String) (t t' : Trace)
      → stale t.calls ≡ 0
      → last_saved (bootstrap_cluster env b cluster first t).1.calls ≡ some x
      → x.status.phase ≡ BootstrapPhase.completed
      → contains_finalizer x.meta.finalizers finalizer_cleanup ≡ true
      → x.meta.deletion_timestamp ≡ none
      → env.get_bootstrap namespace name t' ≡ ok x
      → ((Bootstrap.reconcile env namespace name t').0 ≡ ok finished)
        × ((Bootstrap.reconcile env namespace name t').1.calls
            ≡ did (Call.get_bootstrap namespace name) ∷ t'.calls)
  bootstrap_cluster-settled b x first namespace name t t' z l c f d g =
      let current =
        last_saved-is_current x (bootstrap_cluster env b cluster first t).1.calls
          (bootstrap_cluster-stale b first t ∙ z) l in
      reconcile_quiet env x namespace name t' (completed-is_up_to_date x c current) f d g
