-- ===== src/Cluster/Settled.antt =====
-- The reconcile after a successful one, in taloscluster_controller.go.
use yk_talos_management.Prelude.{
  String, ◌∷◌, true, ◌==◌, string_eq, nat_eq, none, ◌≡◌, ◌∙◌, ap, arith,
}
use yk_talos_management.Api.{TalosCluster, cluster_phase_eq, condition_status_eq}
use yk_talos_management.Effects.Error.{Answer, ok, err, wrap}
use yk_talos_management.Effects.Calls.{Call, did, Trace}
use yk_talos_management.Effects.Monad.{M, pure}
use yk_talos_management.Effects.Environment.{Env}
use yk_talos_management.Talos.Finalizer.{contains_finalizer, finalizer_cleanup}
use yk_talos_management.Talos.Conditions.{set_condition_status}
use yk_talos_management.Talos.Conditions.Laws.{has_condition-set}
use yk_talos_management.Shared.Constants.{finished}
use yk_talos_management.Shared.Helpers.{ensure_finalizer}
use yk_talos_management.Cluster.Status.{is_up_to_date}
use yk_talos_management.Cluster.{
  generate, mark_ready, mark_provisioning, provision_saved, provision, reconcile_live, reconcile,
}

module _ (env : Env)
    (saves : (c c' : TalosCluster) (t : Trace)
      → env.update_cluster_status c t ≡ ok c'
      → c' ≡ c) where
  mark_ready-is_up_to_date :
      (c c' : TalosCluster) (t : Trace)
      → (mark_ready env c t).0 ≡ ok (c', ok tt)
      → is_up_to_date c' ≡ (c.status.observed_generation == c.meta.generation)
  unfolding mark_ready set_condition_status is_up_to_date
  mark_ready-is_up_to_date c c' t h = grind (arith, saves, has_condition-set)

  mark_ready-meta :
      (c c' : TalosCluster) (t : Trace) → (mark_ready env c t).0 ≡ ok (c', ok tt) → c'.meta ≡ c.meta
  unfolding mark_ready set_condition_status
  mark_ready-meta c c' t h = grind (arith, saves)

  mark_provisioning-meta :
      (c c' : TalosCluster) (t : Trace) → (mark_provisioning env c t).0 ≡ ok c' → c'.meta ≡ c.meta
  unfolding mark_provisioning set_condition_status
  mark_provisioning-meta c c' t h = ground arith

  mark_provisioning-observed :
      (c c' : TalosCluster) (t : Trace)
      → (mark_provisioning env c t).0 ≡ ok c'
      → c'.status.observed_generation ≡ c.meta.generation
  unfolding mark_provisioning set_condition_status
  mark_provisioning-observed c c' t h = ground arith

  provision_saved-meta :
      (c' c : TalosCluster) (t : Trace)
      → (provision_saved env c t).0 ≡ ok (c', ok tt)
      → c'.meta ≡ c.meta
  unfolding provision_saved
  provision_saved-meta c' c t h = grind (arith, mark_ready-meta c c' (generate env c t).1)

  provision_saved-is_up_to_date :
      (c' c : TalosCluster) (t : Trace)
      → c.status.observed_generation ≡ c.meta.generation
      → (provision_saved env c t).0 ≡ ok (c', ok tt)
      → is_up_to_date c' ≡ true
  unfolding provision_saved
  provision_saved-is_up_to_date c' c t g h =
      grind (arith, mark_ready-is_up_to_date c c' (generate env c t).1)

  -- `provision` from the marked cluster on, where the API server answers `r` to its status.
  abbrev continued : TalosCluster → Answer TalosCluster → M (TalosCluster × Answer (Unit {0}))
  continued marked (err e) = pure (marked, err (wrap "update status" e))
  continued marked (ok saved) = provision_saved env saved

  continued-meta :
      (c' m : TalosCluster) (r : Answer TalosCluster) (t t' : Trace)
      → env.update_cluster_status m t ≡ r
      → (continued m r t').0 ≡ ok (c', ok tt)
      → c'.meta ≡ m.meta
  continued-meta c' m (err e) t t' p h = ground arith
  continued-meta c' m (ok saved) t t' p h =
      provision_saved-meta c' saved t' h ∙ ap (λ c. c.meta) (saves m saved t p)

  continued-is_up_to_date :
      (c' m : TalosCluster) (r : Answer TalosCluster) (t t' : Trace)
      → m.status.observed_generation ≡ m.meta.generation
      → env.update_cluster_status m t ≡ r
      → (continued m r t').0 ≡ ok (c', ok tt)
      → is_up_to_date c' ≡ true
  continued-is_up_to_date c' m (err e) t t' g p h = ground arith
  continued-is_up_to_date c' m (ok saved) t t' g p h =
      provision_saved-is_up_to_date c' saved t' (rw (saves m saved t p) g) h

  provision-meta :
      (c c' : TalosCluster) (t : Trace) → (provision env c t).0 ≡ ok (c', ok tt) → c'.meta ≡ c.meta
  unfolding provision
  provision-meta c c' t h = grind (arith, mark_provisioning-meta c, continued-meta c')

  provision-is_up_to_date :
      (c c' : TalosCluster) (t : Trace)
      → (provision env c t).0 ≡ ok (c', ok tt)
      → is_up_to_date c' ≡ true
  unfolding provision
  provision-is_up_to_date c c' t h =
      grind
        (arith, mark_provisioning-meta c, mark_provisioning-observed c, continued-is_up_to_date c')

  -- If the API server keeps the status that is written, then after a successful provisioning a
  -- reconcile that finds the cluster as it was saved only reads it, and returns with no delay. The
  -- cluster is taken to have the finalizer and not to be deleted.
  pub provision-settled :
      (c c' : TalosCluster) (namespace name : String) (t t' : Trace)
      → contains_finalizer c.meta.finalizers finalizer_cleanup ≡ true
      → c.meta.deletion_timestamp ≡ none
      → (provision env c t).0 ≡ ok (c', ok tt)
      → env.get_cluster namespace name t' ≡ ok c'
      → ((reconcile env namespace name t').0 ≡ ok finished)
        × ((reconcile env namespace name t').1.calls
            ≡ did (Call.get_cluster namespace name) ∷ t'.calls)
  unfolding reconcile reconcile_live ensure_finalizer
  provision-settled c c' namespace name t t' f d h g =
      grind (arith, provision-meta c c' t, provision-is_up_to_date c c' t)
