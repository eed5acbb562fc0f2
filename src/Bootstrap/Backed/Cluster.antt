-- ===== src/Bootstrap/Backed/Cluster.antt =====
-- The kubeconfig secret in a reconcile of a bootstrap with a known cluster, in
-- talosclusterbootstrap_controller.go.
use yk_talos_management.Prelude.{
  String-discrete, String, List, [], ◌∷◌, Bool, true, false, ◌==◌, string_eq, nat_eq, ◌≡◌, refl,
  arith, Option, none, some,
}
use yk_talos_management.Api.{
  condition_status_eq, TalosCluster, TalosClusterBootstrap, cond_true, cond_false,
}
use yk_talos_management.Effects.Error.{Error, ok}
use yk_talos_management.Effects.Objects.{Secret, Connection, Result}
use yk_talos_management.Effects.Calls.{Trace}
use yk_talos_management.Effects.Monad.{M, wrapped, ◌>>=◌}
use yk_talos_management.Effects.Kube.{update_bootstrap_status}
use yk_talos_management.Effects.Environment.{Env}
use yk_talos_management.Talos.Conditions.{has_condition, set_condition_status}
use yk_talos_management.Node.Etcd.{dial_any}
use yk_talos_management.Cluster.Store.{stored, is_refused, is_some}
use yk_talos_management.Bootstrap.Status.{condition_bootstrapped, condition_kubeconfig}
use yk_talos_management.Bootstrap.Nodes.{save_waiting, wait_for_ready_nodes}
use yk_talos_management.Bootstrap.Etcd.{
  fetch_kubeconfig, mark_bootstrapped, bootstrap_over, dial_failed, dial_and_go, connect,
  mark_bootstrapping, bootstrap_cluster,
}
use yk_talos_management.Bootstrap.{reconcile_cluster, reconcile_live}
use yk_talos_management.Bootstrap.Backed.{
  is_backed, kubeconfig_of, unbacked, is_backed-set, set_error-unbacked, retry_kubeconfig-unbacked,
  wait_for_api_server-unbacked, save_then-unbacked, store_kubeconfig-unbacked,
}

bootstrapped_is_other : (condition_bootstrapped == condition_kubeconfig) ≡ false
unfolding String-discrete
bootstrapped_is_other = refl

module _ (env : Env) (cluster : TalosCluster) where
  dial_any-unbacked :
      (talosconfig : String) (endpoints : List String) (last : Option Error) (t : Trace)
      → unbacked cluster (dial_any env talosconfig endpoints last t).1.calls
        ≡ unbacked cluster t.calls
  unfolding dial_any
  dial_any-unbacked talosconfig [] none t = refl
  dial_any-unbacked talosconfig [] (some e) t = refl
  dial_any-unbacked talosconfig (ep ∷ endpoints) last t =
      grind (arith, dial_any-unbacked talosconfig endpoints)

  dial_any-kubeconfig :
      (talosconfig : String) (endpoints : List String) (last : Option Error) (t : Trace)
      → kubeconfig_of cluster (dial_any env talosconfig endpoints last t).1.calls
        ≡ kubeconfig_of cluster t.calls
  unfolding dial_any
  dial_any-kubeconfig talosconfig [] none t = refl
  dial_any-kubeconfig talosconfig [] (some e) t = refl
  dial_any-kubeconfig talosconfig (ep ∷ endpoints) last t =
      grind (arith, dial_any-kubeconfig talosconfig endpoints)

  dial_failed-unbacked :
      (b : TalosClusterBootstrap) (e : Error) (t : Trace)
      → is_backed b.status.conditions (kubeconfig_of cluster t.calls) ≡ true
      → unbacked cluster (dial_failed env b e t).1.calls ≡ unbacked cluster t.calls
  unfolding dial_failed
  dial_failed-unbacked b e t h = grind (arith, set_error-unbacked)

module _ (env : Env)
    (creates : (s : Secret) (t : Trace)
      → is_refused (env.create_secret s t) ≡ is_some (stored s.namespace s.name t.calls))
    (cluster : TalosCluster)
    (saves : (b b' : TalosClusterBootstrap) (t : Trace)
      → env.update_bootstrap_status b t ≡ ok b'
      → b' ≡ b) where
  fetch_kubeconfig-unbacked :
      (b : TalosClusterBootstrap) (conn : Connection) (dialed_to : String) (t : Trace)
      → is_backed b.status.conditions (kubeconfig_of cluster t.calls) ≡ true
      → unbacked cluster (fetch_kubeconfig env b cluster conn dialed_to t).1.calls
        ≡ unbacked cluster t.calls
  unfolding fetch_kubeconfig
  fetch_kubeconfig-unbacked b conn dialed_to t h =
      grind (arith, retry_kubeconfig-unbacked, store_kubeconfig-unbacked)

  mark_bootstrapped-unbacked :
      (b : TalosClusterBootstrap) (conn : Connection) (dialed_to : String) (t : Trace)
      → is_backed b.status.conditions (kubeconfig_of cluster t.calls) ≡ true
      → unbacked cluster (mark_bootstrapped env b cluster conn dialed_to t).1.calls
        ≡ unbacked cluster t.calls
  unfolding mark_bootstrapped set_condition_status
  mark_bootstrapped-unbacked b conn dialed_to t h =
      save_then-unbacked env creates cluster saves "update bootstrapped status" _ _ _
        (is_backed-set _ b.status.conditions condition_bootstrapped cond_true _ _ _
          (ground (arith, bootstrapped_is_other)) h)
        (λ x t' k. fetch_kubeconfig-unbacked x conn dialed_to t' k)

  bootstrap_over-unbacked :
      (b : TalosClusterBootstrap) (conn : Connection) (dialed_to : String) (t : Trace)
      → is_backed b.status.conditions (kubeconfig_of cluster t.calls) ≡ true
      → unbacked cluster (bootstrap_over env b cluster conn dialed_to t).1.calls
        ≡ unbacked cluster t.calls
  unfolding bootstrap_over
  bootstrap_over-unbacked b conn dialed_to t h =
      grind (arith, set_error-unbacked, mark_bootstrapped-unbacked)

  dial_and_go-unbacked :
      (b : TalosClusterBootstrap) (first : String) (already : Bool) (talosconfig : String)
      (t : Trace)
      → is_backed b.status.conditions (kubeconfig_of cluster t.calls) ≡ true
      → unbacked cluster (dial_and_go env b cluster first already talosconfig t).1.calls
        ≡ unbacked cluster t.calls
  unfolding dial_and_go
  dial_and_go-unbacked b first true talosconfig t h = grind (
    arith, dial_any-unbacked, dial_any-kubeconfig, dial_failed-unbacked, fetch_kubeconfig-unbacked,
  )
  dial_and_go-unbacked b first false talosconfig t h =
      grind (arith, dial_failed-unbacked, bootstrap_over-unbacked)

  connect-unbacked :
      (b : TalosClusterBootstrap) (first : String) (already : Bool) (t : Trace)
      → is_backed b.status.conditions (kubeconfig_of cluster t.calls) ≡ true
      → unbacked cluster (connect env b cluster first already t).1.calls ≡ unbacked cluster t.calls
  unfolding connect
  connect-unbacked b first already t h = grind (arith, set_error-unbacked, dial_and_go-unbacked)

  marked_then-unbacked :
      (b : TalosClusterBootstrap) (already : Bool) (f : TalosClusterBootstrap → M Result)
      (t : Trace)
      → is_backed b.status.conditions (kubeconfig_of cluster t.calls) ≡ true
      → ((x : TalosClusterBootstrap) (t' : Trace)
          → is_backed x.status.conditions (kubeconfig_of cluster t'.calls) ≡ true
          → unbacked cluster (f x t').1.calls ≡ unbacked cluster t'.calls)
      → unbacked cluster
          ((mark_bootstrapping env b already >>= λ m.
              wrapped "update status" (update_bootstrap_status env m) >>= f)
            t).1.calls
        ≡ unbacked cluster t.calls
  unfolding mark_bootstrapping set_condition_status
  marked_then-unbacked b true f t h next =
      save_then-unbacked env creates cluster saves "update status" _ f _
        (is_backed-set _ b.status.conditions condition_kubeconfig cond_false _ _ _ (ground arith) h)
        next
  marked_then-unbacked b false f t h next =
      save_then-unbacked env creates cluster saves "update status" _ f _
        (is_backed-set _ _ condition_kubeconfig cond_false _ _ _ (ground arith) (
          is_backed-set _ b.status.conditions condition_bootstrapped cond_false _ _ _ (ground arith)
            h))
        next

  bootstrap_cluster-unbacked :
      (b : TalosClusterBootstrap) (first : String) (t : Trace)
      → is_backed b.status.conditions (kubeconfig_of cluster t.calls) ≡ true
      → unbacked cluster (bootstrap_cluster env b cluster first t).1.calls
        ≡ unbacked cluster t.calls
  unfolding bootstrap_cluster
  bootstrap_cluster-unbacked b first t h =
      let already = has_condition b.status.conditions condition_bootstrapped cond_true in
      marked_then-unbacked b already (λ saved. connect env saved cluster first already) t h
        (λ x t' k. connect-unbacked x first already t' k)

  reconcile_cluster-unbacked :
      (b : TalosClusterBootstrap) (t : Trace)
      → is_backed b.status.conditions (kubeconfig_of cluster t.calls) ≡ true
      → unbacked cluster (reconcile_cluster env b cluster t).1.calls ≡ unbacked cluster t.calls
  unfolding reconcile_cluster wait_for_ready_nodes save_waiting
  reconcile_cluster-unbacked b t h =
      grind (arith, set_error-unbacked, wait_for_api_server-unbacked, bootstrap_cluster-unbacked)

  pub reconcile_live-unbacked :
      (b : TalosClusterBootstrap) (t : Trace)
      → ((t' : Trace) → env.get_cluster b.meta.namespace b.spec.cluster_ref t' ≡ ok cluster)
      → is_backed b.status.conditions (kubeconfig_of cluster t.calls) ≡ true
      → unbacked cluster (reconcile_live env b t).1.calls ≡ unbacked cluster t.calls
  unfolding reconcile_live
  reconcile_live-unbacked b t finds h = grind (arith, finds, reconcile_cluster-unbacked)
