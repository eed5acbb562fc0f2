-- ===== src/Node/Etcd/Laws.antt =====
-- About how long `handleEtcdLeave` can hold a deletion back.
use yk_talos_management.Prelude.{◌≤◌, Option, none, some, String, List, [], ◌∷◌, ◌≡◌, refl, arith}
use yk_talos_management.Api.{TalosNode}
use yk_talos_management.Effects.Error.{ok}
use yk_talos_management.Effects.Calls.{Trace}
use yk_talos_management.Effects.Environment.{Env}
use yk_talos_management.Shared.Constants.{etcd_leave_max_attempts}
use yk_talos_management.Shared.Helpers.{filter_exclude}
use yk_talos_management.Node.Etcd.{proceed, force_remove, leave_etcd, handle_etcd_leave}
use yk_talos_management.Node.Access.{load_talosconfig}

module _ (env : Env) (node : TalosNode) where
  force_remove-proceed :
      (talosconfig : String) (peers : List String) (t : Trace)
      → (force_remove env node talosconfig peers t).0 ≡ ok proceed
  unfolding force_remove
  force_remove-proceed talosconfig [] t = refl
  force_remove-proceed talosconfig (p ∷ peers) t = ground arith

  leave_etcd-proceed :
      (access : String × List String) (t : Trace)
      → etcd_leave_max_attempts ≤ node.status.deletion_attempts
      → (leave_etcd env node access t).0 ≡ ok proceed
  unfolding leave_etcd
  leave_etcd-proceed (talosconfig, endpoints) t h =
      ground
        (arith, force_remove-proceed talosconfig (filter_exclude endpoints node.spec.node_ip) t)

  -- After three failed attempts to leave etcd, the step of a deletion that leaves etcd lets the
  -- deletion go on, whatever the surviving peers answer, if loading the talosconfig returns no
  -- error: it may be loaded, or the cluster or the secret may not be found.
  pub handle_etcd_leave-proceed :
      (loaded : Option (String × List String)) (t : Trace)
      → (load_talosconfig env node t).0 ≡ ok loaded
      → etcd_leave_max_attempts ≤ node.status.deletion_attempts
      → (handle_etcd_leave env node t).0 ≡ ok proceed
  unfolding handle_etcd_leave
  handle_etcd_leave-proceed none t l h = rw l refl
  handle_etcd_leave-proceed (some access) t l h = rw l (leave_etcd-proceed access _ h)
