-- ===== src/Node/Etcd/Order.antt =====
-- The history of calls over `handleEtcdLeave` of talosnode_controller.go.
use yk_talos_management.Prelude.{
  ℕ, suc, String, List, [], ◌∷◌, Bool, true, false, ◌≡◌, refl, arith, Option, none, some, ◌==◌,
  ◌&&◌, not, string_eq, contains,
}
use yk_talos_management.Api.{TalosNode}
use yk_talos_management.Effects.Objects.{Connection}
use yk_talos_management.Effects.Error.{Error, Answer, ok, err}
use yk_talos_management.Effects.Calls.{Trace}
use yk_talos_management.Effects.Environment.{Env}
use yk_talos_management.History.{Invariant, Keeps}
use yk_talos_management.Shared.Helpers.{filter_exclude}
use yk_talos_management.Node.Access.{with_conn}
use yk_talos_management.Node.Access.Order.{load_talosconfig-Keeps}
use yk_talos_management.Node.Etcd.{
  dial_any, force_remove, leave_gracefully, try_etcd_leave, leave_etcd, handle_etcd_leave,
}

-- Exactly the other members stay.
pub contains-filter_exclude :
    (items : List String) (exclude item : String)
    → contains (filter_exclude items exclude) item ≡ (not (item == exclude) && contains items item)
unfolding filter_exclude
contains-filter_exclude [] exclude item = ground arith
contains-filter_exclude (x ∷ items) exclude item =
    ground (arith, contains-filter_exclude items exclude item)

-- What was dialed is one of the endpoints.
abbrev found_in : List String → Answer (Option (Connection × String)) → Bool
found_in endpoints (ok (some (conn, endpoint))) = contains endpoints endpoint
found_in endpoints _ = true

module _ (env : Env) where
  pub dial_any-found_in :
      (talosconfig : String) (endpoints : List String) (last : Option Error) (t : Trace)
      → found_in endpoints (dial_any env talosconfig endpoints last t).0 ≡ true
  unfolding dial_any
  dial_any-found_in talosconfig [] none t = refl
  dial_any-found_in talosconfig [] (some e) t = refl
  dial_any-found_in talosconfig (ep ∷ endpoints) last t =
      grind (arith, dial_any-found_in talosconfig endpoints)

-- The connections that are open with an answer of `dialAny`.
abbrev pub dialed : ℕ → Answer (Option (Connection × String)) → ℕ
dialed n (ok (some found)) = suc n
dialed n (ok none) = n
dialed n (err e) = n

module _ (I : Invariant) (env : Env) where
  pub dial_any-Keeps :
      (n k : ℕ) (talosconfig : String) (endpoints : List String) (last : Option Error) (t : Trace)
      → I.holds n k t.calls
      → I.holds
          (dialed n (dial_any env talosconfig endpoints last t).0)
          k
          (dial_any env talosconfig endpoints last t).1.calls
  unfolding dial_any
  dial_any-Keeps n k talosconfig [] none t h = h
  dial_any-Keeps n k talosconfig [] (some e) t h = h
  dial_any-Keeps n k talosconfig (ep ∷ endpoints) last t h =
      grind (arith, dial_any-Keeps n k talosconfig endpoints)

  force_remove-Keeps :
      (n k : ℕ) (node : TalosNode) (talosconfig : String) (peers : List String)
      → contains peers node.spec.node_ip ≡ false
      → Keeps I n k k (force_remove env node talosconfig peers)
  unfolding force_remove
  force_remove-Keeps n k node talosconfig [] e t h = h
  force_remove-Keeps n k node talosconfig (p ∷ peers) e t h = grind (
    arith,
    dial_any-Keeps n k talosconfig (p ∷ peers) none t h,
    dial_any-found_in env talosconfig (p ∷ peers) none t,
  )

  leave_gracefully-Keeps :
      (n k : ℕ) (node : TalosNode) (talosconfig : String)
      → Keeps I n k k (leave_gracefully env node talosconfig)
  unfolding leave_gracefully try_etcd_leave with_conn
  leave_gracefully-Keeps n k node talosconfig t h = grind arith

  leave_etcd-Keeps :
      (n k : ℕ) (node : TalosNode) (access : String × List String)
      → Keeps I n k k (leave_etcd env node access)
  unfolding leave_etcd
  leave_etcd-Keeps n k node (talosconfig, endpoints) t h = ground (
    arith,
    leave_gracefully-Keeps n k node talosconfig t h,
    force_remove-Keeps n k node talosconfig (filter_exclude endpoints node.spec.node_ip),
    contains-filter_exclude endpoints node.spec.node_ip node.spec.node_ip,
    force_remove-Keeps n k node talosconfig (filter_exclude endpoints node.spec.node_ip)
        (ground (arith, contains-filter_exclude endpoints node.spec.node_ip node.spec.node_ip)) t h,
  )

  pub handle_etcd_leave-Keeps :
      (n k : ℕ) (node : TalosNode) → Keeps I n k k (handle_etcd_leave env node)
  unfolding handle_etcd_leave
  handle_etcd_leave-Keeps n k node t h = grind (arith, load_talosconfig-Keeps, leave_etcd-Keeps)
