-- ===== src/Node/Access/Order.antt =====
-- The history of calls over `loadTalosconfig` and `tryReset` of talosnode_controller.go.
use yk_talos_management.Prelude.{ℕ, suc, String, true, false, arith, string_eq}
use yk_talos_management.Api.{TalosNode}
use yk_talos_management.Effects.Calls.{Trace}
use yk_talos_management.Effects.Environment.{Env}
use yk_talos_management.History.{Invariant, Keeps}
use yk_talos_management.Node.Access.{load_talosconfig, with_conn, try_reset}

module _ (I : Invariant) (env : Env) where
  pub load_talosconfig-Keeps :
      (n k : ℕ) (node : TalosNode) → Keeps I n k k (load_talosconfig env node)
  unfolding load_talosconfig
  load_talosconfig-Keeps n k node t h = grind arith

  load_talosconfig-recorded :
      (node : TalosNode) (ip : String) (t : Trace)
      → I.recorded ip t.calls
      → I.recorded ip (load_talosconfig env node t).1.calls
  unfolding load_talosconfig
  load_talosconfig-recorded node ip t h = grind arith

  pub try_reset-Keeps :
      (n k : ℕ) (node : TalosNode) (t : Trace)
      → I.holds n k t.calls
      → I.recorded node.spec.node_ip t.calls
      → I.holds n (suc k) (try_reset env node true t).1.calls
  unfolding try_reset with_conn
  try_reset-Keeps n k node t h a =
      grind (arith, load_talosconfig-Keeps, load_talosconfig-recorded node node.spec.node_ip t a)

  -- A reset that is not graceful asks for nothing.
  pub try_reset_forced-Keeps :
      (n k : ℕ) (node : TalosNode) → Keeps I n k (suc k) (try_reset env node false)
  unfolding try_reset with_conn
  try_reset_forced-Keeps n k node t h = grind (arith, load_talosconfig-Keeps)
