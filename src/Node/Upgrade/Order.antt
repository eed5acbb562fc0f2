-- ===== src/Node/Upgrade/Order.antt =====
-- The history of calls over `handleUpgrade` and `checkUpgradeComplete`.
use yk_talos_management.Prelude.{ℕ, suc, String, true, ◌≡◌, arith, string_eq}
use yk_talos_management.Api.{TalosNode}
use yk_talos_management.Effects.Objects.{Connection}
use yk_talos_management.Effects.Calls.{Trace}
use yk_talos_management.Effects.Environment.{Env}
use yk_talos_management.Talos.Conditions.{set_condition_status}
use yk_talos_management.History.{Invariant, Keeps}
use yk_talos_management.Safety.{upgrade_announced}
use yk_talos_management.Node.Access.Order.{load_talosconfig-Keeps}
use yk_talos_management.Node.Upgrade.{
  consume_trigger, send_upgrade, upgrade_over, handle_upgrade, check_upgrade_complete, poll_upgrade,
  finish_upgrade, save_upgraded, set_extensions_up_to_date,
}

module _ (I : Invariant) (env : Env) where
  send_upgrade-Keeps :
      (n k : ℕ) (node : TalosNode) (image : String) (conn : Connection) (t : Trace)
      → I.holds n k t.calls
      → upgrade_announced t.calls ≡ true
      → I.holds n (suc k) (send_upgrade env node image conn t).1.calls
  unfolding send_upgrade consume_trigger
  send_upgrade-Keeps n k node image conn t h a = grind arith

  upgrade_over-Keeps :
      (n k : ℕ) (node : TalosNode) (image : String) (conn : Connection)
      → Keeps I n k (suc k) (upgrade_over env node image conn)
  unfolding upgrade_over set_condition_status
  upgrade_over-Keeps n k node image conn t h = grind (arith, send_upgrade-Keeps)

  consume_trigger-Keeps :
      (n k : ℕ) (node : TalosNode) (image : String) → Keeps I n k k (consume_trigger env node image)
  unfolding consume_trigger
  consume_trigger-Keeps n k node image t h = grind arith

  pub handle_upgrade-Keeps :
      (n k : ℕ) (node : TalosNode) (image : String)
      → Keeps I n k (suc k) (handle_upgrade env node image)
  unfolding handle_upgrade
  handle_upgrade-Keeps n k node image t h =
      grind (arith, load_talosconfig-Keeps, upgrade_over-Keeps, consume_trigger-Keeps, I.more n k)

  finish_upgrade-Keeps :
      (n k : ℕ) (node : TalosNode) (image tag : String)
      → Keeps I n k k (finish_upgrade env node image tag)
  unfolding finish_upgrade save_upgraded set_extensions_up_to_date set_condition_status
  finish_upgrade-Keeps n k node image tag t h = grind arith

  poll_upgrade-Keeps :
      (n k : ℕ) (node : TalosNode) (conn : Connection) → Keeps I n k k (poll_upgrade env node conn)
  unfolding poll_upgrade
  poll_upgrade-Keeps n k node conn t h = grind (arith, finish_upgrade-Keeps)

  pub check_upgrade_complete-Keeps :
      (n k : ℕ) (node : TalosNode) → Keeps I n k k (check_upgrade_complete env node)
  unfolding check_upgrade_complete
  check_upgrade_complete-Keeps n k node t h =
      grind (arith, load_talosconfig-Keeps, poll_upgrade-Keeps)
