-- ===== src/Node/Declared/Config.antt =====
-- The metrics of the steps that configure and upgrade a node.
use yk_talos_management.Prelude.{String, List, [], ◌∷◌, Bool, true, false, refl, arith}
use yk_talos_management.Api.{TalosNode, SecretKeySelector}
use yk_talos_management.Effects.Error.{Answer, ok, err}
use yk_talos_management.Effects.Objects.{Connection, Secret}
use yk_talos_management.Effects.Environment.{Env}
use yk_talos_management.Talos.Conditions.{set_condition_status}
use yk_talos_management.Shared.Secrets.{upsert_secret_once, upsert_secret}
use yk_talos_management.Node.Patches.{Patched}
use yk_talos_management.Node.Apply.{
  Prepared, apply_reference, apply_references, prepare, connect, save_node_config, mark_applied,
  deliver, prepare_connection, apply_to, apply_node_config,
}
use yk_talos_management.Node.Upgrade.{
  consume_trigger, send_upgrade, upgrade_over, handle_upgrade, check_upgrade_complete, poll_upgrade,
  finish_upgrade, save_upgraded, set_extensions_up_to_date,
}
use yk_talos_management.Node.Extensions.{
  DesiredImage, create_image, compute_desired_image, persist_schematic, upgrade_to,
  reconcile_version,
}
use yk_talos_management.Node.Declared.{
  Declares, fits-phase_notes, fits-events, retry_on_conflict-Declares,
}
use yk_talos_management.Node.Declared.Leaving.{load_talosconfig-Declares}

module _ (env : Env) where
  upsert_secret_once-Declares :
      (name namespace : String) (fresh : Secret) (updated : Secret → Secret)
      → Declares (upsert_secret_once env name namespace fresh updated)
  unfolding upsert_secret_once
  upsert_secret_once-Declares name namespace fresh updated t = grind arith

  upsert_secret-Declares :
      (name namespace : String) (fresh : Secret) (updated : Secret → Secret)
      → Declares (upsert_secret env name namespace fresh updated)
  unfolding upsert_secret
  upsert_secret-Declares name namespace fresh updated =
      retry_on_conflict-Declares env.retries (upsert_secret_once env name namespace fresh updated)
        (upsert_secret_once-Declares name namespace fresh updated)

  save_node_config-Declares :
      (node : TalosNode) (bytes : String) → Declares (save_node_config env node bytes)
  unfolding save_node_config
  save_node_config-Declares node bytes t = grind (arith, upsert_secret-Declares)

  mark_applied-Declares : (node : TalosNode) → Declares (mark_applied env node)
  unfolding mark_applied set_condition_status
  mark_applied-Declares node t = grind (arith, fits-phase_notes)

  deliver-Declares :
      (node : TalosNode) (p : Prepared) (conn : Connection) → Declares (deliver env node p conn)
  unfolding deliver
  deliver-Declares node p conn t = grind (arith, save_node_config-Declares, mark_applied-Declares)

  apply_references-Declares :
      (namespace : String) (refs : List SecretKeySelector) (p : Patched)
      → Declares (apply_references env namespace refs p)
  unfolding apply_references apply_reference
  apply_references-Declares namespace [] p t = refl
  apply_references-Declares namespace (ref ∷ refs) p t =
      grind (arith, apply_references-Declares namespace refs)

  prepare-Declares : (node : TalosNode) → Declares (prepare env node)
  unfolding prepare
  prepare-Declares node t = grind (arith, apply_references-Declares)

  connect-Declares :
      (node : TalosNode) (first : Bool) (talosconfig : Answer String)
      → Declares (connect env node first talosconfig)
  unfolding connect
  connect-Declares node true (ok tc) t = grind arith
  connect-Declares node true (err e) t = grind arith
  connect-Declares node false (ok tc) t = grind arith
  connect-Declares node false (err e) t = grind arith

  prepare_connection-Declares :
      (node : TalosNode) (first : Bool) → Declares (prepare_connection env node first)
  unfolding prepare_connection
  prepare_connection-Declares node first t = grind (arith, prepare-Declares, connect-Declares)

  apply_to-Declares : (node : TalosNode) (first : Bool) → Declares (apply_to env node first)
  unfolding apply_to
  apply_to-Declares node first t = grind (arith, prepare_connection-Declares, deliver-Declares)

  pub apply_node_config-Declares : (node : TalosNode) → Declares (apply_node_config env node)
  unfolding apply_node_config
  apply_node_config-Declares node t = grind (arith, apply_to-Declares, fits-phase_notes)

  consume_trigger-Declares :
      (node : TalosNode) (image : String) → Declares (consume_trigger env node image)
  unfolding consume_trigger
  consume_trigger-Declares node image t = grind arith

  send_upgrade-Declares :
      (node : TalosNode) (image : String) (conn : Connection)
      → Declares (send_upgrade env node image conn)
  unfolding send_upgrade
  send_upgrade-Declares node image conn t =
      grind (arith, consume_trigger-Declares, fits-phase_notes, fits-events)

  upgrade_over-Declares :
      (node : TalosNode) (image : String) (conn : Connection)
      → Declares (upgrade_over env node image conn)
  unfolding upgrade_over set_condition_status
  upgrade_over-Declares node image conn t =
      grind (arith, send_upgrade-Declares, fits-phase_notes, fits-events)

  pub handle_upgrade-Declares :
      (node : TalosNode) (image : String) → Declares (handle_upgrade env node image)
  unfolding handle_upgrade
  handle_upgrade-Declares node image t = grind (
    arith, load_talosconfig-Declares, upgrade_over-Declares, consume_trigger-Declares, fits-events,
  )

  finish_upgrade-Declares :
      (node : TalosNode) (image tag : String) → Declares (finish_upgrade env node image tag)
  unfolding finish_upgrade save_upgraded set_extensions_up_to_date set_condition_status
  finish_upgrade-Declares node image tag t = grind (arith, fits-phase_notes, fits-events)

  poll_upgrade-Declares :
      (node : TalosNode) (conn : Connection) → Declares (poll_upgrade env node conn)
  unfolding poll_upgrade
  poll_upgrade-Declares node conn t = grind (arith, finish_upgrade-Declares)

  pub check_upgrade_complete-Declares :
      (node : TalosNode) → Declares (check_upgrade_complete env node)
  unfolding check_upgrade_complete
  check_upgrade_complete-Declares node t =
      grind (arith, load_talosconfig-Declares, poll_upgrade-Declares)

  compute_desired_image-Declares : (node : TalosNode) → Declares (compute_desired_image env node)
  unfolding compute_desired_image create_image
  compute_desired_image-Declares node t = grind arith

  persist_schematic-Declares :
      (node : TalosNode) (result : DesiredImage) → Declares (persist_schematic env node result)
  unfolding persist_schematic
  persist_schematic-Declares node result t = grind arith

  upgrade_to-Declares :
      (node : TalosNode) (result : DesiredImage) → Declares (upgrade_to env node result)
  unfolding upgrade_to
  upgrade_to-Declares node result t = grind (arith, handle_upgrade-Declares)

  pub reconcile_version-Declares : (node : TalosNode) → Declares (reconcile_version env node)
  unfolding reconcile_version
  reconcile_version-Declares node t = grind (
    arith, compute_desired_image-Declares, persist_schematic-Declares, upgrade_to-Declares,
    fits-events,
  )
