-- ===== src/Node/Upgrade.antt =====
-- internal/controller/talosnode_upgrade.go: `handleUpgrade` and `checkUpgradeComplete`. The part of
-- each function that runs over an open connection is a function of its own.
pub mod Laws
pub mod Complete
pub mod Order
use yk_talos_management.Prelude.{
  ℕ, String, ◌<>◌, List, [], ◌∷◌, Bool, true, false, ◌==◌, ◌!=◌, ◌&&◌, string_eq, if◌then◌else◌,
  Option, none, some, length,
}
use yk_talos_management.Metrics.Collectors.{Metric}
use yk_talos_management.Prelude.Dict.{Dict, text_at}
use yk_talos_management.Api.{TalosNode, NodePhase, cond_true, cond_false}
use yk_talos_management.Effects.Error.{Error, Answer, ok, err, errorf}
use yk_talos_management.Effects.Objects.{Connection, Result, VersionReply}
use yk_talos_management.Effects.Calls.{normal, warning}
use yk_talos_management.Effects.Monad.{M, pure, raise, try, wrapped, ◌>>=◌, ◌>>◌}
use yk_talos_management.Effects.Environment.{Env}
use yk_talos_management.Effects.Kube.{update_node_status, emit_event, count, now}
use yk_talos_management.Effects.Talos.{dial, closing, get_version, upgrade}
use yk_talos_management.Talos.Finalizer.{annotation_last_upgrade}
use yk_talos_management.Shared.Constants.{
  drift_check_interval, upgrade_check_interval, finished, requeue,
}
use yk_talos_management.Shared.Helpers.{annotated, patch_annotations}
use yk_talos_management.Node.Status.{
  condition_talos_version_up_to_date, condition_extensions_up_to_date, with_status, with_phase,
  with_conditions, note_phase, drift_enabled, set_condition,
}
use yk_talos_management.Node.Version.{version_from_image, is_downgrade}
use yk_talos_management.Node.Access.{load_talosconfig}

module _ (env : Env) where
  -- `if len(node.Spec.SystemExtensions) > 0 { setExtensionsUpToDate(node) }`
  unfoldable pub set_extensions_up_to_date : TalosNode → M TalosNode
  set_extensions_up_to_date node = elim (node.spec.system_extensions) [
    | [] ↦ pure node
    | x ∷ extensions ↦
        set_condition env
          (with_status node (record (node.status) { installed_extensions = x ∷ extensions }))
          condition_extensions_up_to_date cond_true "Installed"
          (env.decimal (length (x ∷ extensions)) <> " extension(s) installed and up to date")
  ]

  -- The trigger is consumed: `last-upgrade` becomes the image. A failed patch is only logged, and
  -- the node in memory is the annotated one then.
  unfoldable pub consume_trigger : TalosNode → String → M TalosNode
  unfolding patch_annotations
  consume_trigger node image = do
    let set : Dict String = (annotation_last_upgrade, image) ∷ []
    r ← try (patch_annotations env node set [])
    elim r [ ok patched ↦ pure patched | err e ↦ pure (annotated node set []) ]

  -- After the phase is saved: the RPC, and the trigger.
  unfoldable pub send_upgrade : TalosNode → String → Connection → M Result
  send_upgrade node image conn = do
    r ← try (upgrade env conn node.spec.node_ip image)
    elim r [
      | err e ↦ (do
        emit_event env warning "NodeUpgradeFailed" ("upgrade RPC failed: " <> e.message)
        count Metric.node_upgrade_total ("error" ∷ node.spec.cluster_ref ∷ [])
        patched ← consume_trigger node image
        saved ← try (update_node_status env (with_phase patched NodePhase.error))
        elim saved [
          | err e ↦ pure finished
          | ok node' ↦ (do note_phase node' NodePhase.upgrading NodePhase.error; pure finished)
        ])
      | ok _ ↦ (do consume_trigger node image; pure (requeue upgrade_check_interval))
    ]

  -- From the version of the node on.
  unfoldable pub upgrade_over : TalosNode → String → Connection → M Result
  upgrade_over node image conn = do
    r ← try (get_version env conn node.spec.node_ip)
    elim r [
      | err e ↦ pure (requeue upgrade_check_interval)
      | ok version ↦
          if version.mode == "container"
          then (do
            emit_event env warning "UpgradeSkipped" (
                "upgrade skipped: node " <> node.spec.node_ip
                <> " is in container mode (Talos container nodes do not support upgrades)")
            count Metric.node_upgrade_total ("skipped" ∷ node.spec.cluster_ref ∷ [])
            pure finished)
          else (do
            emit_event env normal "NodeUpgradeTriggered" ("Upgrading Talos to " <> image)
            marked ←
                set_condition env (with_phase node NodePhase.upgrading)
                  condition_talos_version_up_to_date cond_false "Upgrading"
                  ("Upgrading Talos to " <> version_from_image image)
            saved ← wrapped "update phase to Upgrading" (update_node_status env marked)
            note_phase saved node.status.phase NodePhase.upgrading
            send_upgrade saved image conn)
    ]

  unfoldable pub handle_upgrade : TalosNode → String → M Result
  handle_upgrade node image =
      let target_version = version_from_image image in
      if target_version == ""
      then (do
        emit_event env warning "UpgradeInvalidImage" (
            "upgrade skipped: image " <> image
            <> " has no version tag (expected format: registry/installer:vX.Y.Z)")
        pure finished)
      else if is_downgrade env node.status.current_talos_version target_version
      then (do
        emit_event env warning "DowngradeBlocked" (
            "downgrade from " <> node.status.current_talos_version <> " to " <> target_version
            <> " is not allowed; set the annotation to a newer version")
        count Metric.node_upgrade_total ("blocked" ∷ node.spec.cluster_ref ∷ [])
        consume_trigger node image
        pure finished)
      else (do
        loaded ← wrapped "load talosconfig" (load_talosconfig env node)
        elim loaded [
          | none ↦ (do
            emit_event env warning "UpgradeWaiting"
                ("upgrade to " <> image <> " pending: talosconfig or cluster secret not found")
            pure (requeue upgrade_check_interval))
          | some (talosconfig, endpoints) ↦ (do
            dialed ← try (dial env talosconfig node.spec.node_ip)
            elim dialed [
              | err e ↦ pure (requeue upgrade_check_interval)
              | ok conn ↦ closing conn (upgrade_over node image conn)
            ])
        ])

  -- The end of `checkUpgradeComplete`: the phase Ready is saved, with what was set before.
  unfoldable pub save_upgraded : TalosNode → TalosNode → M Result
  save_upgraded node extended = do
    time ← now env
    let ready = record (extended.status) { phase = NodePhase.ready; last_update_time = some time }
    saved ←
        wrapped "update post-upgrade status" (update_node_status env (with_status extended ready))
    note_phase saved node.status.phase NodePhase.ready
    pure (if drift_enabled saved then requeue drift_check_interval else finished)

  -- `checkUpgradeComplete` once the node answers with its version.
  unfoldable pub finish_upgrade : TalosNode → String → String → M Result
  finish_upgrade node image tag = do
    emit_event env normal "NodeUpgradeComplete"
        ("Talos upgraded successfully to " <> image <> " (version " <> tag <> ")")
    count Metric.node_upgrade_total ("success" ∷ node.spec.cluster_ref ∷ [])
    upgraded ←
        set_condition env (with_status node (record (node.status) { current_talos_version = tag }))
          condition_talos_version_up_to_date cond_true "Upgraded"
          ("Talos version " <> tag <> " installed")
    extended ← set_extensions_up_to_date upgraded
    save_upgraded node extended

  unfoldable pub poll_upgrade : TalosNode → Connection → M Result
  poll_upgrade node conn = do
    let image = text_at annotation_last_upgrade node.meta.annotations
    let expected = version_from_image image
    r ← try (get_version env conn node.spec.node_ip)
    elim r [
      | err e ↦ pure (requeue upgrade_check_interval)
      | ok version ↦
          if expected != "" && version.tag != expected
          then pure (requeue upgrade_check_interval)
          else finish_upgrade node image version.tag
    ]

  unfoldable pub check_upgrade_complete : TalosNode → M Result
  check_upgrade_complete node = do
    loaded ← wrapped "load talosconfig" (load_talosconfig env node)
    elim loaded [
      | none ↦ pure (requeue upgrade_check_interval)
      | some (talosconfig, endpoints) ↦ (do
        dialed ← try (dial env talosconfig node.spec.node_ip)
        elim dialed [
          | err e ↦ pure (requeue upgrade_check_interval)
          | ok conn ↦ closing conn (poll_upgrade node conn)
        ])
    ]
