-- ===== src/Node/Reset.antt =====
-- `handleStandaloneReset` of internal/controller/talosnode_controller.go.
pub mod Order
use yk_talos_management.Prelude.{String, ◌<>◌, List, [], ◌∷◌, true}
use yk_talos_management.Prelude.Dict.{text_at}
use yk_talos_management.Api.{TalosNode, NodePhase, cond_false}
use yk_talos_management.Effects.Error.{Error, Answer, ok, err}
use yk_talos_management.Effects.Objects.{Result}
use yk_talos_management.Effects.Calls.{normal, warning}
use yk_talos_management.Effects.Monad.{M, pure, try, wrapped, ◌>>=◌, ◌>>◌}
use yk_talos_management.Effects.Environment.{Env}
use yk_talos_management.Effects.Kube.{update_node_status, emit_event}
use yk_talos_management.Talos.Finalizer.{annotation_reset, annotation_last_reset}
use yk_talos_management.Shared.Constants.{finished}
use yk_talos_management.Shared.Helpers.{patch_annotations}
use yk_talos_management.Node.Status.{
  condition_config_applied, with_phase, note_phase, set_condition,
}
use yk_talos_management.Node.Access.{try_reset}

module _ (env : Env) where
  -- After a successful reset: the config counts as not applied.
  unfoldable pub forget_config : TalosNode → M Result
  forget_config node = do
    cleared ←
        set_condition env node condition_config_applied cond_false "Reset"
          "Node was reset; waiting for config re-apply"
    note_phase cleared cleared.status.phase NodePhase.pending
    try (update_node_status env (with_phase cleared NodePhase.pending))
    pure finished

  unfoldable pub handle_standalone_reset : TalosNode → M Result
  unfolding patch_annotations
  handle_standalone_reset node = do
    let reset_id = text_at annotation_reset node.meta.annotations
    patched ←
        wrapped "set last-reset annotation"
          (patch_annotations env node ((annotation_last_reset, reset_id) ∷ []) [])
    emit_event env normal "NodeResetTriggered" "Node reset triggered via annotation"
    r ← try (try_reset env patched true)
    elim r [
      | err e ↦ (do emit_event env warning "NodeResetFailed" e.message; pure finished)
      | ok _ ↦ (do
        emit_event env normal "NodeResetComplete"
            "Node reset successfully; config will be re-applied on next reconcile"
        forget_config patched)
    ]
