-- ===== src/Node/Reset/Order.antt =====
-- The history of calls over `handleStandaloneReset` of talosnode_controller.go.
use yk_talos_management.Prelude.{ℕ, suc, String, ◌≡◌, ◌≢◌, arith, string_eq}
use yk_talos_management.Api.{TalosNode}
use yk_talos_management.Effects.Environment.{Env}
use yk_talos_management.Talos.Conditions.{set_condition_status}
use yk_talos_management.History.{Invariant, Keeps, Records}
use yk_talos_management.Prelude.{String-discrete}
use yk_talos_management.Prelude.Dict.{Dict, text_at-insert, insert, text_at}
use yk_talos_management.Talos.Finalizer.{annotation_reset, annotation_last_reset}
use yk_talos_management.Node.Access.Order.{try_reset-Keeps}
use yk_talos_management.Node.Reset.{handle_standalone_reset, forget_config}

pub text_at-last_reset :
    (id : String) (m : Dict String)
    → text_at annotation_last_reset (insert annotation_last_reset id m) ≡ id
unfolding String-discrete
text_at-last_reset id m = text_at-insert annotation_last_reset annotation_last_reset id m

pub text_at-reset :
    (id : String) (m : Dict String)
    → text_at annotation_reset (insert annotation_last_reset id m) ≡ text_at annotation_reset m
unfolding String-discrete
text_at-reset id m = text_at-insert annotation_last_reset annotation_reset id m

module _ (I : Invariant) (env : Env) where
  forget_config-Keeps : (n k : ℕ) (node : TalosNode) → Keeps I n k k (forget_config env node)
  unfolding forget_config set_condition_status
  forget_config-Keeps n k node t h = grind arith

  pub handle_standalone_reset-Keeps :
      (records : Records I env) (n k : ℕ) (node : TalosNode)
      → text_at annotation_reset node.meta.annotations ≢ ""
      → Keeps I n k (suc k) (handle_standalone_reset env node)
  unfolding handle_standalone_reset
  handle_standalone_reset-Keeps records n k node asked t h =
      let id = text_at annotation_reset node.meta.annotations in
      grind (
        arith,
        try_reset-Keeps,
        forget_config-Keeps,
        I.more n k,
        text_at-last_reset id node.meta.annotations,
        text_at-reset id node.meta.annotations,
      )
