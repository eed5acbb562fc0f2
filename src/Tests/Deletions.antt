-- ===== src/Tests/Deletions.antt =====
-- An instance of the theorem on the order of a deletion.
use yk_talos_management.Prelude.{[], ◌∷◌, true, ◌≡◌, refl}
use yk_talos_management.Api.{TalosNode}
use yk_talos_management.Effects.Calls.{empty}
use yk_talos_management.Effects.Environment.{Env}
use yk_talos_management.Node.Deletion.{handle_deletion}
use yk_talos_management.Node.Deletion.Stages.{ordered}
use yk_talos_management.Node.Deletion.Sequence.{handle_deletion-ordered}
use yk_talos_management.Tests.World.{world, node_of, deleting_node}

-- The node is reset as well, and another control plane node stays.
abbrev leaving_node : TalosNode
leaving_node = record deleting_node {
  spec = record (deleting_node.spec) { reset_on_delete = true };
}

abbrev shrinking : Env
shrinking = world leaving_node (leaving_node ∷ node_of "cp2" deleting_node.status.phase [] ∷ []) []

handle_deletion-ordered_example :
    ordered 6 (handle_deletion shrinking leaving_node empty).1.calls ≡ true
handle_deletion-ordered_example = handle_deletion-ordered shrinking leaving_node empty refl
