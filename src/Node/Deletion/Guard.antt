-- ===== src/Node/Deletion/Guard.antt =====
-- The loop of `isLastControlPlane` of talosnode_controller.go.
use yk_talos_management.Prelude.{
  List, [], ◌∷◌, Bool, true, false, ◌==◌, ◌!=◌, string_eq, if◌then◌else◌, none, some,
}
use yk_talos_management.Api.{TalosNode, NodeRole, node_role_eq}

abbrev pub is_terminating : TalosNode → Bool
is_terminating n = elim (n.meta.deletion_timestamp) [ none ↦ false | some time ↦ true ]

-- The list holds no other control plane node of the same cluster that is not terminating.
unfoldable pub no_other_control_plane : TalosNode → List TalosNode → Bool
no_other_control_plane node [] = true
no_other_control_plane node (n ∷ items) =
    let rest = no_other_control_plane node items in
    if n.meta.name == node.meta.name
    then rest
    else if n.spec.cluster_ref != node.spec.cluster_ref
    then rest
    else if n.spec.role != NodeRole.control_plane
    then rest
    else if is_terminating n
    then rest
    else false
