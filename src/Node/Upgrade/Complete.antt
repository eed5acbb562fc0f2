-- ===== src/Node/Upgrade/Complete.antt =====
-- About the end of an upgrade in `checkUpgradeComplete` of talosnode_upgrade.go.
use yk_talos_management.Prelude.{
  String, List, ◌∷◌, Bool, true, false, ◌||◌, ◌==◌, ◌&&◌, string_eq, ◌≡◌, arith,
}
use yk_talos_management.Prelude.Dict.{text_at}
use yk_talos_management.Api.{TalosNode, NodePhase, node_phase_eq}
use yk_talos_management.Effects.Error.{Answer, ok, err}
use yk_talos_management.Effects.Objects.{Connection, VersionReply}
use yk_talos_management.Effects.Calls.{Call, Entry, did, failed, Trace}
use yk_talos_management.Effects.Environment.{Env}
use yk_talos_management.Talos.Finalizer.{annotation_last_upgrade}
use yk_talos_management.Talos.Conditions.{set_condition_status}
use yk_talos_management.Node.Version.{version_from_image}
use yk_talos_management.Node.Upgrade.{
  poll_upgrade, finish_upgrade, save_upgraded, set_extensions_up_to_date,
}

-- The last call was a status write, done or failed, of a ready node that runs the version.
abbrev pub is_completion : String → List Entry → Bool
is_completion tag (did (Call.update_node_status n) ∷ rest) =
    n.status.phase == NodePhase.ready && n.status.current_talos_version == tag
is_completion tag (failed (Call.update_node_status n) ∷ rest) =
    n.status.phase == NodePhase.ready && n.status.current_talos_version == tag
is_completion tag _ = false

-- The version that the last upgrade asked for; empty where none is recorded.
abbrev pub expected_version : TalosNode → String
expected_version node = version_from_image (text_at annotation_last_upgrade node.meta.annotations)

abbrev runs : String → Answer TalosNode → Bool
runs tag (ok n) = n.status.current_talos_version == tag
runs tag (err e) = false

module _ (env : Env) (node : TalosNode) (conn : Connection) where
  set_extensions_up_to_date-runs :
      (n : TalosNode) (t : Trace)
      → runs n.status.current_talos_version (set_extensions_up_to_date env n t).0 ≡ true
  unfolding set_extensions_up_to_date set_condition_status
  set_extensions_up_to_date-runs n t = ground arith

  save_upgraded-is_completion :
      (extended : TalosNode) (tag : String) (t : Trace)
      → (extended.status.current_talos_version == tag) ≡ true
      → is_completion tag (save_upgraded env node extended t).1.calls ≡ true
  unfolding save_upgraded
  save_upgraded-is_completion extended tag t h = ground arith

  finish_upgrade-is_completion :
      (image tag : String) (t : Trace)
      → is_completion tag (finish_upgrade env node image tag t).1.calls ≡ true
  unfolding finish_upgrade set_condition_status
  finish_upgrade-is_completion image tag t =
      grind (arith, set_extensions_up_to_date-runs, save_upgraded-is_completion)

  -- When the upgraded node answers with a version, the poll ends with a status write, done or
  -- failed, of the node as ready with that version, exactly when no version is expected or the
  -- version is the expected one.
  pub poll_upgrade-is_completion :
      (version : VersionReply) (t : Trace)
      → env.get_version conn node.spec.node_ip t ≡ ok version
      → is_completion version.tag (poll_upgrade env node conn t).1.calls
        ≡ (expected_version node == "" || version.tag == expected_version node)
  unfolding poll_upgrade
  poll_upgrade-is_completion version t h = grind (arith, finish_upgrade-is_completion)
