-- ===== src/Node/Extensions/Settled.antt =====
-- What follows the end of an upgrade: `checkUpgradeComplete` of talosnode_upgrade.go and
-- `reconcileVersion` of talosnode_extensions.go.
use mathlib.Core.Path.{subst}
use yk_talos_management.Prelude.{
  String, ◌<>◌, List, [], ◌∷◌, string_eq, ◌≡◌, ◌≢◌, ◌⊎◌, inl, inr, ap, sym, refl, arith,
  String-discrete,
}
use yk_talos_management.Prelude.Dict.{text_at}
use yk_talos_management.Api.{TalosNode}
use yk_talos_management.Effects.Error.{ok}
use yk_talos_management.Effects.Objects.{Connection, VersionReply}
use yk_talos_management.Effects.Calls.{Call, Entry, did, Trace}
use yk_talos_management.Effects.Environment.{Env}
use yk_talos_management.Effects.Talos.{get_version}
use yk_talos_management.Talos.Finalizer.{annotation_last_upgrade}
use yk_talos_management.Talos.Conditions.{set_condition_status}
use yk_talos_management.Node.Status.{with_status}
use yk_talos_management.Node.Version.{normalize_version}
use yk_talos_management.Node.Upgrade.{
  poll_upgrade, finish_upgrade, save_upgraded, set_extensions_up_to_date,
}
use yk_talos_management.Node.Extensions.{
  DesiredImage, go_on, compute_desired_image, persist_schematic, upgrade_to, reconcile_version,
}
use yk_talos_management.Node.Extensions.Canonical.{canonical_extensions}
use yk_talos_management.Node.Extensions.Cache.{
  current_schematic, last_extensions, reused, compute_desired_image-hit,
}

-- The schematic of the extensions that the spec lists, if any, is known.
abbrev pub IsCached : TalosNode → Type 0
IsCached n =
    (n.spec.system_extensions ≡ [])
    ⊎ ((n.spec.system_extensions ≢ [])
        × (last_extensions n ≡ canonical_extensions n.spec.system_extensions)
        × (current_schematic n ≢ ""))

module _ (env : Env) where
  upgrade_to_quiet :
      (n : TalosNode) (result : DesiredImage) (t : Trace)
      → result.new_schematic_id ≡ ""
      → normalize_version n.spec.talos_version ≡ normalize_version n.status.current_talos_version
      → upgrade_to env n result t ≡ (ok (go_on n), t)
  unfolding upgrade_to
  upgrade_to_quiet n result t d v = grind arith

  compute_desired_image_cached :
      (n : TalosNode) (t : Trace)
      → IsCached n
      → (r : DesiredImage) × (r.new_schematic_id ≡ "")
        × ((compute_desired_image env n t).0 ≡ ok r)
        × ((compute_desired_image env n t).1.calls ≡ t.calls)
  unfolding compute_desired_image
  compute_desired_image_cached n t (inl e) = (
    reused ("ghcr.io/siderolabs/installer:" <> normalize_version n.spec.talos_version),
    refl,
    rw e refl,
    rw e refl,
  )
  compute_desired_image_cached n t (inr h) =
      let hit = compute_desired_image-hit env n t h.0 h.1 h.2 in (reused _, refl, hit.0, hit.1)

  persist_schematic_quiet :
      (n : TalosNode) (result : DesiredImage) (t : Trace)
      → result.new_schematic_id ≡ ""
      → persist_schematic env n result t ≡ (ok n, t)
  unfolding persist_schematic String-discrete
  persist_schematic_quiet n result t d = rw d refl

  -- A node at the version that its spec asks for, with its extensions.
  reconcile_version_quiet :
      (n : TalosNode) (t : Trace)
      → IsCached n
      → normalize_version n.spec.talos_version ≡ normalize_version n.status.current_talos_version
      → ((reconcile_version env n t).0 ≡ ok (go_on n))
        × ((reconcile_version env n t).1.calls ≡ t.calls)
  unfolding reconcile_version
  reconcile_version_quiet n t c v =
      let computed = compute_desired_image_cached n t c in
      grind (arith, computed.1, computed.2, computed.3, persist_schematic_quiet, upgrade_to_quiet)

  set_extensions_up_to_date-object :
      (n n' : TalosNode) (t : Trace)
      → (set_extensions_up_to_date env n t).0 ≡ ok n'
      → with_status n' n.status ≡ n
  unfolding set_extensions_up_to_date set_condition_status
  set_extensions_up_to_date-object n n' t h = ground arith

  set_extensions_up_to_date-version :
      (n n' : TalosNode) (t : Trace)
      → (set_extensions_up_to_date env n t).0 ≡ ok n'
      → n'.status.current_talos_version ≡ n.status.current_talos_version
  unfolding set_extensions_up_to_date set_condition_status
  set_extensions_up_to_date-version n n' t h = ground arith

  save_upgraded-object :
      (n extended x : TalosNode) (rest : List Entry) (t : Trace)
      → (save_upgraded env n extended t).1.calls ≡ did (Call.update_node_status x) ∷ rest
      → with_status x extended.status ≡ extended
  unfolding save_upgraded
  save_upgraded-object n extended x rest t h = grind arith

  save_upgraded-version :
      (n extended x : TalosNode) (rest : List Entry) (t : Trace)
      → (save_upgraded env n extended t).1.calls ≡ did (Call.update_node_status x) ∷ rest
      → x.status.current_talos_version ≡ extended.status.current_talos_version
  unfolding save_upgraded
  save_upgraded-version n extended x rest t h = grind arith

  finish_upgrade-object :
      (n x : TalosNode) (image tag : String) (rest : List Entry) (t : Trace)
      → (finish_upgrade env n image tag t).1.calls ≡ did (Call.update_node_status x) ∷ rest
      → with_status x n.status ≡ n
  unfolding finish_upgrade set_extensions_up_to_date set_condition_status
  finish_upgrade-object n x image tag rest t h = grind (arith, save_upgraded-object)

  finish_upgrade-version :
      (n x : TalosNode) (image tag : String) (rest : List Entry) (t : Trace)
      → (finish_upgrade env n image tag t).1.calls ≡ did (Call.update_node_status x) ∷ rest
      → x.status.current_talos_version ≡ tag
  unfolding finish_upgrade set_extensions_up_to_date set_condition_status
  finish_upgrade-version n x image tag rest t h = grind (arith, save_upgraded-version)

  poll_upgrade-object :
      (n x : TalosNode) (conn : Connection) (version : VersionReply) (rest : List Entry) (t : Trace)
      → env.get_version conn n.spec.node_ip t ≡ ok version
      → (poll_upgrade env n conn t).1.calls ≡ did (Call.update_node_status x) ∷ rest
      → with_status x n.status ≡ n
  unfolding poll_upgrade
  poll_upgrade-object n x conn version rest t g h = grind (
    arith,
    finish_upgrade-object n x (text_at annotation_last_upgrade n.meta.annotations) version.tag rest
        (get_version env conn n.spec.node_ip t).1,
  )

  poll_upgrade-version :
      (n x : TalosNode) (conn : Connection) (version : VersionReply) (rest : List Entry) (t : Trace)
      → env.get_version conn n.spec.node_ip t ≡ ok version
      → (poll_upgrade env n conn t).1.calls ≡ did (Call.update_node_status x) ∷ rest
      → x.status.current_talos_version ≡ version.tag
  unfolding poll_upgrade
  poll_upgrade-version n x conn version rest t g h = grind (
    arith,
    finish_upgrade-version n x (text_at annotation_last_upgrade n.meta.annotations) version.tag rest
        (get_version env conn n.spec.node_ip t).1,
  )

  -- If the poll of an upgrade ends with the status of a node saved, and the node answered with the
  -- version that its spec asks for, then no upgrade follows for the node as it was saved: from
  -- `reconcileVersion` the reconcile goes on with it, and no call is made. The spec is taken to
  -- list no extensions, or those whose schematic is known.
  pub poll_upgrade-settled :
      (n x : TalosNode) (conn : Connection) (version : VersionReply) (rest : List Entry)
      (t t' : Trace)
      → env.get_version conn n.spec.node_ip t ≡ ok version
      → normalize_version n.spec.talos_version ≡ normalize_version version.tag
      → IsCached n
      → (poll_upgrade env n conn t).1.calls ≡ did (Call.update_node_status x) ∷ rest
      → ((reconcile_version env x t').0 ≡ ok (go_on x))
        × ((reconcile_version env x t').1.calls ≡ t'.calls)
  poll_upgrade-settled n x conn version rest t t' g v c h =
      let same = poll_upgrade-object n x conn version rest t g h in
      let spec = ap (λ m. m.spec) same in
      let cached : IsCached (with_status x n.status) = subst (λ m. IsCached m) (sym same) c in
      reconcile_version_quiet x t' cached
        (rw (spec, poll_upgrade-version n x conn version rest t g h) v)
