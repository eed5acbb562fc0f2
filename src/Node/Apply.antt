-- ===== src/Node/Apply.antt =====
-- `applyConfig` and `saveNodeConfig` of talosnode_controller.go. The source changes the node in
-- place, also on the way to an error: the node comes back beside the error.
pub mod Order
pub mod Laws
pub mod Merging
pub mod References
pub mod Bytes
use yk_talos_management.Prelude.{
  ℕ, String, ◌<>◌, List, [], ◌∷◌, Bool, true, false, not, if◌then◌else◌, Option, none, some,
}
use yk_talos_management.Metrics.Collectors.{Metric}
use yk_talos_management.Prelude.Dict.{lookup}
use yk_talos_management.Api.{TalosNode, NodePhase, NodeRole, SecretKeySelector, cond_true}
use yk_talos_management.Effects.Error.{Error, Answer, ok, err, wrap, errorf}
use yk_talos_management.Effects.Objects.{Connection, Secret}
use yk_talos_management.Effects.Calls.{gauge, normal}
use yk_talos_management.Effects.Monad.{M, pure, raise, tell, try, wrapped, ◌>>=◌, ◌>>◌}
use yk_talos_management.Effects.Environment.{Env}
use yk_talos_management.Effects.Kube.{update_node_status, get_cluster, get_secret, count, now}
use yk_talos_management.Effects.Talos.{dial, dial_insecure, closing, apply_config}
use yk_talos_management.Talos.Conditions.{has_condition}
use yk_talos_management.Shared.Names.{
  cluster_control_plane_name, cluster_worker_name, cluster_talosconfig_name, node_config_name,
}
use yk_talos_management.Shared.Secrets.{secret_key, from_answer, new_secret, upsert_secret}
use yk_talos_management.Node.Status.{
  condition_config_applied, role_text, with_status, note_phase, set_condition,
}
use yk_talos_management.Node.Patches.{Patched, apply_raw_patch}

-- What is sent to the node: the config and the name of the cluster.
pub record Prepared : Type 0 where
  pub config_bytes : String
  pub cluster_name : String
  pub talosconfig : Answer String

module _ (env : Env) where
  -- The loop over `spec.patches`.
  unfoldable pub apply_inline : List String → Patched → Answer Patched
  apply_inline [] p = ok p
  apply_inline (patch ∷ patches) p = elim (apply_raw_patch env patch p) [
    | err e ↦ err (wrap "apply inline patch" e)
    | ok p' ↦ apply_inline patches p'
  ]

  -- One reference of `spec.patchesFrom`.
  unfoldable pub apply_reference : String → SecretKeySelector → Patched → M Patched
  apply_reference namespace ref p = do
    secret ← wrapped ("get patch secret " <> ref.name) (get_secret env namespace ref.name)
    elim (lookup ref.key secret.values) [
      | none ↦ raise (errorf ("patch secret " <> ref.name <> " has no key " <> ref.key))
      | some raw ↦
          wrapped ("apply patch from secret " <> ref.name <> " key " <> ref.key)
            (from_answer (apply_raw_patch env raw p))
    ]

  unfoldable pub apply_references : String → List SecretKeySelector → Patched → M Patched
  apply_references namespace [] p = pure p
  apply_references namespace (ref ∷ refs) p = do
    p' ← apply_reference namespace ref p
    apply_references namespace refs p'

  -- The standalone documents after the config.
  unfoldable pub append_documents : String → List String → String
  append_documents bytes [] = bytes
  append_documents bytes (doc ∷ docs) = append_documents (bytes <> "\n---\n" <> doc <> "\n") docs

  -- The name of the secret with the base config, and its key.
  unfoldable pub base_config : NodeRole → String → String × String
  base_config NodeRole.worker cluster = (cluster_worker_name cluster, "worker.yaml")
  base_config NodeRole.control_plane cluster =
      (cluster_control_plane_name cluster, "controlplane.yaml")

  -- From the cluster to the bytes to send and the talosconfig, which may be missing.
  unfoldable pub prepare : TalosNode → M Prepared
  prepare node = do
    cluster ← wrapped "get cluster" (get_cluster env node.meta.namespace node.spec.cluster_ref)
    let source = base_config node.spec.role cluster.meta.name
    secret ← wrapped "get config secret" (get_secret env node.meta.namespace source.0)
    bytes ← wrapped "read base config" (from_answer (secret_key secret source.1))
    parsed ← wrapped "unmarshal config" (from_answer (env.parse_yaml bytes))
    inline ←
        from_answer (apply_inline node.spec.patches (record { config = parsed; standalone = [] }))
    patched ← apply_references node.meta.namespace node.spec.patches_from inline
    printed ← wrapped "marshal config" (from_answer (env.print_yaml patched.config))
    tc ← try (
        get_secret env node.meta.namespace (cluster_talosconfig_name cluster.meta.name) >>= λ s.
        from_answer (secret_key s "talosconfig"))
    pure (record {
      config_bytes = append_documents printed patched.standalone;
      cluster_name = cluster.meta.name;
      talosconfig = tc;
    })

  -- The first apply goes to a node in maintenance mode, and falls back to mTLS; any other needs
  -- the talosconfig.
  unfoldable pub connect : TalosNode → Bool → Answer String → M Connection
  connect node true talosconfig = do
    r ← try (dial_insecure env node.spec.node_ip)
    elim r [
      | ok conn ↦ pure conn
      | err e ↦ elim talosconfig [
        | ok tc ↦ wrapped "create client" (dial env tc node.spec.node_ip)
        | err missing ↦ raise (wrap "create client" e)
      ]
    ]
  connect node false talosconfig = do
    tc ← wrapped "get talosconfig secret" (from_answer talosconfig)
    wrapped "create client" (dial env tc node.spec.node_ip)

  unfoldable pub save_node_config : TalosNode → String → M (Unit {0})
  save_node_config node config_bytes = do
    tell (
        gauge Metric.node_config_size_bytes
          (node.meta.name
            ∷ node.meta.namespace
            ∷ node.spec.cluster_ref
            ∷ role_text node.spec.role
            ∷ node.spec.node_ip
            ∷ [])
          (env.byte_length config_bytes)
        ∷ [])
    let name = node_config_name node.meta.name
    upsert_secret env name node.meta.namespace
        (new_secret name node.meta.namespace "config.yaml" config_bytes)
        (λ s. record s { values = ("config.yaml", config_bytes) ∷ [] })

  -- The status of a node whose config was applied.
  unfoldable pub mark_applied : TalosNode → M (TalosNode × Answer (Unit {0}))
  mark_applied node = do
    let status = record (node.status) {
      phase = NodePhase.ready;
      message = "Configuration applied";
      retry_count = 0;
    }
    conditioned ←
        set_condition env (with_status node status) condition_config_applied cond_true "Applied"
          "Configuration applied successfully"
    time ← now env
    let stamped =
        with_status conditioned (record (conditioned.status) { last_update_time = some time })
    r ← try (update_node_status env stamped)
    elim r [
      | err e ↦ pure (stamped, err e)
      | ok saved ↦ (do
        note_phase saved NodePhase.applying NodePhase.ready
        count Metric.config_apply_total
            (role_text saved.spec.role ∷ "success" ∷ saved.spec.cluster_ref ∷ [])
        pure (saved, ok tt))
    ]

  -- Over an open connection: the RPC, the saved copy, the status.
  unfoldable pub deliver : TalosNode → Prepared → Connection → M (TalosNode × Answer (Unit {0}))
  deliver node p conn = do
    sent ← try (
        wrapped "apply config"
          (apply_config env conn node.spec.node_ip p.config_bytes p.cluster_name)
        >> wrapped "save node config" (save_node_config node p.config_bytes))
    elim sent [ err e ↦ pure (node, err e) | ok _ ↦ mark_applied node ]

  unfoldable pub prepare_connection : TalosNode → Bool → M (Prepared × Connection)
  prepare_connection node first_apply = do
    p ← prepare node
    conn ← connect node first_apply p.talosconfig
    pure (p, conn)

  -- From the saved phase Applying on.
  unfoldable pub apply_to : TalosNode → Bool → M (TalosNode × Answer (Unit {0}))
  apply_to node first_apply = do
    ready ← try (prepare_connection node first_apply)
    elim ready [ err e ↦ pure (node, err e) | ok (p, conn) ↦ closing conn (deliver node p conn) ]

  unfoldable pub apply_node_config : TalosNode → M (TalosNode × Answer (Unit {0}))
  apply_node_config node = do
    let first_apply = not (has_condition node.status.conditions condition_config_applied cond_true)
    let marked = with_status node (record (node.status) {
      observed_generation = node.meta.generation;
      phase = NodePhase.applying;
    })
    r ← try (update_node_status env marked)
    elim r [
      | err e ↦ pure (marked, err (wrap "update status" e))
      | ok saved ↦ (do
        note_phase saved node.status.phase NodePhase.applying
        apply_to saved first_apply)
    ]
