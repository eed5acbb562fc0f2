-- ===== src/Node/Apply/Bytes.antt =====
-- What `applyConfig` of talosnode_controller.go sends to a node.
use yk_talos_management.Prelude.{String, List, [], ◌++◌, ◌≡◌, ◌∙◌, sym, ap, arith}
use yk_talos_management.Prelude.Dict.{Dict, text_at}
use yk_talos_management.Api.{TalosNode, TalosCluster}
use yk_talos_management.Api.Yaml.{Fields}
use yk_talos_management.Effects.Error.{ok}
use yk_talos_management.Effects.Objects.{Secret}
use yk_talos_management.Effects.Calls.{Trace}
use yk_talos_management.Effects.Monad.{M, pure, try, wrapped, ◌>>=◌}
use yk_talos_management.Effects.Monad.Laws.{>>=-ok, wrapped-ok}
use yk_talos_management.Effects.Environment.{Env}
use yk_talos_management.Effects.Kube.{get_cluster, get_secret}
use yk_talos_management.Shared.Names.{cluster_talosconfig_name}
use yk_talos_management.Shared.Secrets.{secret_key, from_answer}
use yk_talos_management.Node.Patches.{Patched}
use yk_talos_management.Node.Apply.{
  Prepared, apply_inline, apply_references, append_documents, base_config, prepare,
}
use yk_talos_management.Node.Patches.View.{View}
use yk_talos_management.Node.Apply.References.{
  referenced, apply_references-raws, apply_inline-append,
}

module _ (env : Env) (node : TalosNode) (values : String → Dict String)
    (reads : (name : String) (s : Secret) (t : Trace)
      → env.get_secret node.meta.namespace name t ≡ ok s
      → s.values ≡ values name) where
  -- All patches of the node, in the order in which they are applied.
  abbrev pub patches : List String
  patches =
      node.spec.patches ++ referenced env node.meta.namespace values reads node.spec.patches_from

  -- The base config of the node's role in the secrets of a cluster.
  abbrev pub base_text : String → String
  base_text cluster =
      let source = base_config env node.spec.role cluster in text_at source.1 (values source.0)

  secret_key-text :
      (s : Secret) (key text : String) → secret_key s key ≡ ok text → text ≡ text_at key s.values
  unfolding secret_key
  secret_key-text s key text h = grind arith

  -- All patches of the node can be applied in order to the base, and this is what is sent.
  abbrev IsApplied : Fields → String → Type 0
  IsApplied base bytes =
      (p : Patched) × (printed : String) × (apply_inline env patches
          (record { config = base; standalone = [] })
        ≡ ok p)
      × (env.print_yaml p.config ≡ ok printed)
      × (bytes ≡ append_documents env printed p.standalone)

  abbrev IsFrom : Prepared → Type 0
  IsFrom prepared =
      (base : Fields) × (env.parse_yaml (base_text prepared.cluster_name) ≡ ok base)
      × IsApplied base prepared.config_bytes

  -- The rest of `prepare` after the patches.
  abbrev finish : TalosCluster → Patched → M Prepared
  finish cluster patched = do
    printed ← wrapped "marshal config" (from_answer (env.print_yaml patched.config))
    tc ← try (
        get_secret env node.meta.namespace (cluster_talosconfig_name cluster.meta.name) >>= λ s.
        from_answer (secret_key s "talosconfig"))
    pure (record {
      config_bytes = append_documents env printed patched.standalone;
      cluster_name = cluster.meta.name;
      talosconfig = tc;
    })

  -- The rest of `prepare` after the base config.
  abbrev patch_base : TalosCluster → Fields → M Prepared
  patch_base cluster parsed = do
    inline ←
        from_answer
          (apply_inline env node.spec.patches (record { config = parsed; standalone = [] }))
    patched ← apply_references env node.meta.namespace node.spec.patches_from inline
    finish cluster patched

  finish-name :
      (cluster : TalosCluster) (patched : Patched) (prepared : Prepared) (t : Trace)
      → (finish cluster patched t).0 ≡ ok prepared
      → prepared.cluster_name ≡ cluster.meta.name
  finish-name cluster patched prepared t h = grind arith

  finish-bytes :
      (cluster : TalosCluster) (patched : Patched) (prepared : Prepared) (printed : String)
      (t : Trace)
      → env.print_yaml patched.config ≡ ok printed
      → (finish cluster patched t).0 ≡ ok prepared
      → prepared.config_bytes ≡ append_documents env printed patched.standalone
  finish-bytes cluster patched prepared printed t p h = grind arith

  patch_base-name :
      (cluster : TalosCluster) (base : Fields) (prepared : Prepared) (t : Trace)
      → (patch_base cluster base t).0 ≡ ok prepared
      → prepared.cluster_name ≡ cluster.meta.name
  patch_base-name cluster base prepared t h =
      >>=-ok
        (from_answer
          (apply_inline env node.spec.patches (record { config = base; standalone = [] })))
        _ prepared t h
        (λ inline i h1.
          >>=-ok (apply_references env node.meta.namespace node.spec.patches_from inline)
            (finish cluster) prepared t h1
            (λ patched r h2. finish-name cluster patched prepared _ h2))

  patch_base-IsApplied :
      (cluster : TalosCluster) (base : Fields) (prepared : Prepared) (t : Trace)
      → (patch_base cluster base t).0 ≡ ok prepared
      → IsApplied base prepared.config_bytes
  patch_base-IsApplied cluster base prepared t h =
      let namespace = node.meta.namespace in
      let refs = node.spec.patches_from in
      let fresh : Patched = record { config = base; standalone = [] } in
      >>=-ok (from_answer (apply_inline env node.spec.patches fresh)) _ prepared t h (λ inline i h1.
        >>=-ok (apply_references env namespace refs inline) (finish cluster) prepared t h1
          (λ patched r h2.
            let t2 = (apply_references env namespace refs inline t).1 in
            >>=-ok (wrapped "marshal config" (from_answer (env.print_yaml patched.config))) _
              prepared t2 h2
              (λ printed w h3.
                let print =
                  wrapped-ok "marshal config" (from_answer (env.print_yaml patched.config)) printed
                    t2 w in
                (
                  patched,
                  printed,
                  apply_inline-append env node.spec.patches
                      (referenced env namespace values reads refs) fresh inline patched i
                      (apply_references-raws env namespace values reads refs inline patched t r),
                  print,
                  finish-bytes cluster patched prepared printed t2 print h2,
                ))))

  get_secret-values :
      (name : String) (s : Secret) (t : Trace)
      → (wrapped "get config secret" (get_secret env node.meta.namespace name) t).0 ≡ ok s
      → s.values ≡ values name
  get_secret-values name s t h = grind (arith, reads)

  base_text-read :
      (cluster : String) (s : Secret) (bytes : String) (t t' : Trace)
      → let source = base_config env node.spec.role cluster in
        (wrapped "get config secret" (get_secret env node.meta.namespace source.0) t).0 ≡ ok s
        → (wrapped "read base config" (from_answer (secret_key s source.1)) t').0 ≡ ok bytes
        → base_text cluster ≡ bytes
  base_text-read cluster s bytes t t' g b =
      let source = base_config env node.spec.role cluster in
      sym (
        secret_key-text s source.1 bytes
          (wrapped-ok "read base config" (from_answer (secret_key s source.1)) bytes t' b)
        ∙ ap (text_at source.1) (get_secret-values source.0 s t g))

  -- If a config is prepared, it is the base config of the node's role with all patches of the
  -- node, the inline ones first, then those of the references, and the documents that are not
  -- merged follow it. The secrets of the namespace are taken to stay as they are.
  pub prepare-IsFrom :
      (prepared : Prepared) (t : Trace) → (prepare env node t).0 ≡ ok prepared → IsFrom prepared
  unfolding prepare
  prepare-IsFrom prepared t h =
      let namespace = node.meta.namespace in
      >>=-ok (wrapped "get cluster" (get_cluster env namespace node.spec.cluster_ref)) _ prepared t
        h
        (λ cluster c h1.
          let source = base_config env node.spec.role cluster.meta.name in
          >>=-ok (wrapped "get config secret" (get_secret env namespace source.0)) _ prepared _ h1
            (λ secret s h2.
              >>=-ok (wrapped "read base config" (from_answer (secret_key secret source.1))) _
                prepared _ h2
                (λ bytes b h3.
                  >>=-ok (wrapped "unmarshal config" (from_answer (env.parse_yaml bytes)))
                    (patch_base cluster) prepared _ h3
                    (λ base p h4.
                      let parsed =
                        wrapped-ok "unmarshal config" (from_answer (env.parse_yaml bytes)) base t
                          p in
                      let name = patch_base-name cluster base prepared _ h4 in
                      let text = base_text-read cluster.meta.name secret bytes _ t s b in
                      (
                        base,
                        ap (λ (x : String). env.parse_yaml (base_text x)) name
                            ∙ ap env.parse_yaml text
                            ∙ parsed,
                        patch_base-IsApplied cluster base prepared _ h4,
                      )))))
