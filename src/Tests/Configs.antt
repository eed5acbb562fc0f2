-- ===== src/Tests/Configs.antt =====
-- An instance about the config that is sent to a node.
use yk_talos_management.Prelude.{String, [], ◌∷◌, ◌==◌, string_eq, if◌then◌else◌}
use yk_talos_management.Prelude.Dict.{Dict}
use yk_talos_management.Api.{TalosNode, NodePhase}
use yk_talos_management.Api.Yaml.{Fields, field, end, text, object}
use yk_talos_management.Effects.Error.{ok}
use yk_talos_management.Effects.Environment.{Env}
use yk_talos_management.Node.Apply.{Prepared}
use yk_talos_management.Node.Apply.Bytes.{patches}
use yk_talos_management.Tests.World.{world, secret, node_of}

-- A node with a patch, a document, and a patch from a secret.
abbrev patched_node : TalosNode
patched_node =
    let n = node_of "cp1" NodePhase.pending [] in
    record n {
      spec = record (n.spec) {
        patches = "patch" ∷ "document" ∷ [];
        patches_from = record { name = "extra"; key = "extra.yaml" } ∷ [];
      };
    }

abbrev contents : Dict String
contents =
    ("controlplane.yaml", "base") ∷ ("extra.yaml", "extra") ∷ ("talosconfig", "context: prod") ∷ []

abbrev parse : String → Fields
parse raw =
    if raw == "document"
    then field "apiVersion" (text "v1alpha1") end
    else field "machine" (object (field raw (text raw) end)) end

abbrev parsing : Env
parsing = record (world patched_node [] []) {
  get_secret = λ _ name _. ok (record secret { name = name; values = contents });
  parse_yaml = λ raw. ok (parse raw);
}

abbrev sent : Prepared
sent = record {
  config_bytes = "m\n---\ndocument\n";
  cluster_name = "prod";
  talosconfig = ok "context: prod";
}
