-- ===== src/Effects/Environment.antt =====
-- The answers of everything outside the repository, one field for each call. What a call answers
-- may depend on all that was done before.
use yk_talos_management.Prelude.{ℕ, String, Bool, Option, List}
use yk_talos_management.Api.{TalosNode, TalosCluster, TalosClusterBootstrap}
use yk_talos_management.Api.Yaml.{Fields}
use yk_talos_management.Effects.Error.{Error, Answer}
use yk_talos_management.Effects.Objects.{
  Secret, Pod, KubeNode, RemoteClient, Connection, VersionReply, GenerateInput, MachineType,
}
use yk_talos_management.Effects.Calls.{Trace}

pub record Env : Type 0 where
  -- the API server; a write of a resource answers the server's version of it
  pub get_node : String → String → Trace → Answer TalosNode
  pub get_cluster : String → String → Trace → Answer TalosCluster
  pub get_bootstrap : String → String → Trace → Answer TalosClusterBootstrap
  pub get_secret : String → String → Trace → Answer Secret
  pub list_nodes : String → Trace → Answer (List TalosNode)
  pub list_bootstraps : String → Trace → Answer (List TalosClusterBootstrap)
  pub create_secret : Secret → Trace → Answer (Unit {0})
  pub update_secret : Secret → Trace → Answer (Unit {0})
  pub delete_secret : Secret → Trace → Answer (Unit {0})
  pub update_node : TalosNode → Trace → Answer TalosNode
  pub update_node_status : TalosNode → Trace → Answer TalosNode
  pub patch_node : TalosNode → Trace → Answer TalosNode
  pub update_cluster : TalosCluster → Trace → Answer TalosCluster
  pub update_cluster_status : TalosCluster → Trace → Answer TalosCluster
  pub update_bootstrap : TalosClusterBootstrap → Trace → Answer TalosClusterBootstrap
  pub update_bootstrap_status : TalosClusterBootstrap → Trace → Answer TalosClusterBootstrap
  -- Talos: dialing takes the talosconfig and the endpoint
  pub dial : String → String → Trace → Answer Connection
  pub dial_insecure : String → Trace → Answer Connection
  pub apply_config : Connection → String → String → String → Trace → Answer (Unit {0})
  pub bootstrap : Connection → String → Trace → Answer (Unit {0})
  pub get_kubeconfig : Connection → String → Trace → Answer String
  pub get_machine_config : Connection → String → Trace → Answer String
  pub get_hostname : Connection → String → Trace → Answer String
  pub get_version : Connection → String → Trace → Answer VersionReply
  pub etcd_leave : Connection → String → Trace → Answer (Unit {0})
  pub etcd_force_remove : Connection → String → String → Trace → Answer (Unit {0})
  pub reset : Connection → String → Bool → Trace → Answer (Unit {0})
  pub upgrade : Connection → String → String → Trace → Answer (Unit {0})
  -- the managed cluster
  pub remote_client : String → Trace → Answer RemoteClient
  pub server_version : RemoteClient → Trace → Answer (Unit {0})
  pub get_kube_node : RemoteClient → String → Trace → Answer KubeNode
  pub update_kube_node : RemoteClient → KubeNode → Trace → Answer (Unit {0})
  pub delete_kube_node : RemoteClient → String → Trace → Answer (Unit {0})
  pub list_pods : RemoteClient → String → Trace → Answer (List Pod)
  pub evict : RemoteClient → Pod → Trace → Answer (Unit {0})
  -- the image factory, `none` where no client is configured
  pub factory : Option (List String → Trace → Answer String)
  -- whether the reconcilers have an event recorder
  pub has_recorder : Bool
  -- the clock, and the random noise that `jitter` adds to a delay
  pub now : Trace → ℕ
  pub jitter : ℕ → Trace → ℕ
  -- `ctx.Err()`: `some` once the reconcile's context is done
  pub context_error : Trace → Option Error
  -- the attempts that `retry.RetryOnConflict` makes after the first, while it meets conflicts
  pub retries : ℕ
  -- libraries: YAML, kubeconfig files, semantic versions, and how Go prints an integer
  pub parse_yaml : String → Answer Fields
  pub print_yaml : Fields → Answer String
  pub deep_equal : Fields → Fields → Bool
  pub with_server : String → String → Answer String
  pub parse_semver : String → Option (List ℕ)
  pub semver_newer : List ℕ → List ℕ → Bool
  pub trim_space : String → String
  pub decimal : ℕ → String
  pub byte_length : String → ℕ
  -- the Talos machinery: version contracts, secrets bundles and their JSON, generated configs
  pub parse_contract : String → Answer String
  pub new_bundle : String → Trace → Answer String
  pub marshal_bundle : String → Answer String
  pub unmarshal_bundle : String → Answer String
  pub new_input : GenerateInput → Answer (Unit {0})
  pub machine_config : GenerateInput → MachineType → Answer String
  pub talosconfig : GenerateInput → Answer String
  pub document_bytes : String → Answer String
  pub default_kubernetes_version : String
  -- RETRY_BASE_DELAY and RETRY_MAX_DELAY, as `strconv.Atoi` reads them
  pub getenv : String → String
  pub atoi : String → Option ℕ
