-- ===== src/Tests/World.antt =====
-- A concrete world for the tests: objects, and an environment in which every call succeeds.
use yk_talos_management.Prelude.{String, Bool, true, false, List, [], ◌∷◌, none, some}
use yk_talos_management.Prelude.Dict.{Dict}
use yk_talos_management.Api.{
  ObjectMeta, NodePhase, NodeRole, ClusterPhase, BootstrapPhase, TalosNodeSpec, TalosNodeStatus,
  TalosNode, TalosCluster, TalosClusterBootstrap,
}
use yk_talos_management.Api.Yaml.{end}
use yk_talos_management.Effects.Error.{Error, ok, plain}
use yk_talos_management.Effects.Objects.{Secret, Pod, PodPhase, RemoteClient, Connection}
use yk_talos_management.Effects.Environment.{Env}
use yk_talos_management.Talos.Finalizer.{finalizer_cleanup, annotation_upgrade, annotation_reset}

abbrev pub meta_of : String → Dict String → ObjectMeta
meta_of name annotations = record {
  name = name;
  namespace = "talos";
  uid = "1";
  generation = 1;
  creation_timestamp = 0;
  deletion_timestamp = none;
  finalizers = finalizer_cleanup ∷ [];
  annotations = annotations;
}

abbrev pub node_spec : TalosNodeSpec
node_spec = record {
  cluster_ref = "prod";
  role = NodeRole.control_plane;
  node_ip = "10.0.0.1";
  patches = [];
  patches_from = [];
  drift_detection = none;
  skip_drain = false;
  drain_timeout = none;
  reset_on_delete = false;
  talos_version = "";
  system_extensions = [];
}

abbrev pub node_status : NodePhase → TalosNodeStatus
node_status phase = record {
  phase = phase;
  message = "";
  deletion_attempts = 0;
  current_talos_version = "";
  installed_extensions = [];
  observed_generation = 1;
  retry_count = 0;
  last_update_time = none;
  conditions = [];
}

abbrev pub node_of : String → NodePhase → Dict String → TalosNode
node_of name phase annotations = record {
  meta = meta_of name annotations;
  spec = node_spec;
  status = node_status phase;
}

-- A ready control plane node that is asked to upgrade.
abbrev pub upgrading_node : TalosNode
upgrading_node =
    node_of "cp1" NodePhase.ready
      ((annotation_upgrade, "ghcr.io/siderolabs/installer:v1.10.0") ∷ [])

-- A control plane node that is being deleted.
abbrev pub deleting_node : TalosNode
deleting_node = node_of "cp1" NodePhase.deleting []

-- A ready control plane node that is asked to reset.
abbrev pub resetting_node : TalosNode
resetting_node = node_of "cp1" NodePhase.ready ((annotation_reset, "1") ∷ [])

abbrev pub cluster : TalosCluster
cluster = record {
  meta = meta_of "prod" [];
  spec = record {
    cluster_name = "prod";
    endpoints = "10.0.0.1" ∷ "10.0.0.2" ∷ [];
    talos_version = "v1.9.0";
    kubernetes_version = "v1.32.0";
  };
  status = record {
    phase = ClusterPhase.unset;
    observed_generation = 0;
    retry_count = 0;
    last_update_time = none;
    conditions = [];
  };
}

abbrev pub cluster_bootstrap : TalosClusterBootstrap
cluster_bootstrap = record {
  meta = meta_of "boot" [];
  spec = record { cluster_ref = "prod" };
  status = record {
    phase = BootstrapPhase.unset;
    message = "";
    observed_generation = 0;
    retry_count = 0;
    last_update_time = none;
    conditions = [];
  };
}

abbrev pub secret : Secret
secret = record {
  name = "prod-talosconfig";
  namespace = "talos";
  owners = [];
  values =
      ("talosconfig", "context: prod") ∷ ("kubeconfig", "server: a") ∷ ("config.yaml", "m") ∷ [];
}

abbrev pub pod_of : String → List String → PodPhase → Bool → Pod
pod_of name owner_kinds phase terminating = record {
  name = name;
  namespace = "default";
  owner_kinds = owner_kinds;
  annotations = [];
  phase = phase;
  terminating = terminating;
}

abbrev pub connection : Connection
connection = record { endpoint = "10.0.0.1"; secure = true }

abbrev pub remote : RemoteClient
remote = record { kubeconfig = "server: a" }

abbrev pub failure : Error
failure = record { cause = plain; message = "failure" }

-- Every call succeeds, and reads find these objects.
abbrev pub world : TalosNode → List TalosNode → List Pod → Env
world node nodes pods = record {
  get_node = λ _ _ _. ok node;
  get_cluster = λ _ _ _. ok cluster;
  get_bootstrap = λ _ _ _. ok cluster_bootstrap;
  get_secret = λ _ _ _. ok secret;
  list_nodes = λ _ _. ok nodes;
  list_bootstraps = λ _ _. ok (cluster_bootstrap ∷ []);
  create_secret = λ _ _. ok tt;
  update_secret = λ _ _. ok tt;
  delete_secret = λ _ _. ok tt;
  update_node = λ n _. ok n;
  update_node_status = λ n _. ok n;
  patch_node = λ n _. ok n;
  update_cluster = λ c _. ok c;
  update_cluster_status = λ c _. ok c;
  update_bootstrap = λ b _. ok b;
  update_bootstrap_status = λ b _. ok b;
  dial = λ _ endpoint _. ok (record { endpoint = endpoint; secure = true });
  dial_insecure = λ endpoint _. ok (record { endpoint = endpoint; secure = false });
  apply_config = λ _ _ _ _ _. ok tt;
  bootstrap = λ _ _ _. ok tt;
  get_kubeconfig = λ _ _ _. ok "server: a";
  get_machine_config = λ _ _ _. ok "m";
  get_hostname = λ _ _ _. ok "cp1";
  get_version = λ _ _ _. ok (record { tag = "v1.9.0"; mode = "metal" });
  etcd_leave = λ _ _ _. ok tt;
  etcd_force_remove = λ _ _ _ _. ok tt;
  reset = λ _ _ _ _. ok tt;
  upgrade = λ _ _ _ _. ok tt;
  remote_client = λ kubeconfig _. ok (record { kubeconfig = kubeconfig });
  server_version = λ _ _. ok tt;
  get_kube_node = λ _ name _. ok (record { name = name; unschedulable = false });
  update_kube_node = λ _ _ _. ok tt;
  delete_kube_node = λ _ _ _. ok tt;
  list_pods = λ _ _ _. ok pods;
  evict = λ _ _ _. ok tt;
  factory = some (λ _ _. ok "376567988ad370138ad8b2698212367b8edcb69b5fd68c80be1f2ec7d603b4ba");
  has_recorder = true;
  now = λ _. 0;
  jitter = λ delay _. delay;
  context_error = λ _. none;
  retries = 4;
  parse_yaml = λ _. ok end;
  print_yaml = λ _. ok "m";
  deep_equal = λ _ _. true;
  with_server = λ _ server. ok server;
  parse_semver = λ _. none;
  semver_newer = λ _ _. false;
  trim_space = λ text. text;
  decimal = λ _. "1";
  byte_length = λ _. 1;
  parse_contract = λ text. ok text;
  new_bundle = λ _ _. ok "bundle";
  marshal_bundle = λ text. ok text;
  unmarshal_bundle = λ text. ok text;
  new_input = λ _. ok tt;
  machine_config = λ _ _. ok "m";
  talosconfig = λ _. ok "context: prod";
  document_bytes = λ text. ok text;
  default_kubernetes_version = "v1.32.0";
  getenv = λ _. "";
  atoi = λ _. none;
}
