-- ===== src/Effects/Calls.antt =====
-- The calls that the controllers make, with their arguments.
use yk_talos_management.Prelude.{ℕ, String, Bool, List, [], Option}
use yk_talos_management.Api.{TalosNode, TalosCluster, TalosClusterBootstrap}
use yk_talos_management.Metrics.Collectors.{Metric}
use yk_talos_management.Effects.Requests.{Request, ClientOptions, HttpRequest, ManagerCall}
use yk_talos_management.Effects.Objects.{Secret, Pod, KubeNode, RemoteClient, Connection}

pub data EventType : Type 0 where
  normal warning : EventType

pub data Call : Type 0 where
  -- the API server: namespace before name
  get_node get_cluster get_bootstrap get_secret : String → String → Call
  list_nodes list_bootstraps : String → Call
  create_secret update_secret delete_secret : Secret → Call
  update_node update_node_status patch_node : TalosNode → Call
  update_cluster update_cluster_status : TalosCluster → Call
  update_bootstrap update_bootstrap_status : TalosClusterBootstrap → Call
  -- Talos
  dial dial_insecure : String → Call
  apply_config : Connection → String → String → String → Call
  bootstrap get_kubeconfig get_machine_config get_hostname : Connection → String → Call
  get_version etcd_leave : Connection → String → Call
  etcd_force_remove : Connection → String → String → Call
  reset : Connection → String → Bool → Call
  upgrade : Connection → String → String → Call
  close : Connection → Call
  -- the managed cluster
  remote_client : String → Call
  server_version : RemoteClient → Call
  get_kube_node delete_kube_node list_pods : RemoteClient → String → Call
  update_kube_node : RemoteClient → KubeNode → Call
  evict : RemoteClient → Pod → Call
  -- the image factory
  create_schematic : List String → Call
  http : HttpRequest → Call
  -- controller-runtime
  manager : ManagerCall → Call
  -- the Talos machinery: a new client, and an RPC over one to a node, with its timeout
  new_client : ClientOptions → Call
  rpc : Connection → String → Option ℕ → Request → Call
  -- the clock, and a pause between two polls
  now : Call
  wait : ℕ → Call

pub data Entry : Type 0 where
  did : Call → Entry
  failed : Call → Entry

-- What is told to the event recorder and to the metrics. `RecordNodePhase` and its like set
-- gauges.
pub data Note : Type 0 where
  event : EventType → String → String → Note
  counter : Metric → List String → Note
  gauge : Metric → List String → ℕ → Note
  -- an observation of a histogram, without the value that was measured
  observation : Metric → List String → Note

-- What was done so far, the newest entry first.
pub record Trace : Type 0 where
  pub calls : List Entry
  pub notes : List Note

abbrev pub empty : Trace
empty = record { calls = []; notes = [] }
