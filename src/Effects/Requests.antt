-- ===== src/Effects/Requests.antt =====
-- The requests that internal/talos/client.go hands to the Talos machinery library, and those of
-- internal/factory/factory.go to an HTTP client and of internal/run/run.go to the manager.
use yk_talos_management.Prelude.{ℕ, String, Bool, List, Option}

-- machineapi.ResetPartitionSpec
pub record ResetPartition : Type 0 where
  pub label : String
  pub wipe : Bool

-- One constructor for each RPC. A config is applied in mode AUTO; `cosi_get` takes the namespace,
-- the type and the id of a resource; `upgrade` the image and its flags stage and force;
-- `reset_generic` the flags graceful and reboot and the partitions.
pub data Request : Type 0 where
  apply_configuration : String → Request
  bootstrap kubeconfig version etcd_leave_cluster etcd_member_list : Request
  cosi_get : String → String → String → Request
  upgrade : String → Bool → Bool → Request
  reset_generic : Bool → Bool → List ResetPartition → Request
  etcd_remove_member_by_id : ℕ → Request

-- The options of talosclient.New: the parsed talosconfig, if any, whether the certificate of the
-- server goes unverified, and the endpoint.
pub record ClientOptions : Type 0 where
  pub config : Option String
  pub skip_verify : Bool
  pub endpoint : String

-- http.Request
pub record HttpRequest : Type 0 where
  pub method : String
  pub url : String
  pub content_type : String
  pub body : String

-- http.Response, with what can be read of its body
pub record HttpResponse : Type 0 where
  pub status_code : ℕ
  pub body : String

-- ctrl.Options; the scheme, which is fixed, is left out
pub record ManagerOptions : Type 0 where
  pub metrics_address : String
  pub probe_address : String
  pub leader_election : Bool
  pub leader_election_id : String
  pub leader_election_namespace : String

-- The predicates of package predicate of controller-runtime, and `nodeReadyPredicate`.
pub data EventFilter : Type 0 where
  generation_changed annotation_changed node_ready : EventFilter
  either : EventFilter → EventFilter → EventFilter

-- What a `SetupWithManager` builds: the kind that is reconciled, the filter of its events, the
-- kinds that are watched besides, and the name of the event recorder of its reconciler.
pub record ControllerSetup : Type 0 where
  pub kind : String
  pub filter : EventFilter
  pub watches : List (String × EventFilter)
  pub recorder : String

pub data ManagerCall : Type 0 where
  new_manager : ManagerOptions → ManagerCall
  set_up : ControllerSetup → ManagerCall
  add_healthz_check add_readyz_check : String → ManagerCall
  start : ManagerCall
