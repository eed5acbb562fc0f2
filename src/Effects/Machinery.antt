-- ===== src/Effects/Machinery.antt =====
-- The client of the Talos machinery library: the RPCs that internal/talos/client.go sends, the
-- replies as far as it reads them, and the library's answers.
use yk_talos_management.Prelude.{ℕ, String, List, Option}
use yk_talos_management.Effects.Error.{Answer}
use yk_talos_management.Effects.Objects.{Connection}
use yk_talos_management.Effects.Requests.{Request, ClientOptions}
use yk_talos_management.Effects.Calls.{Trace}
use yk_talos_management.Talos.Etcd.{EtcdMember}

-- A message of machineapi.ApplyConfigurationResponse; its details and warnings are only logged.
pub record ConfigMessage : Type 0 where
  pub mode : String

-- A message of machineapi.VersionResponse: the tag of its version and the mode of its platform,
-- `none` for a nil pointer.
pub record VersionMessage : Type 0 where
  pub version : Option String
  pub platform : Option String

-- A COSI resource, told apart by its Go type: a machine config by its provider, a hostname status
-- by its hostname, any other by some description.
pub data Resource : Type 0 where
  machine_config hostname_status other : String → Resource

-- What each RPC answers.
abbrev pub Reply : Request → Type 0
Reply (Request.apply_configuration config) = List ConfigMessage
Reply Request.bootstrap = Unit
Reply Request.kubeconfig = String
Reply (Request.cosi_get namespace kind id) = Resource
Reply Request.version = List VersionMessage
Reply (Request.upgrade image stage force) = Unit
Reply (Request.reset_generic graceful reboot wipe) = Unit
Reply Request.etcd_leave_cluster = Unit
Reply Request.etcd_member_list = List (List EtcdMember)
Reply (Request.etcd_remove_member_by_id id) = Unit

pub record Machinery : Type 0 where
  -- clientconfig.FromBytes
  pub config_from_bytes : String → Answer String
  -- talosclient.New
  pub new_client : ClientOptions → Trace → Answer Connection
  -- an RPC over a client, to a node, with the timeout of its context
  pub reply : Connection → String → Option ℕ → (r : Request) → Trace → Answer (Reply r)
  -- `c.Close()`
  pub close : Connection → Trace → Answer (Unit {0})
  -- the host of a peer URL, `none` where url.Parse refuses it
  pub hostname : String → Option String
  -- constants.ApidPort
  pub apid_port : ℕ
  -- the constants of the machinery's config and network packages
  pub config_namespace : String
  pub machine_config_type : String
  pub active_id : String
  pub network_namespace : String
  pub hostname_status_type : String
  pub hostname_id : String
  -- the Go type of a resource, as `%T` prints it
  pub type_name : Resource → String
