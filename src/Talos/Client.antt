-- ===== src/Talos/Client.antt =====
-- internal/talos/client.go: the constructors of the client and the functions that send one RPC
-- each, or two for the forced removal of an etcd member. What is only logged is left out.
pub mod Timeout
pub mod Dialer
pub mod Durations
pub mod Declared
pub mod Requests
pub mod Bounds
pub mod Members
use yk_talos_management.Prelude.{
  ℕ, String, ◌<>◌, List, [], ◌∷◌, Bool, true, false, ◌==◌, nat_eq, if◌then◌else◌, Option, none,
  some,
}
use yk_talos_management.Metrics.Collectors.{Metric}
use yk_talos_management.Effects.Error.{Answer, ok, err, errorf, wrap}
use yk_talos_management.Effects.Objects.{Connection, VersionReply}
use yk_talos_management.Effects.Requests.{Request, ClientOptions, ResetPartition}
use yk_talos_management.Effects.Machinery.{
  Machinery, Reply, ConfigMessage, VersionMessage, Resource, machine_config, hostname_status,
}
use yk_talos_management.Effects.Calls.{Call}
use yk_talos_management.Effects.Monad.{M, pure, raise, perform, try, wrapped, ◌>>=◌, ◌>>◌}
use yk_talos_management.Effects.Environment.{Env}
use yk_talos_management.Effects.Kube.{count, observe}
use yk_talos_management.Shared.Secrets.{from_answer}
use yk_talos_management.Metrics.{result_label}
use yk_talos_management.Talos.Etcd.{find_etcd_member_id}
use yk_talos_management.Talos.Client.Timeout.{with_timeout}

-- The observation of a call that returned, and its result.
abbrev pub report : {A : Type 0} → String → Answer A → M A
unfolding result_label
report operation r = do
  observe Metric.api_call_duration (operation ∷ result_label r ∷ [])
  from_answer r

-- A call, with its duration observed under the operation and the result.
abbrev pub measured : {A : Type 0} → String → M A → M A
measured operation m = do r ← try m; report operation r

-- The loop over the messages of `ApplyConfig`.
unfoldable pub count_modes : String → List ConfigMessage → M (Unit {0})
count_modes cluster [] = pure tt
count_modes cluster (m ∷ messages) = do
  count Metric.config_apply_mode_total (m.mode ∷ cluster ∷ [])
  count_modes cluster messages

-- `msg.GetVersion().GetTag()` and `msg.GetPlatform().GetMode()`, "" on a nil pointer
abbrev pub text_or_empty : Option String → String
text_or_empty none = ""
text_or_empty (some s) = s

-- The loop over the messages of `GetVersion`, which returns in its first round.
unfoldable pub first_version : String → List VersionMessage → M VersionReply
first_version node_ip [] = raise (errorf ("no version message returned for node " <> node_ip))
first_version node_ip (m ∷ messages) =
    pure (record { tag = text_or_empty m.version; mode = text_or_empty m.platform })

-- The request of `ResetNode`: of the partitions, STATE and EPHEMERAL are wiped.
abbrev pub reset_request : Bool → Request
reset_request graceful =
    Request.reset_generic graceful true
      (record { label = "STATE"; wipe = true } ∷ record { label = "EPHEMERAL"; wipe = true } ∷ [])

module _ (env : Env) (lib : Machinery) where
  -- The type assertion and the end of `GetMachineConfig`.
  unfoldable pub config_of : Resource → M String
  config_of (machine_config provider) = from_answer (env.document_bytes provider)
  config_of r = raise (errorf ("unexpected resource type " <> lib.type_name r))

  -- The type assertion and the end of `GetHostname`.
  unfoldable pub hostname_of : Resource → M String
  hostname_of (hostname_status name) = pure name
  hostname_of r = raise (errorf ("unexpected resource type " <> lib.type_name r))

  -- An RPC to a node within the operation timeout.
  abbrev pub send : Connection → String → (r : Request) → M (Reply r)
  send c node r =
      perform (Call.rpc c node (with_timeout env) r) (lib.reply c node (with_timeout env) r)

  -- `NewClient`
  unfoldable pub new_client : String → String → M Connection
  new_client talosconfig endpoint = do
    config ← wrapped "parse talosconfig" (from_answer (lib.config_from_bytes talosconfig))
    let options : ClientOptions = record {
      config = some config;
      skip_verify = false;
      endpoint = endpoint;
    }
    perform (Call.new_client options) (lib.new_client options)

  -- `NewClientInsecure`
  unfoldable pub new_client_insecure : String → M Connection
  new_client_insecure endpoint =
      let options : ClientOptions = record {
        config = none;
        skip_verify = true;
        endpoint = endpoint <> ":" <> env.decimal lib.apid_port;
      } in
      perform (Call.new_client options) (lib.new_client options)

  -- `ApplyConfig`
  unfoldable pub apply_config : Connection → String → String → String → M (Unit {0})
  apply_config c node_ip config cluster = do
    messages ← measured "apply_config" (send c node_ip (Request.apply_configuration config))
    count_modes cluster messages

  -- `Bootstrap`
  unfoldable pub bootstrap : Connection → String → M (Unit {0})
  bootstrap c endpoint = measured "bootstrap" (send c endpoint Request.bootstrap)

  -- `GetKubeconfig`
  unfoldable pub get_kubeconfig : Connection → String → M String
  get_kubeconfig c endpoint = measured "get_kubeconfig" (send c endpoint Request.kubeconfig)

  -- `GetMachineConfig`
  unfoldable pub get_machine_config : Connection → String → M String
  get_machine_config c node_ip = do
    r ← measured "get_machine_config" (
        send c node_ip
          (Request.cosi_get lib.config_namespace lib.machine_config_type lib.active_id))
    config_of r

  -- `GetHostname`
  unfoldable pub get_hostname : Connection → String → M String
  get_hostname c node_ip = do
    r ← measured "get_hostname" (
        send c node_ip
          (Request.cosi_get lib.network_namespace lib.hostname_status_type lib.hostname_id))
    hostname_of r

  -- `GetVersion`
  unfoldable pub get_version : Connection → String → M VersionReply
  get_version c node_ip = do
    messages ← measured "get_version" (send c node_ip Request.version)
    first_version node_ip messages

  -- `UpgradeNode`
  unfoldable pub upgrade_node : Connection → String → String → M (Unit {0})
  upgrade_node c node_ip image =
      measured "upgrade_node" (send c node_ip (Request.upgrade image false false))

  -- `ResetNode`
  unfoldable pub reset_node : Connection → String → Bool → M (Unit {0})
  reset_node c node_ip graceful = measured "reset_node" (send c node_ip (reset_request graceful))

  -- `EtcdLeave`
  unfoldable pub etcd_leave : Connection → String → M (Unit {0})
  etcd_leave c node_ip = measured "etcd_leave" (send c node_ip Request.etcd_leave_cluster)

  -- `EtcdForceRemoveByIP`
  unfoldable pub etcd_force_remove_by_ip : Connection → String → String → M (Unit {0})
  etcd_force_remove_by_ip c survivor_ip dead_node_ip = do
    r ← try (send c survivor_ip Request.etcd_member_list)
    elim r [
      | err e ↦ (do
        observe Metric.api_call_duration ("etcd_force_remove" ∷ "error" ∷ [])
        raise (wrap "list etcd members" e))
      | ok messages ↦
          let member_id = find_etcd_member_id lib.hostname messages dead_node_ip in
          if member_id == 0
          then observe Metric.api_call_duration ("etcd_force_remove" ∷ "success" ∷ [])
          else measured "etcd_force_remove"
              (send c survivor_ip (Request.etcd_remove_member_by_id member_id))
    ]
