-- ===== src/Talos/Client/Dialer.antt =====
-- `RealDialer` and `realConnection` of internal/controller/talos_dialer.go: the interface
-- TalosConnection, method by method, on the client of the Talos machinery.
use yk_talos_management.Prelude.{String, Bool}
use yk_talos_management.Effects.Objects.{Connection, VersionReply}
use yk_talos_management.Effects.Machinery.{Machinery}
use yk_talos_management.Effects.Calls.{Call}
use yk_talos_management.Effects.Monad.{M, perform}
use yk_talos_management.Effects.Environment.{Env}
use yk_talos_management.Talos.Client

-- The methods of TalosConnection with their arguments, all but Close.
pub data Method : Type 0 where
  apply_config : String → String → String → Method
  bootstrap get_kubeconfig get_machine_config get_hostname : String → Method
  get_version etcd_leave : String → Method
  etcd_force_remove upgrade : String → String → Method
  reset : String → Bool → Method

-- The result of each method, next to its error.
abbrev pub MethodResult : Method → Type 0
MethodResult (Method.get_kubeconfig endpoint) = String
MethodResult (Method.get_machine_config node_ip) = String
MethodResult (Method.get_hostname node_ip) = String
MethodResult (Method.get_version node_ip) = VersionReply
MethodResult _ = Unit

module _ (env : Env) (lib : Machinery) where
  -- `RealDialer.Dial`
  unfoldable pub dial : String → String → M Connection
  dial talosconfig endpoint = Client.new_client env lib talosconfig endpoint

  -- `RealDialer.DialInsecure`
  unfoldable pub dial_insecure : String → M Connection
  dial_insecure endpoint = Client.new_client_insecure env lib endpoint

  -- The methods of realConnection.
  unfoldable pub real_connection : Connection → (method : Method) → M (MethodResult method)
  real_connection c (Method.apply_config node_ip config cluster) =
      Client.apply_config env lib c node_ip config cluster
  real_connection c (Method.bootstrap endpoint) = Client.bootstrap env lib c endpoint
  real_connection c (Method.get_kubeconfig endpoint) = Client.get_kubeconfig env lib c endpoint
  real_connection c (Method.get_machine_config node_ip) =
      Client.get_machine_config env lib c node_ip
  real_connection c (Method.get_hostname node_ip) = Client.get_hostname env lib c node_ip
  real_connection c (Method.etcd_leave node_ip) = Client.etcd_leave env lib c node_ip
  real_connection c (Method.etcd_force_remove survivor_ip dead_node_ip) =
      Client.etcd_force_remove_by_ip env lib c survivor_ip dead_node_ip
  real_connection c (Method.get_version node_ip) = Client.get_version env lib c node_ip
  real_connection c (Method.reset node_ip graceful) = Client.reset_node env lib c node_ip graceful
  real_connection c (Method.upgrade node_ip image) = Client.upgrade_node env lib c node_ip image

  -- `realConnection.Close`
  unfoldable pub close : Connection → M (Unit {0})
  close c = perform (Call.close c) (lib.close c)
