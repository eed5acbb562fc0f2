-- ===== src/Talos/Client/Declared.antt =====
-- The metrics that the methods of realConnection write, against their declarations.
use yk_talos_management.Prelude.{ℕ_discrete, false, String, List, [], ◌∷◌, ◌≡◌, refl, arith}
use yk_talos_management.Effects.Error.{Answer, ok, err}
use yk_talos_management.Effects.Objects.{Connection}
use yk_talos_management.Effects.Requests.{Request}
use yk_talos_management.Effects.Machinery.{
  Machinery, Reply, ConfigMessage, VersionMessage, Resource,
}
use yk_talos_management.Effects.Calls.{Trace}
use yk_talos_management.Effects.Monad.{M, ◌>>=◌}
use yk_talos_management.Effects.Environment.{Env}
use yk_talos_management.Node.Declared.{fits, Declares}
use yk_talos_management.Talos.Client.{measured, report, send}
use yk_talos_management.Talos.Client
use yk_talos_management.Talos.Client.Dialer.{Method, real_connection}

report-Declares : {A : Type 0} (name : String) (r : Answer A) → Declares (report name r)
unfolding report ℕ_discrete
report-Declares name (ok a) t = refl
report-Declares name (err e) t = refl

measured-Declares : {A : Type 0} (name : String) (m : M A) → Declares m → Declares (measured name m)
measured-Declares name m declares t =
    grind (arith, report-Declares name (m t).0 (m t).1, declares t)

count_modes-Declares :
    (cluster : String) (messages : List ConfigMessage)
    → Declares (Client.count_modes cluster messages)
unfolding Client.count_modes ℕ_discrete
count_modes-Declares cluster [] t = refl
count_modes-Declares cluster (m ∷ messages) t = count_modes-Declares cluster messages _

module _ (env : Env) (lib : Machinery) where
  send-Declares : (c : Connection) (node : String) (r : Request) → Declares (send env lib c node r)
  send-Declares c node r t = ground arith

  sent-Declares :
      (c : Connection) (node name : String) (r : Request)
      → Declares (measured name (send env lib c node r))
  sent-Declares c node name r = measured-Declares name _ (send-Declares c node r)

  bind-Declares :
      {B : Type 0} (c : Connection) (node name : String) (r : Request) (f : Reply r → M B)
      → ((a : Reply r) → Declares (f a))
      → Declares (measured name (send env lib c node r) >>= f)
  bind-Declares c node name r f declares t = grind (arith, sent-Declares c node name r t, declares)

  force_remove-Declares :
      (c : Connection) (survivor_ip dead_node_ip : String)
      → Declares (Client.etcd_force_remove_by_ip env lib c survivor_ip dead_node_ip)
  unfolding Client.etcd_force_remove_by_ip
  force_remove-Declares c survivor_ip dead_node_ip t = grind (
    arith,
    send-Declares c survivor_ip Request.etcd_member_list t,
    sent-Declares c survivor_ip "etcd_force_remove",
  )

  config_of-Declares : (r : Resource) → Declares (Client.config_of env lib r)
  unfolding Client.config_of
  config_of-Declares r t = ground arith

  hostname_of-Declares : (r : Resource) → Declares (Client.hostname_of env lib r)
  unfolding Client.hostname_of
  hostname_of-Declares r t = ground arith

  first_version-Declares :
      (node : String) (messages : List VersionMessage)
      → Declares (Client.first_version node messages)
  unfolding Client.first_version
  first_version-Declares node messages t = ground arith

  -- Every write to a metric that a method of a connection makes, whatever the machine answers, calls
  -- a method that its collector has, with as many label values as the collector declares labels, if
  -- that holds of the writes before.
  pub real_connection-fits :
      (c : Connection) (x : Method) (t : Trace)
      → fits (real_connection env lib c x t).1.notes ≡ fits t.notes
  unfolding real_connection Client.bootstrap Client.apply_config Client.get_kubeconfig
      Client.get_machine_config Client.get_hostname Client.get_version Client.etcd_leave
      Client.upgrade_node Client.reset_node
  real_connection-fits c (Method.apply_config node_ip config cluster) =
      bind-Declares c node_ip "apply_config" (Request.apply_configuration config)
        (Client.count_modes cluster) (count_modes-Declares cluster)
  real_connection-fits c (Method.bootstrap endpoint) =
      sent-Declares c endpoint "bootstrap" Request.bootstrap
  real_connection-fits c (Method.get_kubeconfig endpoint) =
      sent-Declares c endpoint "get_kubeconfig" Request.kubeconfig
  real_connection-fits c (Method.get_machine_config node_ip) =
      bind-Declares c node_ip "get_machine_config"
        (Request.cosi_get lib.config_namespace lib.machine_config_type lib.active_id)
        (Client.config_of env lib) config_of-Declares
  real_connection-fits c (Method.get_hostname node_ip) =
      bind-Declares c node_ip "get_hostname"
        (Request.cosi_get lib.network_namespace lib.hostname_status_type lib.hostname_id)
        (Client.hostname_of env lib) hostname_of-Declares
  real_connection-fits c (Method.get_version node_ip) =
      bind-Declares c node_ip "get_version" Request.version (Client.first_version node_ip)
        (first_version-Declares node_ip)
  real_connection-fits c (Method.etcd_leave node_ip) =
      sent-Declares c node_ip "etcd_leave" Request.etcd_leave_cluster
  real_connection-fits c (Method.etcd_force_remove survivor_ip dead_node_ip) =
      force_remove-Declares c survivor_ip dead_node_ip
  real_connection-fits c (Method.upgrade node_ip image) =
      sent-Declares c node_ip "upgrade_node" (Request.upgrade image false false)
  real_connection-fits c (Method.reset node_ip graceful) =
      sent-Declares c node_ip "reset_node" (Client.reset_request graceful)
