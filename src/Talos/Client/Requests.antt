-- ===== src/Talos/Client/Requests.antt =====
-- The RPCs that the methods of realConnection send.
use yk_talos_management.Prelude.{
  zero, suc, ◌⊎◌, inl, ℕ, String, List, [], ◌∷◌, Bool, true, false, Option, ◌≡◌, refl, arith,
}
use yk_talos_management.Effects.Objects.{Connection}
use yk_talos_management.Effects.Requests.{Request}
use yk_talos_management.Effects.Machinery.{
  Machinery, Reply, ConfigMessage, VersionMessage, Resource,
}
use yk_talos_management.Effects.Calls.{Call, Entry, did, failed, Trace}
use yk_talos_management.Effects.Monad.{M, ◌>>=◌}
use yk_talos_management.Effects.Environment.{Env}
use yk_talos_management.Talos.Client.{measured, reset_request, report, send}
use yk_talos_management.Talos.Client
use yk_talos_management.Talos.Client.Timeout.{with_timeout}
use yk_talos_management.Talos.Client.Dialer.{Method, real_connection}

-- The node that a method speaks to.
abbrev pub target : Method → String
target (Method.apply_config node_ip config cluster) = node_ip
target (Method.bootstrap endpoint) = endpoint
target (Method.get_kubeconfig endpoint) = endpoint
target (Method.get_machine_config node_ip) = node_ip
target (Method.get_hostname node_ip) = node_ip
target (Method.get_version node_ip) = node_ip
target (Method.etcd_leave node_ip) = node_ip
target (Method.etcd_force_remove survivor_ip dead_node_ip) = survivor_ip
target (Method.upgrade node_ip image) = node_ip
target (Method.reset node_ip graceful) = node_ip

-- A request to a node over a client, answered or not, with a timeout.
abbrev pub IsRequest : Connection → String → Option ℕ → Entry → Type 0
IsRequest c node limit (did (Call.rpc d ip timeout r)) = (d ≡ c) × (ip ≡ node) × (timeout ≡ limit)
IsRequest c node limit (failed (Call.rpc d ip timeout r)) =
    (d ≡ c) × (ip ≡ node) × (timeout ≡ limit)
IsRequest c node limit _ = ⊥

-- The second history is the first one with so many requests to a node after it.
abbrev pub Sent : Connection → String → Option ℕ → ℕ → List Entry → List Entry → Type 0
Sent c node limit zero before after = after ≡ before
Sent c node limit (suc k) before [] = ⊥
Sent c node limit (suc k) before (e ∷ after) =
    IsRequest c node limit e × Sent c node limit k before after

abbrev pub is_force_remove : Method → Bool
is_force_remove (Method.etcd_force_remove survivor_ip dead_node_ip) = true
is_force_remove _ = false

module _ (env : Env) (lib : Machinery) where
  -- No calls.
  abbrev IsLocal : {A : Type 0} → M A → Type 0
  IsLocal m = (t : Trace) → (m t).1.calls ≡ t.calls

  abbrev Sends : {A : Type 0} → Connection → String → ℕ → M A → Type 0
  Sends c node k m = (t : Trace) → Sent c node (with_timeout env) k t.calls (m t).1.calls

  send-Sends :
      (c : Connection) (node : String) (r : Request) → Sends c node 1 (send env lib c node r)
  send-Sends c node r t = grind arith

  measured-Sends :
      (c : Connection) (node name : String) (r : Request)
      → Sends c node 1 (measured name (send env lib c node r))
  unfolding report
  measured-Sends c node name r t = send-Sends c node r t

  bind-Sends :
      {B : Type 0} (c : Connection) (node name : String) (r : Request) (f : Reply r → M B)
      → ((a : Reply r) → IsLocal (f a))
      → Sends c node 1 (measured name (send env lib c node r) >>= f)
  bind-Sends c node name r f quiet t = grind (arith, measured-Sends c node name r t, quiet)

  force_remove-sends :
      (c : Connection) (survivor_ip dead_node_ip : String) (t : Trace)
      → Sent c survivor_ip
          (with_timeout env)
          1
          t.calls
          (Client.etcd_force_remove_by_ip env lib c survivor_ip dead_node_ip t).1.calls
        ⊎ Sent c survivor_ip
            (with_timeout env)
            2
            t.calls
            (Client.etcd_force_remove_by_ip env lib c survivor_ip dead_node_ip t).1.calls
  unfolding Client.etcd_force_remove_by_ip
  force_remove-sends c survivor_ip dead_node_ip t = grind (
    arith,
    send-Sends c survivor_ip Request.etcd_member_list t,
    measured-Sends c survivor_ip "etcd_force_remove",
  )

  count_modes-IsLocal :
      (cluster : String) (messages : List ConfigMessage)
      → IsLocal (Client.count_modes cluster messages)
  unfolding Client.count_modes
  count_modes-IsLocal cluster [] t = refl
  count_modes-IsLocal cluster (m ∷ messages) t = count_modes-IsLocal cluster messages _

  config_of-IsLocal : (r : Resource) → IsLocal (Client.config_of env lib r)
  unfolding Client.config_of
  config_of-IsLocal r t = ground arith

  hostname_of-IsLocal : (r : Resource) → IsLocal (Client.hostname_of env lib r)
  unfolding Client.hostname_of
  hostname_of-IsLocal r t = ground arith

  first_version-IsLocal :
      (node : String) (messages : List VersionMessage)
      → IsLocal (Client.first_version node messages)
  unfolding Client.first_version
  first_version-IsLocal node messages t = ground arith

  -- All methods but EtcdForceRemove send one request.
  one_request :
      (c : Connection) (x : Method)
      → is_force_remove x ≡ false
      → Sends c (target x) 1 (real_connection env lib c x)
  unfolding real_connection Client.bootstrap Client.apply_config Client.get_kubeconfig
      Client.get_machine_config Client.get_hostname Client.get_version Client.etcd_leave
      Client.upgrade_node Client.reset_node
  one_request c (Method.apply_config node_ip config cluster) h =
      bind-Sends c node_ip "apply_config" (Request.apply_configuration config)
        (Client.count_modes cluster) (count_modes-IsLocal cluster)
  one_request c (Method.bootstrap endpoint) h =
      measured-Sends c endpoint "bootstrap" Request.bootstrap
  one_request c (Method.get_kubeconfig endpoint) h =
      measured-Sends c endpoint "get_kubeconfig" Request.kubeconfig
  one_request c (Method.get_machine_config node_ip) h =
      bind-Sends c node_ip "get_machine_config"
        (Request.cosi_get lib.config_namespace lib.machine_config_type lib.active_id)
        (Client.config_of env lib) config_of-IsLocal
  one_request c (Method.get_hostname node_ip) h =
      bind-Sends c node_ip "get_hostname"
        (Request.cosi_get lib.network_namespace lib.hostname_status_type lib.hostname_id)
        (Client.hostname_of env lib) hostname_of-IsLocal
  one_request c (Method.get_version node_ip) h =
      bind-Sends c node_ip "get_version" Request.version (Client.first_version node_ip)
        (first_version-IsLocal node_ip)
  one_request c (Method.etcd_leave node_ip) h =
      measured-Sends c node_ip "etcd_leave" Request.etcd_leave_cluster
  one_request c (Method.upgrade node_ip image) h =
      measured-Sends c node_ip "upgrade_node" (Request.upgrade image false false)
  one_request c (Method.reset node_ip graceful) h =
      measured-Sends c node_ip "reset_node" (reset_request graceful)
  one_request c (Method.etcd_force_remove survivor_ip dead_node_ip) h = grind (arith, h)

  -- A method of a connection adds nothing to the history of calls but one RPC to the node that it
  -- names, over that connection and with the timeout of `withTimeout`; only EtcdForceRemove may send
  -- two.
  pub real_connection-sends :
      (c : Connection) (x : Method) (t : Trace)
      → Sent c (target x) (with_timeout env) 1 t.calls (real_connection env lib c x t).1.calls
        ⊎ ((is_force_remove x ≡ true)
            × Sent c
                (target x)
                (with_timeout env)
                2
                t.calls
                (real_connection env lib c x t).1.calls)
  unfolding real_connection
  real_connection-sends c (Method.etcd_force_remove survivor_ip dead_node_ip) t =
      grind (arith, force_remove-sends c survivor_ip dead_node_ip t)
  real_connection-sends c x t = inl (one_request c x refl t)
