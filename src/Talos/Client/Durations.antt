-- ===== src/Talos/Client/Durations.antt =====
-- The durations that the methods of realConnection observe.
use yk_talos_management.Prelude.{
  ◌⊎◌, inl, inr, String, List, [], ◌∷◌, Bool, true, false, ◌≡◌, refl, arith,
}
use yk_talos_management.Effects.Error.{Answer, ok, err}
use yk_talos_management.Effects.Objects.{Connection}
use yk_talos_management.Effects.Requests.{Request}
use yk_talos_management.Effects.Machinery.{
  Machinery, Reply, ConfigMessage, VersionMessage, Resource,
}
use yk_talos_management.Effects.Calls.{Note, observation, Trace}
use yk_talos_management.Effects.Monad.{M, ◌>>=◌}
use yk_talos_management.Effects.Environment.{Env}
use yk_talos_management.Talos.Client.{measured, reset_request, report, send}
use yk_talos_management.Talos.Client
use yk_talos_management.Talos.Client.Dialer.{Method, real_connection}

-- The operation under which a method is observed.
abbrev pub operation : Method → String
operation (Method.apply_config node_ip config cluster) = "apply_config"
operation (Method.bootstrap endpoint) = "bootstrap"
operation (Method.get_kubeconfig endpoint) = "get_kubeconfig"
operation (Method.get_machine_config node_ip) = "get_machine_config"
operation (Method.get_hostname node_ip) = "get_hostname"
operation (Method.get_version node_ip) = "get_version"
operation (Method.etcd_leave node_ip) = "etcd_leave"
operation (Method.etcd_force_remove survivor_ip dead_node_ip) = "etcd_force_remove"
operation (Method.upgrade node_ip image) = "upgrade_node"
operation (Method.reset node_ip graceful) = "reset_node"

-- The observations of calls, the newest first: the labels of each.
abbrev pub observed : List Note → List (List String)
observed [] = []
observed (observation metric labels ∷ notes) = labels ∷ observed notes
observed (_ ∷ notes) = observed notes

abbrev pub is_ok : {A : Type 0} → Answer A → Bool
is_ok (ok a) = true
is_ok (err e) = false

module _ (env : Env) (lib : Machinery) where
  -- No observation.
  abbrev IsQuiet : {A : Type 0} → M A → Type 0
  IsQuiet m = (t : Trace) → observed (m t).1.notes ≡ observed t.notes

  -- One observation under a name, with the result "success", or "error" where an error is returned.
  abbrev Observes : {A : Type 0} → String → M A → Type 0
  Observes name m =
      (t : Trace)
      → (observed (m t).1.notes ≡ (name ∷ "success" ∷ []) ∷ observed t.notes)
        ⊎ ((observed (m t).1.notes ≡ (name ∷ "error" ∷ []) ∷ observed t.notes)
            × (is_ok (m t).0 ≡ false))

  send-IsQuiet : (c : Connection) (node : String) (r : Request) → IsQuiet (send env lib c node r)
  send-IsQuiet c node r t = ground arith

  report-Observes : {A : Type 0} (name : String) (r : Answer A) → Observes name (report name r)
  unfolding report
  report-Observes name (ok a) t = inl refl
  report-Observes name (err e) t = inr (refl, refl)

  measured-Observes :
      {A : Type 0} (name : String) (m : M A) → IsQuiet m → Observes name (measured name m)
  measured-Observes name m quiet t = grind (arith, report-Observes name (m t).0 (m t).1, quiet t)

  send-Observes :
      (c : Connection) (node name : String) (r : Request)
      → Observes name (measured name (send env lib c node r))
  send-Observes c node name r = measured-Observes name _ (send-IsQuiet c node r)

  bind-Observes :
      {B : Type 0} (c : Connection) (node name : String) (r : Request) (f : Reply r → M B)
      → ((a : Reply r) → IsQuiet (f a))
      → Observes name (measured name (send env lib c node r) >>= f)
  bind-Observes c node name r f quiet t = grind (arith, send-Observes c node name r t, quiet)

  force_remove-Observes :
      (c : Connection) (survivor_ip dead_node_ip : String)
      → Observes "etcd_force_remove"
          (Client.etcd_force_remove_by_ip env lib c survivor_ip dead_node_ip)
  unfolding Client.etcd_force_remove_by_ip
  force_remove-Observes c survivor_ip dead_node_ip t = grind (
    arith,
    send-IsQuiet c survivor_ip Request.etcd_member_list t,
    send-Observes c survivor_ip "etcd_force_remove",
  )

  count_modes-IsQuiet :
      (cluster : String) (messages : List ConfigMessage)
      → IsQuiet (Client.count_modes cluster messages)
  unfolding Client.count_modes
  count_modes-IsQuiet cluster [] t = refl
  count_modes-IsQuiet cluster (m ∷ messages) t = count_modes-IsQuiet cluster messages _

  config_of-IsQuiet : (r : Resource) → IsQuiet (Client.config_of env lib r)
  unfolding Client.config_of
  config_of-IsQuiet r t = ground arith

  hostname_of-IsQuiet : (r : Resource) → IsQuiet (Client.hostname_of env lib r)
  unfolding Client.hostname_of
  hostname_of-IsQuiet r t = ground arith

  first_version-IsQuiet :
      (node : String) (messages : List VersionMessage)
      → IsQuiet (Client.first_version node messages)
  unfolding Client.first_version
  first_version-IsQuiet node messages t = ground arith

  -- A method of a connection observes exactly one duration, under the name of its operation: with
  -- the result "success", or with "error", in which case it returns an error.
  pub real_connection-observed :
      (c : Connection) (x : Method) → Observes (operation x) (real_connection env lib c x)
  unfolding real_connection Client.bootstrap Client.apply_config Client.get_kubeconfig
      Client.get_machine_config Client.get_hostname Client.get_version Client.etcd_leave
      Client.upgrade_node Client.reset_node
  real_connection-observed c (Method.apply_config node_ip config cluster) =
      bind-Observes c node_ip "apply_config" (Request.apply_configuration config)
        (Client.count_modes cluster) (count_modes-IsQuiet cluster)
  real_connection-observed c (Method.bootstrap endpoint) =
      send-Observes c endpoint "bootstrap" Request.bootstrap
  real_connection-observed c (Method.get_kubeconfig endpoint) =
      send-Observes c endpoint "get_kubeconfig" Request.kubeconfig
  real_connection-observed c (Method.get_machine_config node_ip) =
      bind-Observes c node_ip "get_machine_config"
        (Request.cosi_get lib.config_namespace lib.machine_config_type lib.active_id)
        (Client.config_of env lib) config_of-IsQuiet
  real_connection-observed c (Method.get_hostname node_ip) =
      bind-Observes c node_ip "get_hostname"
        (Request.cosi_get lib.network_namespace lib.hostname_status_type lib.hostname_id)
        (Client.hostname_of env lib) hostname_of-IsQuiet
  real_connection-observed c (Method.get_version node_ip) =
      bind-Observes c node_ip "get_version" Request.version (Client.first_version node_ip)
        (first_version-IsQuiet node_ip)
  real_connection-observed c (Method.etcd_leave node_ip) =
      send-Observes c node_ip "etcd_leave" Request.etcd_leave_cluster
  real_connection-observed c (Method.etcd_force_remove survivor_ip dead_node_ip) =
      force_remove-Observes c survivor_ip dead_node_ip
  real_connection-observed c (Method.upgrade node_ip image) =
      send-Observes c node_ip "upgrade_node" (Request.upgrade image false false)
  real_connection-observed c (Method.reset node_ip graceful) =
      send-Observes c node_ip "reset_node" (reset_request graceful)
