-- ===== src/Effects/Talos.antt =====
-- The calls on a Talos dialer and on a connection.
use yk_talos_management.Prelude.{String, Bool, ◌∷◌}
use yk_talos_management.Effects.Objects.{Connection, VersionReply}
use yk_talos_management.Effects.Calls.{Call, did}
use yk_talos_management.Effects.Monad.{M, perform}
use yk_talos_management.Effects.Environment.{Env}

module _ (env : Env) where
  abbrev pub dial : String → String → M Connection
  dial talosconfig endpoint = perform (Call.dial endpoint) (env.dial talosconfig endpoint)

  abbrev pub dial_insecure : String → M Connection
  dial_insecure endpoint = perform (Call.dial_insecure endpoint) (env.dial_insecure endpoint)

  abbrev pub bootstrap : Connection → String → M (Unit {0})
  bootstrap c ip = perform (Call.bootstrap c ip) (env.bootstrap c ip)

  abbrev pub get_kubeconfig : Connection → String → M String
  get_kubeconfig c ip = perform (Call.get_kubeconfig c ip) (env.get_kubeconfig c ip)

  abbrev pub get_machine_config : Connection → String → M String
  get_machine_config c ip = perform (Call.get_machine_config c ip) (env.get_machine_config c ip)

  abbrev pub get_hostname : Connection → String → M String
  get_hostname c ip = perform (Call.get_hostname c ip) (env.get_hostname c ip)

  abbrev pub get_version : Connection → String → M VersionReply
  get_version c ip = perform (Call.get_version c ip) (env.get_version c ip)

  abbrev pub etcd_leave : Connection → String → M (Unit {0})
  etcd_leave c ip = perform (Call.etcd_leave c ip) (env.etcd_leave c ip)

  abbrev pub apply_config : Connection → String → String → String → M (Unit {0})
  apply_config c ip x cluster =
      perform (Call.apply_config c ip x cluster) (env.apply_config c ip x cluster)

  abbrev pub etcd_force_remove : Connection → String → String → M (Unit {0})
  etcd_force_remove c ip x = perform (Call.etcd_force_remove c ip x) (env.etcd_force_remove c ip x)

  abbrev pub reset : Connection → String → Bool → M (Unit {0})
  reset c ip x = perform (Call.reset c ip x) (env.reset c ip x)

  abbrev pub upgrade : Connection → String → String → M (Unit {0})
  upgrade c ip x = perform (Call.upgrade c ip x) (env.upgrade c ip x)

module _ {A : Type 0} where
  -- `defer conn.Close()` and the rest of the function
  abbrev pub closing : Connection → M A → M A
  closing c m t = let (r, t') = m t in (r, record t' { calls = did (Call.close c) ∷ t'.calls })
