-- ===== src/Run.antt =====
-- internal/run/run.go: the options of the manager and the steps from its creation to its start.
-- The environment variables, the flag and the manager are parameters; the process does not go on
-- where there is no kubeconfig, which is left out, as is the logger. Of the reconcilers that
-- setupControllers builds, the client, the scheme, RealDialer and factory.New() are left out.
pub mod Laws
use yk_talos_management.Prelude.{
  String, [], ◌∷◌, Bool, true, false, ◌&&◌, ◌!=◌, string_eq, if◌then◌else◌, Option, none, some,
}
use yk_talos_management.Effects.Error.{Answer}
use yk_talos_management.Effects.Requests.{
  ManagerOptions, EventFilter, generation_changed, annotation_changed, node_ready, either,
  ControllerSetup, ManagerCall,
}
use yk_talos_management.Effects.Calls.{Call, Trace}
use yk_talos_management.Effects.Monad.{M, perform, wrapped, ◌>>=◌, ◌>>◌}

pub record Process : Type 0 where
  -- `os.LookupEnv`
  pub lookup_env : String → Option String
  -- the flag leader-elect, `none` where it is not given
  pub leader_elect : Option Bool
  pub manager : ManagerCall → Trace → Answer (Unit {0})

-- The `SetupWithManager` of TalosClusterReconciler, TalosNodeReconciler and
-- TalosClusterBootstrapReconciler, with their recorders.
abbrev pub cluster_setup : ControllerSetup
cluster_setup = record {
  kind = "TalosCluster";
  filter = generation_changed;
  watches = [];
  recorder = "taloscluster-controller";
}

abbrev pub node_setup : ControllerSetup
node_setup = record {
  kind = "TalosNode";
  filter = either generation_changed annotation_changed;
  watches = [];
  recorder = "talosnode-controller";
}

abbrev pub bootstrap_setup : ControllerSetup
bootstrap_setup = record {
  kind = "TalosClusterBootstrap";
  filter = generation_changed;
  watches = ("TalosNode", node_ready) ∷ [];
  recorder = "talosclusterbootstrap-controller";
}

module _ (process : Process) where
  abbrev pub is_set : String → Bool
  is_set name = elim (process.lookup_env name) [ none ↦ false | some v ↦ true ]

  -- `os.Getenv`
  abbrev pub getenv : String → String
  getenv name = elim (process.lookup_env name) [ none ↦ "" | some v ↦ v ]

  -- `isInCluster`
  unfoldable pub is_in_cluster : Bool
  is_in_cluster = is_set "KUBERNETES_SERVICE_HOST" && is_set "KUBERNETES_PORT"

  -- `podNamespace`
  unfoldable pub pod_namespace : String
  pod_namespace = if getenv "POD_NAMESPACE" != "" then getenv "POD_NAMESPACE" else "default"

  -- The value of the flag.
  abbrev leader_elect : Bool
  leader_elect = elim (process.leader_elect) [ none ↦ is_in_cluster | some given ↦ given ]

  -- The options that `Run` hands to ctrl.NewManager.
  unfoldable pub manager_options : ManagerOptions
  manager_options =
      let elect : Bool = leader_elect in
      record {
        metrics_address = ":8080";
        probe_address = ":8081";
        leader_election = elect;
        leader_election_id = if elect then "yk-talos-management.lock" else "";
        leader_election_namespace = if elect then pod_namespace else "";
      }

  abbrev pub manage : ManagerCall → M (Unit {0})
  manage c = perform (Call.manager c) (process.manager c)

  -- `setupControllers`
  unfoldable pub setup_controllers : M (Unit {0})
  setup_controllers = do
    manage (ManagerCall.set_up cluster_setup)
    manage (ManagerCall.set_up node_setup)
    manage (ManagerCall.set_up bootstrap_setup)

  -- `Run`
  unfoldable pub run : M (Unit {0})
  run = do
    wrapped "create manager" (manage (ManagerCall.new_manager manager_options))
    setup_controllers
    wrapped "add healthz check" (manage (ManagerCall.add_healthz_check "healthz"))
    wrapped "add readyz check" (manage (ManagerCall.add_readyz_check "readyz"))
    wrapped "manager exited" (manage ManagerCall.start)
