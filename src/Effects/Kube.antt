-- ===== src/Effects/Kube.antt =====
-- The calls to the API servers, the recorder, the metrics and the clock.
use yk_talos_management.Prelude.{ℕ, String, List, [], ◌∷◌, if◌then◌else◌}
use yk_talos_management.Api.{TalosNode, TalosCluster, TalosClusterBootstrap}
use yk_talos_management.Metrics.Collectors.{Metric}
use yk_talos_management.Effects.Error.{ok}
use yk_talos_management.Effects.Objects.{Secret, Pod, KubeNode, RemoteClient}
use yk_talos_management.Effects.Calls.{Call, did, EventType, Note, event, counter, observation}
use yk_talos_management.Effects.Monad.{M, perform, tell}
use yk_talos_management.Effects.Environment.{Env}

module _ (env : Env) where
  abbrev pub get_node : String → String → M TalosNode
  get_node ns name = perform (Call.get_node ns name) (env.get_node ns name)

  abbrev pub get_cluster : String → String → M TalosCluster
  get_cluster ns name = perform (Call.get_cluster ns name) (env.get_cluster ns name)

  abbrev pub get_bootstrap : String → String → M TalosClusterBootstrap
  get_bootstrap ns name = perform (Call.get_bootstrap ns name) (env.get_bootstrap ns name)

  abbrev pub get_secret : String → String → M Secret
  get_secret ns name = perform (Call.get_secret ns name) (env.get_secret ns name)

  abbrev pub list_nodes : String → M (List TalosNode)
  list_nodes ns = perform (Call.list_nodes ns) (env.list_nodes ns)

  abbrev pub list_bootstraps : String → M (List TalosClusterBootstrap)
  list_bootstraps ns = perform (Call.list_bootstraps ns) (env.list_bootstraps ns)

  abbrev pub create_secret : Secret → M (Unit {0})
  create_secret s = perform (Call.create_secret s) (env.create_secret s)

  abbrev pub update_secret : Secret → M (Unit {0})
  update_secret s = perform (Call.update_secret s) (env.update_secret s)

  abbrev pub delete_secret : Secret → M (Unit {0})
  delete_secret s = perform (Call.delete_secret s) (env.delete_secret s)

  abbrev pub update_node : TalosNode → M TalosNode
  update_node x = perform (Call.update_node x) (env.update_node x)

  abbrev pub update_node_status : TalosNode → M TalosNode
  update_node_status x = perform (Call.update_node_status x) (env.update_node_status x)

  abbrev pub patch_node : TalosNode → M TalosNode
  patch_node x = perform (Call.patch_node x) (env.patch_node x)

  abbrev pub update_cluster : TalosCluster → M TalosCluster
  update_cluster x = perform (Call.update_cluster x) (env.update_cluster x)

  abbrev pub update_cluster_status : TalosCluster → M TalosCluster
  update_cluster_status x = perform (Call.update_cluster_status x) (env.update_cluster_status x)

  abbrev pub update_bootstrap : TalosClusterBootstrap → M TalosClusterBootstrap
  update_bootstrap x = perform (Call.update_bootstrap x) (env.update_bootstrap x)

  abbrev pub update_bootstrap_status : TalosClusterBootstrap → M TalosClusterBootstrap
  update_bootstrap_status x =
      perform (Call.update_bootstrap_status x) (env.update_bootstrap_status x)

  abbrev pub remote_client : String → M RemoteClient
  remote_client kubeconfig = perform (Call.remote_client kubeconfig) (env.remote_client kubeconfig)

  abbrev pub server_version : RemoteClient → M (Unit {0})
  server_version c = perform (Call.server_version c) (env.server_version c)

  abbrev pub get_kube_node : RemoteClient → String → M KubeNode
  get_kube_node c x = perform (Call.get_kube_node c x) (env.get_kube_node c x)

  abbrev pub delete_kube_node : RemoteClient → String → M (Unit {0})
  delete_kube_node c x = perform (Call.delete_kube_node c x) (env.delete_kube_node c x)

  abbrev pub list_pods : RemoteClient → String → M (List Pod)
  list_pods c x = perform (Call.list_pods c x) (env.list_pods c x)

  abbrev pub update_kube_node : RemoteClient → KubeNode → M (Unit {0})
  update_kube_node c x = perform (Call.update_kube_node c x) (env.update_kube_node c x)

  abbrev pub evict : RemoteClient → Pod → M (Unit {0})
  evict c x = perform (Call.evict c x) (env.evict c x)

  -- `metav1.Now()`
  abbrev pub now : M ℕ
  now t = (ok (env.now t), record t { calls = did Call.now ∷ t.calls })

  -- `emitEvent`: nothing without a recorder
  unfoldable pub events : EventType → String → String → List Note
  events type reason message = if env.has_recorder then event type reason message ∷ [] else []

  abbrev pub emit_event : EventType → String → String → M (Unit {0})
  emit_event type reason message = tell (events type reason message)

-- `WithLabelValues(…).Inc()`
abbrev pub count : Metric → List String → M (Unit {0})
count metric labels = tell (counter metric labels ∷ [])

-- `WithLabelValues(…).Observe(…)`
abbrev pub observe : Metric → List String → M (Unit {0})
observe metric labels = tell (observation metric labels ∷ [])
