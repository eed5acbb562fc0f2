-- ===== src/Api.antt =====
-- The custom resources of api/v1alpha1 and the object metadata that the controllers read.
-- A number stands for a time or a duration in nanoseconds; an int32 or int64 that the code may
-- carry past its range is kept as its two's complement word. `resourceVersion` is left to the API
-- server. The inlined `CommonStatus` is written out in each status.
pub mod Yaml
use yk_talos_management.Prelude.{ℕ, String, Bool, Option, List, Eq}
use yk_talos_management.Prelude.Dict.{Dict}

-- metav1.ConditionStatus
pub data ConditionStatus : Type 0 where
  cond_true cond_false cond_unknown : ConditionStatus

-- metav1.Condition
pub record Condition : Type 0 where
  pub type : String
  pub status : ConditionStatus
  pub observed_generation : ℕ
  pub last_transition_time : ℕ
  pub reason : String
  pub message : String

-- metav1.ObjectMeta, as far as it is read
pub record ObjectMeta : Type 0 where
  pub name : String
  pub namespace : String
  pub uid : String
  pub generation : ℕ
  pub creation_timestamp : ℕ
  pub deletion_timestamp : Option ℕ
  pub finalizers : List String
  pub annotations : Dict String

-- TalosNodePhase; `unset` is the empty text of a new object
pub data NodePhase : Type 0 where
  unset pending applying ready error deleting upgrading : NodePhase

pub data NodeRole : Type 0 where
  control_plane worker : NodeRole

-- corev1.SecretKeySelector
pub record SecretKeySelector : Type 0 where
  pub name : String
  pub key : String

pub record TalosNodeSpec : Type 0 where
  pub cluster_ref : String
  pub role : NodeRole
  pub node_ip : String
  pub patches : List String
  pub patches_from : List SecretKeySelector
  pub drift_detection : Option Bool
  pub skip_drain : Bool
  pub drain_timeout : Option ℕ
  pub reset_on_delete : Bool
  pub talos_version : String
  pub system_extensions : List String

pub record TalosNodeStatus : Type 0 where
  pub phase : NodePhase
  pub message : String
  pub deletion_attempts : ℕ
  pub current_talos_version : String
  pub installed_extensions : List String
  pub observed_generation : ℕ
  pub retry_count : ℕ
  pub last_update_time : Option ℕ
  pub conditions : List Condition

pub record TalosNode : Type 0 where
  pub meta : ObjectMeta
  pub spec : TalosNodeSpec
  pub status : TalosNodeStatus

-- TalosPhase
pub data ClusterPhase : Type 0 where
  unset pending provisioning ready error deleting : ClusterPhase

pub record TalosClusterSpec : Type 0 where
  pub cluster_name : String
  pub endpoints : List String
  pub talos_version : String
  pub kubernetes_version : String

pub record TalosClusterStatus : Type 0 where
  pub phase : ClusterPhase
  pub observed_generation : ℕ
  pub retry_count : ℕ
  pub last_update_time : Option ℕ
  pub conditions : List Condition

pub record TalosCluster : Type 0 where
  pub meta : ObjectMeta
  pub spec : TalosClusterSpec
  pub status : TalosClusterStatus

-- TalosClusterBootstrapPhase
pub data BootstrapPhase : Type 0 where
  unset pending waiting_for_nodes bootstrapping waiting_for_kubeconfig : BootstrapPhase
  waiting_for_api_server completed error : BootstrapPhase

pub record TalosClusterBootstrapSpec : Type 0 where
  pub cluster_ref : String

pub record TalosClusterBootstrapStatus : Type 0 where
  pub phase : BootstrapPhase
  pub message : String
  pub observed_generation : ℕ
  pub retry_count : ℕ
  pub last_update_time : Option ℕ
  pub conditions : List Condition

pub record TalosClusterBootstrap : Type 0 where
  pub meta : ObjectMeta
  pub spec : TalosClusterBootstrapSpec
  pub status : TalosClusterBootstrapStatus

unfoldable pub ConditionStatus-discrete : Discrete ConditionStatus
ConditionStatus-discrete = hlevel

instance abbrev pub condition_status_eq : Eq ConditionStatus
condition_status_eq = record { dec = ConditionStatus-discrete }

unfoldable pub NodePhase-discrete : Discrete NodePhase
NodePhase-discrete = hlevel

instance abbrev pub node_phase_eq : Eq NodePhase
node_phase_eq = record { dec = NodePhase-discrete }

unfoldable pub NodeRole-discrete : Discrete NodeRole
NodeRole-discrete = hlevel

instance abbrev pub node_role_eq : Eq NodeRole
node_role_eq = record { dec = NodeRole-discrete }

unfoldable pub ClusterPhase-discrete : Discrete ClusterPhase
ClusterPhase-discrete = hlevel

instance abbrev pub cluster_phase_eq : Eq ClusterPhase
cluster_phase_eq = record { dec = ClusterPhase-discrete }

unfoldable pub BootstrapPhase-discrete : Discrete BootstrapPhase
BootstrapPhase-discrete = hlevel

instance abbrev pub bootstrap_phase_eq : Eq BootstrapPhase
bootstrap_phase_eq = record { dec = BootstrapPhase-discrete }
