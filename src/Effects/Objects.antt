-- ===== src/Effects/Objects.antt =====
-- The Kubernetes objects and the Talos replies that the controllers handle, as far as they read
-- them. Bytes are texts.
use yk_talos_management.Prelude.{ℕ, String, Bool, Option, List}
use yk_talos_management.Prelude.Dict.{Dict}

-- metav1.OwnerReference; `block_owner_deletion` is a pointer in the source
pub record OwnerReference : Type 0 where
  pub kind : String
  pub name : String
  pub uid : String
  pub controller : Bool
  pub block_owner_deletion : Option Bool

-- corev1.Secret
pub record Secret : Type 0 where
  pub name : String
  pub namespace : String
  pub owners : List OwnerReference
  pub values : Dict String

-- corev1.PodPhase
pub data PodPhase : Type 0 where
  pending running succeeded failed unknown : PodPhase

-- corev1.Pod: the kinds of its owners stand for its owner references
pub record Pod : Type 0 where
  pub name : String
  pub namespace : String
  pub owner_kinds : List String
  pub annotations : Dict String
  pub phase : PodPhase
  pub terminating : Bool

-- corev1.Node of the managed cluster
pub record KubeNode : Type 0 where
  pub name : String
  pub unschedulable : Bool

-- A client of the managed cluster, by the kubeconfig that it was built from.
pub record RemoteClient : Type 0 where
  pub kubeconfig : String

-- A TalosConnection: the endpoint that was dialed, and whether by mTLS.
pub record Connection : Type 0 where
  pub endpoint : String
  pub secure : Bool

-- The reply of GetVersion.
pub record VersionReply : Type 0 where
  pub tag : String
  pub mode : String

-- ctrl.Result: `requeue_after` is 0 where the source leaves it out
pub record Result : Type 0 where
  pub requeue_after : ℕ

-- What generate.NewInput is given, with the version contract and the secrets bundle as texts.
pub record GenerateInput : Type 0 where
  pub cluster_name : String
  pub control_plane_url : String
  pub kubernetes_version : String
  pub contract : String
  pub bundle : String
  pub endpoints : List String

-- machine.Type
pub data MachineType : Type 0 where
  type_control_plane type_worker : MachineType
