-- ===== src/Api.antt =====
-- The data of the program: the Sosreport resource (api/v1alpha1/sosreport_types.go), and of the
-- Kubernetes objects the fields that controllers/sosreport_controller.go and
-- templates/sosreport.yaml name. A pointer is an `Option`, a map a `GoMap`.
use sosreport_operator.Prelude.{String, Bool, Option, List}
use sosreport_operator.GoMap.{StringMap}

pub record OwnerReference : Type 0 where
  pub kind : String
  pub uid : String
  pub controller : Option Bool

pub record ObjectMeta : Type 0 where
  pub name : String
  pub namespace : String
  pub uid : String
  pub labels : StringMap
  pub annotations : StringMap
  pub owner_references : List OwnerReference

pub record Taint : Type 0 where
  pub key : String
  pub value : String
  pub effect : String

pub record Toleration : Type 0 where
  pub key : String
  pub operator : String
  pub value : String
  pub effect : String

pub record SosreportSpec : Type 0 where
  pub node_selector : StringMap
  pub tolerations : List Toleration

pub record SosreportStatus : Type 0 where
  pub finished : Bool
  pub in_progress : Bool
  pub currently_running_nodes : List String
  pub outstanding_nodes : List String

pub record Sosreport : Type 0 where
  pub metadata : ObjectMeta
  pub spec : SosreportSpec
  pub status : SosreportStatus

pub record Node : Type 0 where
  pub metadata : ObjectMeta
  pub taints : List Taint

-- the string data of a ConfigMap or a Secret
pub record Configuration : Type 0 where
  pub entries : StringMap

pub record EnvVar : Type 0 where
  pub name : String
  pub value : String

pub record VolumeMount : Type 0 where
  pub name : String
  pub mount_path : String

pub record Container : Type 0 where
  pub name : String
  pub image : String
  pub command : List String
  pub env : List EnvVar
  pub volume_mounts : List VolumeMount
  pub image_pull_policy : String
  pub privileged : Bool

pub data VolumeSource : Type 0 where
  host_path : String → String → VolumeSource
  persistent_volume_claim : String → VolumeSource

pub record Volume : Type 0 where
  pub name : String
  pub source : VolumeSource

pub record NodeSelectorRequirement : Type 0 where
  pub key : String
  pub operator : String
  pub values : List String

-- the required node affinity: a list of terms, each a list of match expressions
pub record Affinity : Type 0 where
  pub node_selector_terms : List (List NodeSelectorRequirement)

pub record PodSpec : Type 0 where
  pub host_ipc : Bool
  pub host_network : Bool
  pub host_pid : Bool
  pub restart_policy : String
  pub tolerations : List Toleration
  pub affinity : Option Affinity
  pub containers : List Container
  pub volumes : List Volume

pub record JobCondition : Type 0 where
  pub type_ : String
  pub status : String

pub record Job : Type 0 where
  pub metadata : ObjectMeta
  pub template_metadata : ObjectMeta
  pub pod : PodSpec
  pub conditions : List JobCondition

pub record PersistentVolumeClaim : Type 0 where
  pub metadata : ObjectMeta
  pub access_modes : List String
  pub storage_class_name : Option String
  pub storage : String

pub record NamespacedName : Type 0 where
  pub namespace : String
  pub name : String
