-- ===== src/Api/Library.antt =====
-- The library types that the operator fills in and reads: structs of Kubernetes' core/v1 and of
-- operator-go, with the fields that the operator's code names. A quantity such as "10Mi" and a
-- node affinity as raw JSON are opaque to the operator, so they are kept as their texts.
use kafka_operator.Prelude.{ℕ, String, Bool, List, Option}
use kafka_operator.Prelude.Dict.{Dict}

-- The keys and scopes of operator-go's package `constants`, which only the library defines.
pub record Constants : Type 0 where
  pub secrets_class : String
  pub secrets_scope : String
  pub secrets_format : String
  pub secrets_kerberos_service_names : String
  pub secrets_pkcs12_password : String
  pub secret_cert_life_time : String
  pub listeners_class : String
  pub listener_name : String
  pub listener_storage_class : String
  pub listener_volume_scope : String
  pub pod_scope : String
  pub node_scope : String
  pub tls_p12 : String
  pub common_delimiter : String
  pub kubedoop_data_dir : String
  pub label_kubernetes_instance : String
  pub label_kubernetes_component : String
  pub cluster_internal : String

-- corev1.ContainerPort; the protocol is TCP wherever the operator sets it
pub record ContainerPort : Type 0 where
  pub name : String
  pub container_port : ℕ
  pub protocol : String

pub record VolumeMount : Type 0 where
  pub name : String
  pub mount_path : String

-- corev1.EnvVar, with its value or the source of its value
pub data EnvValue : Type 0 where
  value : String → EnvValue
  field_ref : String → EnvValue
  config_map_key_ref : String → String → EnvValue

pub record EnvVar : Type 0 where
  pub name : String
  pub val : EnvValue

-- corev1.PersistentVolumeClaimSpec; every claim has one access mode and one storage request
pub record ClaimSpec : Type 0 where
  pub access_mode : String
  pub storage_class_name : Option String
  pub volume_mode : String
  pub storage : String

-- corev1.PersistentVolumeClaimTemplate, under an ephemeral volume source
pub record ClaimTemplate : Type 0 where
  pub annotations : Option (Dict String)
  pub labels : Option (Dict String)
  pub spec : ClaimSpec

pub record PersistentVolumeClaim : Type 0 where
  pub name : String
  pub template : ClaimTemplate

pub data VolumeSource : Type 0 where
  empty_dir : VolumeSource
  config_map : String → VolumeSource
  ephemeral : ClaimTemplate → VolumeSource

pub record Volume : Type 0 where
  pub name : String
  pub source : VolumeSource

pub record Container : Type 0 where
  pub name : String
  pub volume_mounts : List VolumeMount

-- appsv1.StatefulSet, with the fields that the operator sets on the built object itself
pub record StatefulSet : Type 0 where
  pub containers : List Container
  pub volumes : List Volume
  pub volume_claim_templates : List PersistentVolumeClaim
  pub service_name : String
  pub service_account_name : String
  pub pod_management_policy : String

-- commonsv1alpha1.ResourcesSpec
pub record CpuResource : Type 0 where
  pub min : String
  pub max : String

pub record StorageResource : Type 0 where
  pub capacity : String
  pub storage_class : String

pub record ResourcesSpec : Type 0 where
  pub cpu : Option CpuResource
  pub memory_limit : Option String
  pub storage : Option StorageResource

-- commonsv1alpha1.LoggingSpec; the logging of a container stays opaque
pub record LoggingSpec : Type 0 where
  pub enable_vector_agent : Option Bool
  pub containers : Option (Dict String)

pub record RoleGroupConfigSpec : Type 0 where
  pub affinity : Option String
  pub graceful_shutdown_timeout : String
  pub logging : Option LoggingSpec
  pub resources : Option ResourcesSpec

-- commonsv1alpha1.OverridesSpec, whose pod overrides are a raw text
pub record OverridesSpec : Type 0 where
  pub cli_overrides : Option (List String)
  pub env_overrides : Option (Dict String)
  pub config_overrides : Option (Dict (Option (Dict String)))
  pub pod_overrides : Option String

-- util.ImageOptions of operator-go
pub record ImageOptions : Type 0 where
  pub custom : String
  pub repo : String
  pub pull_policy : String

-- util.Image, as the options and versions that it is made with
pub record Image : Type 0 where
  pub product_name : String
  pub kubedoop_version : String
  pub product_version : String
  pub options : ImageOptions
