-- ===== src/Tests/Vector.antt =====
-- Runs and theorems on vector.yaml.
use kafka_operator.Prelude.{
  String, true, none, some, [], ◌∷◌, Option, ◌≡◌, refl, Result, ok, err, panic, ◌==◌,
}
use kafka_operator.Prelude.Dict.{Dict, set}
use kafka_operator.Api.Library.{LoggingSpec, RoleGroupConfigSpec}
use kafka_operator.Api.Types.{ClusterConfigSpec}
use kafka_operator.Prelude.{List}
use kafka_operator.Prelude.Dict.{lookup}
use kafka_operator.Config.Overrides.{HasServerFile}
use kafka_operator.ConfigMap.{
  PropertyFile, build, log4j_properties, security_properties, server_properties,
}
use kafka_operator.ConfigMap.Items.{visits}
use kafka_operator.ConfigMap.Built.{HasOutcome, RendersProperties, build-HasOutcome, yaml_of}
use kafka_operator.Tests.Config.{merged_overrides}
use kafka_operator.ConfigMap.{KafkaConfigmapBuilder, build_vector_config, vector_config_filename}
use kafka_operator.Vector.{extend_config_map_by_vector, generate_vector_yaml}
use kafka_operator.Vector.Data.{params_of, extend_config_map_by_vector-build_vector_config}
use kafka_operator.Tests.Data.{config_of}
use kafka_operator.Tests.ConfigMap.{builder, renderers}

abbrev logging : LoggingSpec
logging = record { enable_vector_agent = some true; containers = none }

abbrev logged : RoleGroupConfigSpec
logged = record {
  affinity = none;
  graceful_shutdown_timeout = "";
  logging = some logging;
  resources = none;
}

abbrev aggregated : ClusterConfigSpec
aggregated = record (config_of [] none) { vector_aggregator_config_map_name = "aggregator" }

abbrev vectored : KafkaConfigmapBuilder
vectored = record (builder none) {
  cluster_config = some aggregated;
  role_group_config = some logged;
}

extended :
    extend_config_map_by_vector renderers (params_of vectored) (some [])
    ≡ ok (some (("vector.yaml", "aggregator") ∷ []))
unfolding extend_config_map_by_vector generate_vector_yaml set ◌==◌
extended = refl

extend_config_map_by_vector-build_vector_config_example :
    extend_config_map_by_vector renderers (params_of vectored) (some [])
    ≡ elim (build_vector_config renderers vectored) as (λ _. Result (Option (Dict String))) [
      | panic ↦ panic
      | err e ↦ ok (some [])
      | ok text ↦ ok (some (set vector_config_filename text []))
    ]
extend_config_map_by_vector-build_vector_config_example =
    extend_config_map_by_vector-build_vector_config renderers vectored logged logging aggregated []
      refl refl refl refl

abbrev pub order : List PropertyFile
order = log4j_properties ∷ server_properties ∷ security_properties ∷ []

pub once : (f : PropertyFile) → visits f order ≡ 1
once server_properties = refl
once security_properties = refl
once log4j_properties = refl

pub renderers_render : RendersProperties renderers
renderers_render = (
  λ m. (_, refl),
  λ logging container file format. (_, refl, (_, refl)),
  λ namespace cluster role group aggregator made. cc made,
)

-- the merged overrides, with the vector agent enabled
abbrev served : KafkaConfigmapBuilder
served = record vectored { overrides = some merged_overrides }

served_file : HasServerFile merged_overrides
unfolding lookup ◌==◌
served_file = (_, _, refl, refl)

build-HasOutcome_example :
    HasOutcome logged aggregated
      (yaml_of renderers served aggregated)
      (build renderers order served)
build-HasOutcome_example =
    build-HasOutcome renderers order served merged_overrides logged aggregated once renderers_render
      refl served_file refl refl
