-- ===== src/Vector/Data.antt =====
-- internal/controller/vector.go: what both ways to vector.yaml have in common.
use kafka_operator.Prelude.{
  String, true, Option, some, ◌≡◌, arith, Result, ok, err, panic, ◌==◌, Result-cases, Bool-cases,
  inl, inr,
}
use kafka_operator.Prelude.Dict.{Dict, set}
use kafka_operator.Api.Library.{LoggingSpec, RoleGroupConfigSpec}
use kafka_operator.Api.Types.{ClusterConfigSpec}
use kafka_operator.ConfigMap.{
  KafkaConfigmapBuilder, Renderers, build_vector_config, vector_config_filename,
}
use kafka_operator.Vector.{VectorConfigParams, extend_config_map_by_vector, generate_vector_yaml}

-- The parameters that a config map's builder would give.
abbrev pub params_of : KafkaConfigmapBuilder → VectorConfigParams
params_of b = record {
  cluster_config = b.cluster_config;
  namespace = b.owner_namespace;
  instance_name = b.cluster_name;
  role = b.role_name;
  group_name = b.role_group_name;
}

-- Where the vector agent is enabled, `ExtendConfigMapByVector` does to a map what the config map's
-- builder would: it sets vector.yaml to the text that the builder renders, leaves the map as it is
-- where the builder fails, and panics where it does.
pub extend_config_map_by_vector-build_vector_config :
    {Generator : Type 0} (r : Renderers Generator) (b : KafkaConfigmapBuilder)
    (config : RoleGroupConfigSpec) (logging : LoggingSpec) (cluster : ClusterConfigSpec)
    (entries : Dict String)
    → b.role_group_config ≡ some config
    → config.logging ≡ some logging
    → logging.enable_vector_agent ≡ some true
    → b.cluster_config ≡ some cluster
    → extend_config_map_by_vector r (params_of b) (some entries)
      ≡ elim (build_vector_config r b) as (λ _. Result (Option (Dict String))) [
        | panic ↦ panic
        | err e ↦ ok (some entries)
        | ok text ↦ ok (some (set vector_config_filename text entries))
      ]
unfolding extend_config_map_by_vector generate_vector_yaml build_vector_config
extend_config_map_by_vector-build_vector_config r b config logging cluster entries given there on
      configured =
    elim (Bool-cases (cluster.vector_aggregator_config_map_name == "")) [
      | inl unset ↦ ground arith
      | inr set' ↦
          elim (Result-cases (
            r.make_vector_yaml b.owner_namespace b.cluster_name b.role_name b.role_group_name
              cluster.vector_aggregator_config_map_name)) [
                | inl fails ↦ ground arith
                | inr (inl (e, fails)) ↦ ground arith
                | inr (inr (text, made)) ↦ ground arith
              ]
    ]
