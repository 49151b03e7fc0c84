-- ===== src/Vector.antt =====
-- internal/controller/vector.go: vector.yaml in the data of a config map. `IsVectorEnable` is with the
-- config map that calls it.
pub mod Data
use kafka_operator.Prelude.{
  String, Option, none, some, Result, ok, err, panic, ◌>>=◌, deref, ◌==◌, if◌then◌else◌,
}
use kafka_operator.Prelude.Dict.{Dict, set}
use kafka_operator.Api.Types.{ClusterConfigSpec}
use kafka_operator.ConfigMap.{Renderers, vector_config_filename}

-- The client is a parameter of the renderers.
pub record VectorConfigParams : Type 0 where
  pub cluster_config : Option ClusterConfigSpec
  pub namespace : String
  pub instance_name : String
  pub role : String
  pub group_name : String

module _ {Generator : Type 0} (r : Renderers Generator) (params : VectorConfigParams) where
  unfoldable pub generate_vector_yaml : Result String
  generate_vector_yaml = do
    config ← deref params.cluster_config
    let aggregator = config.vector_aggregator_config_map_name
    if aggregator == ""
        then err "vectorAggregatorConfigMapName is not set"
        else r.make_vector_yaml params.namespace params.instance_name params.role params.group_name
            aggregator

  -- The caller's map afterwards. A map that is made for a nil one stays here, and an error is only
  -- logged.
  unfoldable pub extend_config_map_by_vector : Option (Dict String) → Result (Option (Dict String))
  extend_config_map_by_vector data' = elim generate_vector_yaml [
    | panic ↦ panic
    | err e ↦ ok data'
    | ok vector_yaml ↦ elim data' [
      | none ↦ ok none
      | some entries ↦ ok (some (set vector_config_filename vector_yaml entries))
    ]
  ]
