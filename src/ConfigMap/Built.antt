-- ===== src/ConfigMap/Built.antt =====
-- internal/controller/configmap.go, `Build`: when it returns a config map.
use kafka_operator.Prelude.{
  String, true, false, Option, none, some, List, ◌≡◌, ◌≢◌, ◌⊎◌, refl, ◌∙◌, arith, Result, ok, err,
  panic, Option-cases, Bool-cases, ap, ==_iff, ◌==◌, Result-cases, inl, inr, subst,
}
use kafka_operator.Prelude.Dict.{Dict, lookup, copy}
use kafka_operator.Api.Library.{LoggingSpec, OverridesSpec, RoleGroupConfigSpec}
use kafka_operator.Api.Types.{ClusterConfigSpec}
use kafka_operator.Config.{server_properties_filename, security_properties_filename}
use kafka_operator.Config.Overrides.{HasServerFile}
use kafka_operator.Security.Settings.{config_settings}
use kafka_operator.ConfigMap.{
  Renderers, KafkaConfigmapBuilder, PropertyFile, server_properties, security_properties,
  log4j_properties, vector_config_filename, add_content, add_vector, build, build_log4j_properties,
  build_security_properties, build_vector_config, main_container_logging, kafka_log4j_filename,
  console_conversion_pattern, is_vector_enable, server_data,
}
use kafka_operator.ConfigMap.Items.{build_files-items, rendered, visits}
use kafka_operator.ConfigMap.Server.{copy_into-eq-copy}
use kafka_operator.StatefulSet.Steps.{Succeeds}
use kafka_operator.ConfigMap.Kept.{build_files-IsKept}

-- The property files can be rendered, whatever they hold, and vector.yaml without a panic.
abbrev pub RendersProperties : {Generator : Type 0} → Renderers Generator → Type 0
RendersProperties {Generator = Generator} r =
    ((m : Option (Dict String)) → Succeeds (r.marshal m))
    × ((logging : Option String) (container file format : String)
        → (generator : Generator) × (r.new_config_generator logging container file format
            ≡ ok generator)
          × Succeeds (r.content generator))
    × ((namespace cluster role group aggregator : String)
        → r.make_vector_yaml namespace cluster role group aggregator ≢ panic)

server_data-HasServerFile :
    (b : KafkaConfigmapBuilder) (own : OverridesSpec) (files : Dict (Option (Dict String)))
    (m : Dict String)
    → b.overrides ≡ some own
    → own.config_overrides ≡ some files
    → lookup server_properties_filename files ≡ some (some m)
    → server_data b ≡ some m
unfolding server_data
server_data-HasServerFile b own files m held there found = ground arith

-- The agent is not asked for: there is no logging, or it has the flag, and the flag is false.
abbrev pub IsOff : RoleGroupConfigSpec → Type 0
IsOff config =
    (config.logging ≡ none)
    ⊎ ((logging : LoggingSpec) × (config.logging ≡ some logging)
        × (logging.enable_vector_agent ≡ some false))

abbrev pub IsOn : RoleGroupConfigSpec → Type 0
IsOn config =
    (logging : LoggingSpec) × (config.logging ≡ some logging)
    × (logging.enable_vector_agent ≡ some true)

-- There is logging, without the flag.
abbrev pub LacksFlag : RoleGroupConfigSpec → Type 0
LacksFlag config =
    (logging : LoggingSpec) × (config.logging ≡ some logging) × (logging.enable_vector_agent ≡ none)

-- The agent's configuration cannot be made, with this error: no aggregator is named, or the renderer
-- fails.
abbrev pub CannotBeMade : ClusterConfigSpec → Result String → String → Type 0
CannotBeMade cluster yaml e =
    ((cluster.vector_aggregator_config_map_name ≡ "")
      × (e ≡ "vector is enabled but vectorAggregatorConfigMapName is not set"))
    ⊎ ((cluster.vector_aggregator_config_map_name ≢ "") × (yaml ≡ err e))

-- Where the agent is off, or an aggregator is named and its configuration is rendered, there is a
-- config map; where the flag is missing there is a panic; and where the agent is on and its
-- configuration cannot be made there is its error. These exclude each other.
abbrev pub HasOutcome :
    RoleGroupConfigSpec → ClusterConfigSpec → Result String → Result KafkaConfigmapBuilder → Type 0
HasOutcome config cluster yaml built =
    (Succeeds built
      × (IsOff config
          ⊎ (IsOn config × (cluster.vector_aggregator_config_map_name ≢ "") × Succeeds yaml)))
    ⊎ ((built ≡ panic) × LacksFlag config)
    ⊎ ((e : String) × (built ≡ err e) × IsOn config × CannotBeMade cluster yaml e)

module _ {Generator : Type 0} (r : Renderers Generator) where
  -- vector.yaml, as operator-go makes it for a config map
  abbrev pub yaml_of : KafkaConfigmapBuilder → ClusterConfigSpec → Result String
  yaml_of b cluster =
      r.make_vector_yaml b.owner_namespace b.cluster_name b.role_name b.role_group_name
        cluster.vector_aggregator_config_map_name

  security-Succeeds :
      (b : KafkaConfigmapBuilder) (own : OverridesSpec) (files : Dict (Option (Dict String)))
      → ((m : Option (Dict String)) → Succeeds (r.marshal m))
      → b.overrides ≡ some own
      → own.config_overrides ≡ some files
      → Succeeds (build_security_properties r b)
  unfolding build_security_properties
  security-Succeeds b own files marshals held there =
      elim (Option-cases (lookup security_properties_filename files)) [
        | inl missing ↦ ("", ground arith)
        | inr (m, present) ↦ let (text, made) = marshals m in (text, ground arith)
      ]

  rendered-Succeeds :
      (b : KafkaConfigmapBuilder) (own : OverridesSpec) (f : PropertyFile)
      → RendersProperties r
      → b.overrides ≡ some own
      → HasServerFile own
      → Succeeds (rendered r f b)
  unfolding build_log4j_properties
  rendered-Succeeds b own server_properties (marshals, _, _) held (files, m, there, found) =
      let (text, made) = marshals (some (copy m (config_settings b.kafka_security))) in
      rw
        (
          server_data-HasServerFile b own files m held there found,
          copy_into-eq-copy m (config_settings b.kafka_security),
        )
        (text, made)
  rendered-Succeeds b own security_properties (marshals, _, _) held (files, m, there, found) =
      security-Succeeds b own files marshals held there
  rendered-Succeeds b own log4j_properties (_, generates, _) held _ =
      let (generator, made, (text, content)) =
        generates (main_container_logging r b) "kafka" kafka_log4j_filename
          console_conversion_pattern in
      rw made (text, content)

  -- What the enabled agent's configuration comes to.
  build_vector_config-cases :
      (b : KafkaConfigmapBuilder) (config : RoleGroupConfigSpec) (cluster : ClusterConfigSpec)
      → RendersProperties r
      → b.role_group_config ≡ some config
      → b.cluster_config ≡ some cluster
      → IsOn config
      → ((cluster.vector_aggregator_config_map_name ≢ "")
          × ((text : String) × (yaml_of b cluster ≡ ok text) × (build_vector_config r b ≡ ok text)))
        ⊎ ((e : String) × (build_vector_config r b ≡ err e)
            × CannotBeMade cluster (yaml_of b cluster) e)
  unfolding build_vector_config
  build_vector_config-cases b config cluster (_, _, renders) given there (logging, logged, on) =
      elim (Bool-cases (cluster.vector_aggregator_config_map_name == "")) [
        | inl unnamed ↦ inr (
          _,
          ground arith,
          inl ((==_iff cluster.vector_aggregator_config_map_name "").0 unnamed, refl),
        )
        | inr named ↦ elim (Result-cases (yaml_of b cluster)) [
          | inl panics ↦ absurd (
              renders b.owner_namespace b.cluster_name b.role_name b.role_group_name
                cluster.vector_aggregator_config_map_name panics)
          | inr (inl (e, fails)) ↦ inr (
            e,
            ground arith,
            inr (ground (arith, ==_iff cluster.vector_aggregator_config_map_name ""), fails),
          )
          | inr (inr (text, made)) ↦ inl (
            ground (arith, ==_iff cluster.vector_aggregator_config_map_name ""),
            (text, made, ground arith),
          )
        ]
      ]

  add_vector-HasOutcome :
      (b : KafkaConfigmapBuilder) (config : RoleGroupConfigSpec) (cluster : ClusterConfigSpec)
      → RendersProperties r
      → b.role_group_config ≡ some config
      → b.cluster_config ≡ some cluster
      → HasOutcome config cluster (yaml_of b cluster) (add_vector r b)
  unfolding add_vector is_vector_enable
  add_vector-HasOutcome b config cluster renders given there = elim (Option-cases config.logging) [
    | inl quiet ↦ inl ((add_content vector_config_filename "" b, ground arith), inl (inl quiet))
    | inr (logging, logged) ↦ elim (Option-cases logging.enable_vector_agent) [
      | inl missing ↦ inr (inl (ground arith, (logging, logged, missing)))
      | inr (false, off) ↦ inl (
        (add_content vector_config_filename "" b, ground arith),
        inl (inr (logging, logged, off)),
      )
      | inr (true, on) ↦
          elim (build_vector_config-cases b config cluster renders given there
            (logging, logged, on)) [
              | inl (named, (text, made, done)) ↦ inl (
                (add_content vector_config_filename text b, ground arith),
                inr ((logging, logged, on), named, (text, made)),
              )
              | inr (e, fails, why) ↦ inr (inr (e, ground arith, (logging, logged, on), why))
            ]
    ]
  ]

  -- For a role group's configuration that is there and overrides that hold server.properties, and
  -- renderers that accept every property file and never panic, `Build` returns a config map in any
  -- order of the files if the vector agent is off, or if it is on, an aggregator is named and the
  -- agent's configuration is rendered; it panics if the logging lacks the agent's flag; and if the
  -- agent is on and no aggregator is named or the renderer fails, it returns that error.
  pub build-HasOutcome :
      (order : List PropertyFile) (b : KafkaConfigmapBuilder) (own : OverridesSpec)
      (config : RoleGroupConfigSpec) (cluster : ClusterConfigSpec)
      → ((f : PropertyFile) → visits f order ≡ 1)
      → RendersProperties r
      → b.overrides ≡ some own
      → HasServerFile own
      → b.role_group_config ≡ some config
      → b.cluster_config ≡ some cluster
      → HasOutcome config cluster (yaml_of b cluster) (build r order b)
  unfolding build
  build-HasOutcome order b own config cluster once renders held has given there =
      let (b', found, items) =
        build_files-items r order b (λ f. (rendered-Succeeds b own f renders held has).0) once
          (λ f. (rendered-Succeeds b own f renders held has).1) in
      let kept = build_files-IsKept r order b b' found in
      let same =
        ap
          (λ o.
            r.make_vector_yaml o.1.1.0 o.1.1.1.0 o.1.1.1.1.0 o.1.1.1.1.1
              cluster.vector_aggregator_config_map_name)
          kept in
      subst (λ yaml. HasOutcome config cluster yaml (build r order b)) same
        (rw found (
          add_vector-HasOutcome b' config cluster renders (ap (λ o. o.0) kept ∙ given)
            (ap (λ o. o.1.0) kept ∙ there)))
