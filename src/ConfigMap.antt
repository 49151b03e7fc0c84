-- ===== src/ConfigMap.antt =====
-- internal/controller/configmap.go and `IsVectorEnable` of vector.go: the role group's config map.
-- The builder changes the user's overrides while it builds, since it copies settings into a map
-- that they hold; a step returns the changed builder.
pub mod Server
pub mod Items
pub mod Kept
pub mod Built
use kafka_operator.Prelude.{
  String, Bool, true, false, Option, none, some, List, [], ◌∷◌, Result, ok, err, panic, ◌>>=◌,
  deref, is_set, ◌==◌, if◌then◌else◌,
}
use kafka_operator.Prelude.Dict.{Dict, lookup, set, get?}
use kafka_operator.Api.Library.{OverridesSpec, RoleGroupConfigSpec, LoggingSpec}
use kafka_operator.Api.Types.{ClusterConfigSpec}
use kafka_operator.Security.{KafkaSecurity}
use kafka_operator.Security.Settings.{config_settings}
use kafka_operator.Ports.{RoleGroupInfo}
use kafka_operator.Config.{write, server_properties_filename, security_properties_filename}

abbrev pub log4j_properties_filename : String
log4j_properties_filename = "log4j.properties"

abbrev pub vector_config_filename : String
vector_config_filename = "vector.yaml"

abbrev pub kafka_log4j_filename : String
kafka_log4j_filename = "kafka.log4j.xml"

abbrev pub console_conversion_pattern : String
console_conversion_pattern = "[%d] %p %m (%c)%n"

-- What operator-go renders: the text of a properties map, the log4j generator and its text, and the
-- text of vector.yaml for a namespace, cluster, role, role group and aggregator.
pub record Renderers (Generator : Type 0) : Type 0 where
  pub marshal : Option (Dict String) → Result String
  pub new_config_generator : Option String → String → String → String → Result Generator
  pub content : Generator → Result String
  pub make_vector_yaml : String → String → String → String → String → Result String

-- `name` and `items` are those of the embedded config map builder, `owner_namespace` its client's.
pub record KafkaConfigmapBuilder : Type 0 where
  pub name : String
  pub items : Dict String
  pub owner_namespace : String
  pub cluster_config : Option ClusterConfigSpec
  pub kafka_security : KafkaSecurity
  pub overrides : Option OverridesSpec
  pub role_group_config : Option RoleGroupConfigSpec
  pub cluster_name : String
  pub role_name : String
  pub role_group_name : String

unfoldable pub new_kafka_configmap_builder :
    String
    → RoleGroupInfo
    → Option ClusterConfigSpec
    → KafkaSecurity
    → Option OverridesSpec
    → Option RoleGroupConfigSpec
    → KafkaConfigmapBuilder
new_kafka_configmap_builder owner_namespace info config k overrides role_group_config = record {
  name = info.full_name;
  items = [];
  owner_namespace = owner_namespace;
  cluster_config = config;
  kafka_security = k;
  overrides = overrides;
  role_group_config = role_group_config;
  cluster_name = info.cluster_name;
  role_name = info.role_name;
  role_group_name = info.role_group_name;
}

unfoldable pub add_item : String → String → KafkaConfigmapBuilder → KafkaConfigmapBuilder
add_item key value b = record b { items = set key value b.items }

unfoldable pub is_vector_enable : Option LoggingSpec → Result Bool
is_vector_enable none = ok false
is_vector_enable (some logging) = deref logging.enable_vector_agent

-- the overridden files, where neither pointer on the way is nil
abbrev pub overridden_files : KafkaConfigmapBuilder → Option (Dict (Option (Dict String)))
overridden_files b = elim b.overrides [ none ↦ none | some o ↦ o.config_overrides ]

-- `m[k]` of a map of maps: a nil map for a key that is missing
abbrev pub file_of : String → Dict (Option (Dict String)) → Option (Dict String)
file_of filename files = elim (lookup filename files) [ none ↦ none | some m ↦ m ]

-- `maps.Copy`
unfoldable pub copy_into : Option (Dict String) → Dict String → Result (Option (Dict String))
copy_into m [] = ok m
copy_into m ((k, v) ∷ src) = do m' ← write k v m; copy_into m' src

unfoldable pub server_data : KafkaConfigmapBuilder → Option (Dict String)
server_data b = elim (overridden_files b) [
  | none ↦ some []
  | some files ↦ file_of server_properties_filename files
]

-- A map that the overrides hold is changed in place.
unfoldable pub with_server_data :
    Option (Dict String) → KafkaConfigmapBuilder → KafkaConfigmapBuilder
with_server_data m b = elim b.overrides [
  | none ↦ b
  | some o ↦ elim o.config_overrides [
    | none ↦ b
    | some files ↦ record b {
      overrides =
          some (record o { config_overrides = some (set server_properties_filename m files) });
    }
  ]
]

-- the keys of the map of property files
pub data PropertyFile : Type 0 where
  server_properties security_properties log4j_properties : PropertyFile

abbrev pub filename : PropertyFile → String
filename server_properties = server_properties_filename
filename security_properties = security_properties_filename
filename log4j_properties = log4j_properties_filename

abbrev pub add_content : String → String → KafkaConfigmapBuilder → KafkaConfigmapBuilder
add_content key content b = if content == "" then b else add_item key content b

module _ {Generator : Type 0} (r : Renderers Generator) where
  unfoldable pub build_security_properties : KafkaConfigmapBuilder → Result String
  build_security_properties b = elim (overridden_files b) [
    | none ↦ ok ""
    | some files ↦ elim (lookup security_properties_filename files) [
      | none ↦ ok ""
      | some m ↦ r.marshal m
    ]
  ]

  unfoldable pub build_server_properties :
      KafkaConfigmapBuilder → Result (String × KafkaConfigmapBuilder)
  build_server_properties b = do
    m ← copy_into (server_data b) (config_settings b.kafka_security)
    content ← r.marshal m
    ok (content, with_server_data m b)

  -- the logging of the container named kafka
  abbrev pub main_container_logging : KafkaConfigmapBuilder → Option String
  main_container_logging b = elim b.role_group_config [
    | none ↦ none
    | some config ↦ elim config.logging [
      | none ↦ none
      | some logging ↦ get? "kafka" logging.containers
    ]
  ]

  unfoldable pub build_log4j_properties : KafkaConfigmapBuilder → Result String
  build_log4j_properties b = do
    generator ←
        r.new_config_generator (main_container_logging b) "kafka" kafka_log4j_filename
          console_conversion_pattern
    r.content generator

  -- `EnableVectorAgent`, where no pointer on the way is nil
  abbrev vector_agent : KafkaConfigmapBuilder → Option Bool
  vector_agent b = elim b.role_group_config [
    | none ↦ none
    | some config ↦ elim config.logging [ none ↦ none | some logging ↦ logging.enable_vector_agent ]
  ]

  unfoldable pub build_vector_config : KafkaConfigmapBuilder → Result String
  build_vector_config b = elim (vector_agent b) [
    | none ↦ ok ""
    | some enabled ↦ (do
      config ← deref b.cluster_config
      let aggregator = config.vector_aggregator_config_map_name
      if aggregator == ""
          then err "vector is enabled but vectorAggregatorConfigMapName is not set"
          else if enabled
          then r.make_vector_yaml b.owner_namespace b.cluster_name b.role_name b.role_group_name
              aggregator
          else ok "")
  ]

  unfoldable pub build_file :
      PropertyFile → KafkaConfigmapBuilder → Result (String × KafkaConfigmapBuilder)
  build_file server_properties b = build_server_properties b
  build_file security_properties b = do content ← build_security_properties b; ok (content, b)
  build_file log4j_properties b = do content ← build_log4j_properties b; ok (content, b)

  -- the loop over the property files, over an enumeration of them
  unfoldable pub build_files :
      List PropertyFile → KafkaConfigmapBuilder → Result KafkaConfigmapBuilder
  build_files [] b = ok b
  build_files (f ∷ fs) b = do
    (content, b') ← build_file f b
    build_files fs (add_content (filename f) content b')

  unfoldable pub add_vector : KafkaConfigmapBuilder → Result KafkaConfigmapBuilder
  add_vector b = do
    config ← deref b.role_group_config
    enabled ← is_vector_enable config.logging
    content ← if enabled then build_vector_config b else ok ""
    ok (add_content vector_config_filename content b)

  -- The built config map's entries are the builder's items.
  unfoldable pub build : List PropertyFile → KafkaConfigmapBuilder → Result KafkaConfigmapBuilder
  build order b = do b' ← build_files order b; add_vector b'
