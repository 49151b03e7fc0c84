-- ===== src/Tests/Config.antt =====
-- Runs and theorems on the merge of a configuration.
use kafka_operator.Prelude.{
  String, false, none, some, [], ◌∷◌, Option, ◌≡◌, refl, ok, panic, Result, ◌==◌, ==_iff, arith,
  ◌⊎◌, ◌↔◌,
}
use kafka_operator.Prelude.Dict.{Dict, lookup, set, or_else}
use kafka_operator.Api.Library.{OverridesSpec, RoleGroupConfigSpec}
use kafka_operator.Api.Types.{BrokersConfigSpec}
use kafka_operator.Config.{
  Affinity, KafkaConfig, default_kafka_config, fill_file, merge_file, merge_files,
  merge_overrides_of, merge_overrides, merge_resources, default_role_group_config_spec,
  with_resources, merge_base_config_of, merge_base_config, merge_from_user_config, default_files,
  server_properties_filename, security_properties_filename, or_empty, server_defaults,
}
use kafka_operator.Config.Files.{value_of, default_of}
use kafka_operator.Config.Overrides.{merge_overrides-value, merge_overrides-eq-panic_iff}
use kafka_operator.Config.Base.{IsFilledSpec, IsFilledText, merge_base_config-IsFilledSpec}
use kafka_operator.Config.User.{merge_from_user_config_idem}
use kafka_operator.Config.Order.{
  Defaults, HasKeys, IsMerge, MeetsNil, SameDefaults, merge_files-refines,
}
use mathlib.Core.Quot
use kafka_operator.Tests.Data.{constants}

abbrev marshal : Affinity → Result String
marshal a = ok "{}"

abbrev pub default : KafkaConfig
default = default_kafka_config constants marshal "simple"

-- a user who sets one value of server.properties and one listener class
abbrev pub overrides : OverridesSpec
overrides = record {
  pod_overrides = none;
  cli_overrides = none;
  env_overrides = none;
  config_overrides = some (("server.properties", some (("log.dirs", "/data") ∷ [])) ∷ []);
}

abbrev user : BrokersConfigSpec
user = record {
  role_group_config = some (record {
    affinity = none;
    graceful_shutdown_timeout = "";
    logging = none;
    resources = some (record { cpu = none; memory_limit = some "4Gi"; storage = none });
  });
  broker_listener_class = "external-stable";
  bootstrap_listener_class = "";
  requested_secret_life_time = "";
}

abbrev pub merged_overrides : OverridesSpec
merged_overrides = record {
  pod_overrides = none;
  cli_overrides = some [];
  env_overrides = some [];
  config_overrides = some (
      (
        "server.properties",
        some (
            ("log.dirs", "/data")
            ∷ ("zookeeper.connection.timeout.ms", "18000")
            ∷ ("controlled.shutdown.enable", "true")
            ∷ []),
      )
      ∷ (
        "security.properties",
        some (("networkaddress.cache.ttl", "30") ∷ ("networkaddress.cache.negative.ttl", "0") ∷ []),
      )
      ∷ []);
}

pub overrides_merged :
    merge_overrides constants (some overrides) default ≡ ok (some merged_overrides)
unfolding merge_overrides merge_overrides_of merge_files merge_file fill_file lookup set ◌==◌
overrides_merged = refl

merge_overrides-value_example :
    (files : Dict (Option (Dict String))) × (some merged_overrides
      ≡ some (record {
        pod_overrides = none;
        cli_overrides = some [];
        env_overrides = some [];
        config_overrides = some files;
      }))
    × ((f key : String)
        → value_of f key files
          ≡ or_else
              (value_of f key (or_empty overrides.config_overrides))
              (default_of f key (default_files constants)))
merge_overrides-value_example =
    merge_overrides-value constants default overrides (some merged_overrides) overrides_merged

abbrev nil_map : OverridesSpec
nil_map = record {
  pod_overrides = none;
  cli_overrides = none;
  env_overrides = none;
  config_overrides = some (("security.properties", none) ∷ []);
}

merge_overrides-eq-panic_iff_example :
    (merge_overrides constants (some nil_map) default ≡ panic) ↔ (
      (lookup server_properties_filename (or_empty nil_map.config_overrides) ≡ some none)
      ⊎ (lookup security_properties_filename (or_empty nil_map.config_overrides) ≡ some none))
merge_overrides-eq-panic_iff_example = merge_overrides-eq-panic_iff constants default nil_map

merge_base_config-IsFilledSpec_example :
    (spec : RoleGroupConfigSpec) × (own : BrokersConfigSpec) × (merge_base_config
        (some user)
        default
      ≡ ok (some own))
    × (own.role_group_config ≡ some spec)
    × IsFilledSpec (default_role_group_config_spec default) user.role_group_config spec
    × IsFilledText "cluster-internal" "external-stable" own.broker_listener_class
    × IsFilledText "cluster-internal" "" own.bootstrap_listener_class
    × IsFilledText "1d" "" own.requested_secret_life_time
merge_base_config-IsFilledSpec_example =
    merge_base_config-IsFilledSpec constants marshal "simple" user

abbrev merged_user : BrokersConfigSpec
merged_user = record {
  role_group_config = some (record {
    affinity = none;
    graceful_shutdown_timeout = "";
    logging = none;
    resources = some (record {
      cpu = some (record { min = "250m"; max = "1000m" });
      memory_limit = some "4Gi";
      storage = some (record { capacity = "2Gi"; storage_class = "" });
    });
  });
  broker_listener_class = "external-stable";
  bootstrap_listener_class = "cluster-internal";
  requested_secret_life_time = "1d";
}

user_merged :
    merge_from_user_config constants marshal (some user) (some overrides) "simple"
    ≡ ok (some merged_user, some merged_overrides)
unfolding merge_from_user_config default_kafka_config merge_base_config merge_base_config_of
    with_resources merge_resources merge_overrides merge_overrides_of merge_files merge_file
    fill_file lookup set ◌==◌
user_merged = refl

merge_from_user_config_idem_example :
    merge_from_user_config constants marshal (some merged_user) (some merged_overrides) "simple"
    ≡ ok (some merged_user, some merged_overrides)
merge_from_user_config_idem_example =
    merge_from_user_config_idem constants marshal "simple" (some user) (some merged_user)
      (some overrides) (some merged_overrides) user_merged

-- the default files, with the order of the files and of their keys forgotten
abbrev unordered : Defaults
unordered = Quot.mk (default_files constants)

-- another order of them
abbrev reordered : Dict (Dict String)
reordered =
    (
      security_properties_filename,
      ("networkaddress.cache.negative.ttl", "0") ∷ ("networkaddress.cache.ttl", "30") ∷ [],
    )
    ∷ (server_properties_filename, server_defaults constants)
    ∷ []

reordered_keys : HasKeys reordered
unfolding lookup ◌==◌
reordered_keys = ((refl, (refl, tt)), ((refl, (refl, tt)), ((refl, (refl, (refl, tt))), tt)))

keys_differ :
    (("networkaddress.cache.ttl" == "networkaddress.cache.negative.ttl") ≡ false)
    × ((security_properties_filename == server_properties_filename) ≡ false)
unfolding ◌==◌
keys_differ = (refl, refl)

reordered_same : SameDefaults reordered (default_files constants)
unfolding lookup
reordered_same f k = ground (
  arith,
  ==_iff security_properties_filename f,
  ==_iff server_properties_filename f,
  ==_iff "networkaddress.cache.ttl" k,
  ==_iff "networkaddress.cache.negative.ttl" k,
  keys_differ,
  ==_iff "networkaddress.cache.ttl" "networkaddress.cache.negative.ttl",
  ==_iff security_properties_filename server_properties_filename,
)

merge_files-refines_example :
    ((merge_files (or_empty overrides.config_overrides) reordered ≡ panic)
      × MeetsNil (or_empty overrides.config_overrides) unordered)
    ⊎ ((r : Dict (Option (Dict String))) × (merge_files
            (or_empty overrides.config_overrides)
            reordered
          ≡ ok r)
        × IsMerge (or_empty overrides.config_overrides) unordered r)
merge_files-refines_example =
    merge_files-refines (or_empty overrides.config_overrides) unordered reordered
      (Quot.sound reordered_same) reordered_keys
