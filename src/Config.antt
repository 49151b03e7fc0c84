-- ===== src/Config.antt =====
-- internal/controller/cluster_config.go: the default configuration, and its merge into what the
-- user wrote. A function that changes the object behind a pointer returns the object; where the
-- pointer is nil, it works on an object of its own and its caller keeps nil.
pub mod Defaults
pub mod Files
pub mod Overrides
pub mod Base
pub mod User
pub mod Order
pub mod Merged
unfoldable pub use Defaults.*
use kafka_operator.Prelude.{String, Bool, true, false, Option, none, some, List, [], ◌∷◌, ◌++◌, ℕ}
use kafka_operator.Prelude.{Result, ok, err, panic, ◌>>=◌, deref, ◌==◌, is_set, if◌then◌else◌}
use kafka_operator.Prelude.Lists.{contains}
use kafka_operator.Prelude.Dict.{Dict, lookup, set, has, get?, fill}
use kafka_operator.Prelude.Text.{path_join}
use kafka_operator.Api.Library.{
  Constants, RoleGroupConfigSpec, OverridesSpec, ResourcesSpec, LoggingSpec, CpuResource,
  StorageResource,
}
use kafka_operator.Api.Types.{BrokersConfigSpec}

-- `m[k] = v`, which panics on a nil map
abbrev pub write : String → String → Option (Dict String) → Result (Option (Dict String))
write k v none = panic
write k v (some m) = ok (some (set k v m))

abbrev pub fill_entry : String → String → Option (Dict String) → Result (Option (Dict String))
fill_entry k v m = elim (get? k m) [ none ↦ write k v m | some old ↦ ok m ]

-- the inner loop of the merge of files, over an enumeration of a file's defaults
unfoldable pub fill_file : Option (Dict String) → Dict String → Result (Option (Dict String))
fill_file m [] = ok m
fill_file m ((k, v) ∷ defaults) = do m' ← fill_entry k v m; fill_file m' defaults

unfoldable pub merge_file :
    String → Dict String → Dict (Option (Dict String)) → Result (Dict (Option (Dict String)))
merge_file filename configs files = elim (lookup filename files) [
  | none ↦ ok (set filename (some configs) files)
  | some m ↦ (do m' ← fill_file m configs; ok (set filename m' files))
]

-- the outer loop, over an enumeration of the default files
unfoldable pub merge_files :
    Dict (Option (Dict String)) → Dict (Dict String) → Result (Dict (Option (Dict String)))
merge_files files [] = ok files
merge_files files ((filename, configs) ∷ defaults) = do
  merged ← merge_file filename configs files
  merge_files merged defaults

-- the loop over the default command line
unfoldable pub add_missing : List String → List String → List String
add_missing cli [] = cli
add_missing cli (cmd ∷ cmds) = add_missing (if contains cli cmd then cli else cli ++ cmd ∷ []) cmds

abbrev pub or_empty {ℓ} : {A : Type ℓ} → Option (List A) → List A
or_empty none = []
or_empty (some xs) = xs

unfoldable pub merge_overrides_of : Constants → KafkaConfig → OverridesSpec → Result OverridesSpec
merge_overrides_of c default user =
    let cli : List String = elim (compute_cli default) [
      | ok cmds ↦ add_missing (or_empty user.cli_overrides) cmds
      | err e ↦ or_empty user.cli_overrides
      | panic ↦ or_empty user.cli_overrides
    ] in
    let env : Dict String = elim (compute_env default) [
      | ok envs ↦ fill (or_empty user.env_overrides) envs
      | err e ↦ or_empty user.env_overrides
      | panic ↦ or_empty user.env_overrides
    ] in
    do
      files ← elim (compute_file c default) [
        | ok defaults ↦ merge_files (or_empty user.config_overrides) defaults
        | err e ↦ ok (or_empty user.config_overrides)
        | panic ↦ panic
      ]
      ok (record user {
        cli_overrides = some cli;
        env_overrides = some env;
        config_overrides = some files;
      })

unfoldable pub merge_overrides :
    Constants → Option OverridesSpec → KafkaConfig → Result (Option OverridesSpec)
merge_overrides c none default = do
  own ← merge_overrides_of c default (record {
    cli_overrides = none;
    env_overrides = none;
    config_overrides = none;
    pod_overrides = none;
  })
  ok none
merge_overrides c (some user) default = do
  merged ← merge_overrides_of c default user
  ok (some merged)

-- A part of the defaults is read only where the user's is nil.
abbrev pub or_default {ℓ} :
    {A : Type ℓ} → Option A → Option ResourcesSpec → (ResourcesSpec → Option A) → Result (Option A)
or_default (some user) default part = ok (some user)
or_default none default part = do d ← deref default; ok (part d)

unfoldable pub merge_resources : ResourcesSpec → Option ResourcesSpec → Result ResourcesSpec
merge_resources user default = do
  cpu ← or_default user.cpu default (λ d. d.cpu)
  memory_limit ← or_default user.memory_limit default (λ d. d.memory_limit)
  storage ← or_default user.storage default (λ d. d.storage)
  ok (record { cpu = cpu; memory_limit = memory_limit; storage = storage })

unfoldable pub default_role_group_config_spec : KafkaConfig → RoleGroupConfigSpec
default_role_group_config_spec k = record {
  affinity = k.role_group_config.affinity;
  graceful_shutdown_timeout = k.role_group_config.graceful_shutdown_timeout;
  logging = k.role_group_config.logging;
  resources = k.role_group_config.resources;
}

-- the role group's own configuration, where there is one
unfoldable pub with_resources : KafkaConfig → RoleGroupConfigSpec → Result RoleGroupConfigSpec
with_resources default spec = elim spec.resources [
  | none ↦ ok (record spec { resources = default.role_group_config.resources })
  | some user ↦ (do
    resources ← merge_resources user default.role_group_config.resources
    ok (record spec { resources = some resources }))
]

abbrev pub or_text : String → String → String
or_text user default = if user == "" then default else user

unfoldable pub merge_base_config_of : BrokersConfigSpec → KafkaConfig → Result BrokersConfigSpec
merge_base_config_of user default = do
  let present : RoleGroupConfigSpec = elim user.role_group_config [
    | none ↦ default_role_group_config_spec default
    | some spec ↦ spec
  ]
  spec ← with_resources default present
  ok (record {
    role_group_config = some spec;
    bootstrap_listener_class =
        or_text user.bootstrap_listener_class default.bootstrap_listener_class;
    broker_listener_class = or_text user.broker_listener_class default.broker_listener_class;
    requested_secret_life_time =
        or_text user.requested_secret_life_time default.requested_secret_lifetime;
  })

unfoldable pub merge_base_config :
    Option BrokersConfigSpec → KafkaConfig → Result (Option BrokersConfigSpec)
merge_base_config none default = do
  own ←
      merge_base_config_of
        (record {
          role_group_config = some (default_role_group_config_spec default);
          broker_listener_class = "";
          bootstrap_listener_class = "";
          requested_secret_life_time = "";
        })
        default
  ok none
merge_base_config (some user) default = do
  merged ← merge_base_config_of user default
  ok (some merged)

-- what a nil user configuration is replaced by
abbrev pub replacement : KafkaConfig → BrokersConfigSpec
replacement default = record {
  role_group_config = some (record {
    affinity = default.role_group_config.affinity;
    graceful_shutdown_timeout = "";
    logging = none;
    resources = default.role_group_config.resources;
  });
  broker_listener_class = "";
  bootstrap_listener_class = "";
  requested_secret_life_time = "";
}

-- The two objects behind the caller's pointers after the call.
unfoldable pub merge_from_user_config :
    Constants
    → (Affinity → Result String)
    → Option BrokersConfigSpec
    → Option OverridesSpec
    → String
    → Result (Option BrokersConfigSpec × Option OverridesSpec)
merge_from_user_config c marshal none overrides cluster_name = do
  let default = default_kafka_config c marshal cluster_name
  own ← merge_base_config (some (replacement default)) default
  merged_overrides ← merge_overrides c overrides default
  ok (none, merged_overrides)
merge_from_user_config c marshal (some user) overrides cluster_name = do
  let default = default_kafka_config c marshal cluster_name
  merged ← merge_base_config (some user) default
  merged_overrides ← merge_overrides c overrides default
  ok (merged, merged_overrides)
