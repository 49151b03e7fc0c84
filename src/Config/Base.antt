-- ===== src/Config/Base.antt =====
-- internal/controller/cluster_config.go: `mergeBaseConfig`.
use kafka_operator.Prelude.{
  String, true, Option, none, some, ◌≡◌, refl, ◌≢◌, ◌⊎◌, arith, Result, ok, ==_iff, is_set, ◌==◌,
}
use kafka_operator.Prelude.Dict.{or_else}
use kafka_operator.Api.Library.{Constants, RoleGroupConfigSpec, ResourcesSpec}
use kafka_operator.Api.Types.{BrokersConfigSpec}
use kafka_operator.Config.{
  Affinity, default_kafka_config, with_resources, merge_resources, merge_base_config,
  merge_base_config_of, or_text, default_role_group_config_spec, default_resources,
}

-- A part that the user gives is kept, and one that he does not give is the default; a part is there
-- in any case.
abbrev pub IsFilledPart {ℓ} : {A : Type ℓ} → Option A → Option A → Option A → Type ℓ
IsFilledPart default user own =
    (own ≢ none) × (((user ≢ none) × (own ≡ user)) ⊎ ((user ≡ none) × (own ≡ default)))

-- A text that the user sets is kept, and one that he does not set is the default.
abbrev pub IsFilledText : String → String → String → Type 0
IsFilledText default user own =
    ((is_set user ≡ true) × (own ≡ user)) ⊎ ((user ≡ "") × (own ≡ default))

-- the resources of a broker for which the user sets none
abbrev expected_resources : ResourcesSpec
expected_resources = record {
  cpu = some (record { min = "250m"; max = "1000m" });
  memory_limit = some "1Gi";
  storage = some (record { capacity = "2Gi"; storage_class = "" });
}

abbrev pub IsFilledResources : Option ResourcesSpec → ResourcesSpec → Type 0
IsFilledResources none own = own ≡ expected_resources
IsFilledResources (some user) own =
    IsFilledPart expected_resources.cpu user.cpu own.cpu
    × IsFilledPart expected_resources.memory_limit user.memory_limit own.memory_limit
    × IsFilledPart expected_resources.storage user.storage own.storage

-- A role group's configuration that the user gives is kept but for its resources, and one that he
-- does not give is the default.
abbrev pub IsFilledSpec :
    RoleGroupConfigSpec → Option RoleGroupConfigSpec → RoleGroupConfigSpec → Type 0
IsFilledSpec default none own = (own ≡ default) × (own.resources ≡ some expected_resources)
IsFilledSpec default (some user) own =
    (resources : ResourcesSpec) × (own ≡ record user { resources = some resources })
    × IsFilledResources user.resources resources

-- The listener classes and the life time are set, and CPU, memory and storage are there.
abbrev pub HasDefaults : BrokersConfigSpec → Type 0
HasDefaults own =
    (spec : RoleGroupConfigSpec) × (resources : ResourcesSpec) × (own.role_group_config ≡ some spec)
    × (spec.resources ≡ some resources)
    × (resources.cpu ≢ none)
    × (resources.memory_limit ≢ none)
    × (resources.storage ≢ none)
    × (is_set own.broker_listener_class ≡ true)
    × (is_set own.bootstrap_listener_class ≡ true)
    × (is_set own.requested_secret_life_time ≡ true)

abbrev merged_resources : Option ResourcesSpec → ResourcesSpec
merged_resources none = default_resources
merged_resources (some own) = record {
  cpu = or_else own.cpu default_resources.cpu;
  memory_limit = or_else own.memory_limit default_resources.memory_limit;
  storage = or_else own.storage default_resources.storage;
}

merged_resources-IsFilledResources :
    (user : Option ResourcesSpec) → IsFilledResources user (merged_resources user)
merged_resources-IsFilledResources none = refl
merged_resources-IsFilledResources (some user) = ground arith

abbrev merged_spec : RoleGroupConfigSpec → Option RoleGroupConfigSpec → RoleGroupConfigSpec
merged_spec default none = default
merged_spec default (some spec) = record spec { resources = some (merged_resources spec.resources) }

merged_spec-IsFilledSpec :
    (default : RoleGroupConfigSpec) (user : Option RoleGroupConfigSpec)
    → default.resources ≡ some expected_resources
    → IsFilledSpec default user (merged_spec default user)
merged_spec-IsFilledSpec default none complete = (refl, complete)
merged_spec-IsFilledSpec default (some spec) complete =
    (merged_resources spec.resources, refl, merged_resources-IsFilledResources spec.resources)

or_text-IsFilledText : (default user : String) → IsFilledText default user (or_text user default)
unfolding is_set
or_text-IsFilledText default user = ground (arith, ==_iff user "")

or_text_idem :
    (default user : String) → or_text (or_text user default) default ≡ or_text user default
or_text_idem default user = ground arith

merged_spec_idem :
    (default : RoleGroupConfigSpec) (user : Option RoleGroupConfigSpec)
    → default.resources ≡ some default_resources
    → merged_spec default (some (merged_spec default user)) ≡ merged_spec default user
merged_spec_idem default none complete = ground arith
merged_spec_idem default (some spec) complete = ground arith

or_text_set : (default user : String) → is_set default ≡ true → is_set (or_text user default) ≡ true
unfolding is_set
or_text_set default user fine = ground arith

merged_spec-resources :
    (default : RoleGroupConfigSpec) (user : Option RoleGroupConfigSpec)
    → default.resources ≡ some default_resources
    → (resources : ResourcesSpec) × ((merged_spec default user).resources ≡ some resources)
      × (resources.cpu ≢ none)
      × (resources.memory_limit ≢ none)
      × (resources.storage ≢ none)
merged_spec-resources default none complete =
    (default_resources, complete, ground arith, ground arith, ground arith)
merged_spec-resources default (some spec) complete =
    (merged_resources spec.resources, refl, ground arith, ground arith, ground arith)

module _ (c : Constants) (marshal : Affinity → Result String) (cluster_name : String) where
  abbrev default_spec : RoleGroupConfigSpec
  default_spec = default_role_group_config_spec (default_kafka_config c marshal cluster_name)

  -- the configuration that the merge of a configuration comes to
  unfoldable pub merged_config : BrokersConfigSpec → BrokersConfigSpec
  merged_config user = record {
    role_group_config = some (merged_spec default_spec user.role_group_config);
    bootstrap_listener_class = or_text user.bootstrap_listener_class "cluster-internal";
    broker_listener_class = or_text user.broker_listener_class "cluster-internal";
    requested_secret_life_time = or_text user.requested_secret_life_time "1d";
  }

  pub merge_base_config-total :
      (user : BrokersConfigSpec)
      → merge_base_config (some user) (default_kafka_config c marshal cluster_name)
        ≡ ok (some (merged_config user))
  unfolding merge_base_config merge_base_config_of default_kafka_config with_resources merged_config
      default_role_group_config_spec merge_resources
  merge_base_config-total user = ground arith

  pub merged_config_idem :
      (user : BrokersConfigSpec) → merged_config (merged_config user) ≡ merged_config user
  unfolding merged_config default_role_group_config_spec default_kafka_config
  merged_config_idem user = ground (
    arith,
    merged_spec_idem default_spec user.role_group_config refl,
    or_text_idem "cluster-internal" user.broker_listener_class,
    or_text_idem "cluster-internal" user.bootstrap_listener_class,
    or_text_idem "1d" user.requested_secret_life_time,
  )

  -- The merge of a configuration succeeds and leaves no gap: a listener class or a life time that
  -- the user did not set is the default, and so are CPU, memory and storage, each on its own: 250m to
  -- 1000m of CPU, 1Gi of memory and 2Gi of storage. What the user did set is kept, and with it his
  -- other role group settings, set or not; without any, the role group's are the default ones.
  pub merge_base_config-IsFilledSpec :
      (user : BrokersConfigSpec)
      → (spec : RoleGroupConfigSpec) × (own : BrokersConfigSpec) × (merge_base_config
            (some user)
            (default_kafka_config c marshal cluster_name)
          ≡ ok (some own))
        × (own.role_group_config ≡ some spec)
        × IsFilledSpec
            (default_role_group_config_spec (default_kafka_config c marshal cluster_name))
            user.role_group_config
            spec
        × IsFilledText "cluster-internal" user.broker_listener_class own.broker_listener_class
        × IsFilledText "cluster-internal" user.bootstrap_listener_class own.bootstrap_listener_class
        × IsFilledText "1d" user.requested_secret_life_time own.requested_secret_life_time
  unfolding merged_config
  merge_base_config-IsFilledSpec user = (
    merged_spec default_spec user.role_group_config,
    merged_config user,
    merge_base_config-total user,
    refl,
    merged_spec-IsFilledSpec default_spec user.role_group_config
        (unfold default_role_group_config_spec default_kafka_config in refl),
    or_text-IsFilledText "cluster-internal" user.broker_listener_class,
    or_text-IsFilledText "cluster-internal" user.bootstrap_listener_class,
    or_text-IsFilledText "1d" user.requested_secret_life_time,
  )

  -- what a stateful set needs of its configuration
  pub merged_config-HasDefaults : (user : BrokersConfigSpec) → HasDefaults (merged_config user)
  unfolding merged_config default_role_group_config_spec default_kafka_config
  merged_config-HasDefaults user =
      let (resources, there, cpu, memory, storage) =
        merged_spec-resources default_spec user.role_group_config refl in
      (
        merged_spec default_spec user.role_group_config,
        resources,
        refl,
        there,
        cpu,
        memory,
        storage,
        or_text_set "cluster-internal" user.broker_listener_class (unfold is_set ◌==◌ in refl),
        or_text_set "cluster-internal" user.bootstrap_listener_class (unfold is_set ◌==◌ in refl),
        or_text_set "1d" user.requested_secret_life_time (unfold is_set ◌==◌ in refl),
      )
