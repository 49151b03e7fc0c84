-- ===== src/Config/Merged.antt =====
-- internal/controller/cluster_config.go: when `MergeFromUserConfig` succeeds.
use kafka_operator.Prelude.{String, Option, none, some, ◌≡◌, ◌≢◌, inl, inr, refl, Result, ok}
use kafka_operator.Prelude.Dict.{Dict, lookup}
use kafka_operator.Api.Library.{Constants, OverridesSpec}
use kafka_operator.Api.Types.{BrokersConfigSpec}
use kafka_operator.Config.{
  Affinity, default_files, merge_files, merge_from_user_config, merge_overrides, merge_overrides_of,
  or_empty, security_properties_filename, server_properties_filename,
}
use kafka_operator.Config.Overrides.{
  default_files-All, default_files-NodupKeys, default_files_panic,
}
use kafka_operator.Config.Order.{HasKeys, merge_files-Meets, merge_files-cases}
use kafka_operator.Config.Base.{merge_base_config-total}

-- Neither default file is a nil map.
abbrev pub HasNoNilFile : OverridesSpec → Type 0
HasNoNilFile o =
    (lookup server_properties_filename (or_empty o.config_overrides) ≢ some none)
    × (lookup security_properties_filename (or_empty o.config_overrides) ≢ some none)

default_files_merged :
    (c : Constants) (o : OverridesSpec)
    → HasNoNilFile o
    → (r : Dict (Option (Dict String))) × (merge_files
          (or_empty o.config_overrides)
          (default_files c)
        ≡ ok r)
default_files_merged c o (server, security) =
    let keys : HasKeys (default_files c) = (default_files-NodupKeys c, default_files-All c) in
    elim (merge_files-cases (or_empty o.config_overrides) (default_files c) keys) [
      | inl meets ↦
          elim ((default_files_panic c (or_empty o.config_overrides)).0
            (merge_files-Meets (or_empty o.config_overrides) (default_files c) keys meets)) [
              | inl nil ↦ absurd (server nil)
              | inr nil ↦ absurd (security nil)
            ]
      | inr merged ↦ merged
    ]

-- The merge of a configuration and of overrides without a nil default file succeeds.
pub merge_from_user_config-Succeeds :
    (c : Constants) (marshal : Affinity → Result String) (user : BrokersConfigSpec)
    (overrides : OverridesSpec) (cluster_name : String)
    → HasNoNilFile overrides
    → (own : BrokersConfigSpec) × (merged : OverridesSpec) × (merge_from_user_config c marshal
          (some user)
          (some overrides)
          cluster_name
        ≡ ok (some own, some merged))
unfolding merge_from_user_config merge_overrides merge_overrides_of
merge_from_user_config-Succeeds c marshal user overrides cluster_name no_nil =
    let (files, merged) = default_files_merged c overrides no_nil in
    rw (merge_base_config-total c marshal cluster_name user, merged) (_, _, refl)
