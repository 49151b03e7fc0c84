-- ===== src/Config/User.antt =====
-- internal/controller/cluster_config.go: `MergeFromUserConfig`.
use kafka_operator.Prelude.{
  String, Option, none, some, ◌≡◌, arith, Result, ok, ◌>>=◌, >>=-eq-ok, subst, ap,
  Result-ok_injective,
}
use kafka_operator.Api.Library.{Constants, OverridesSpec}
use kafka_operator.Api.Types.{BrokersConfigSpec}
use kafka_operator.Config.{
  Affinity, default_kafka_config, merge_base_config, merge_from_user_config, merge_overrides,
  replacement,
}
use kafka_operator.Config.Overrides.{
  HasServerFile, merge_overrides_idem, merge_overrides-HasServerFile,
}
use kafka_operator.Config.Base.{
  HasDefaults, merge_base_config-total, merged_config, merged_config-HasDefaults,
  merged_config_idem,
}

module _ (c : Constants) (marshal : Affinity → Result String) (cluster_name : String) where
  -- A second merge of the objects that the first one left changes nothing.
  pub merge_from_user_config_idem :
      (user r : Option BrokersConfigSpec) (overrides s : Option OverridesSpec)
      → merge_from_user_config c marshal user overrides cluster_name ≡ ok (r, s)
      → merge_from_user_config c marshal r s cluster_name ≡ ok (r, s)
  unfolding merge_from_user_config
  merge_from_user_config_idem none r overrides s h =
      let default = default_kafka_config c marshal cluster_name in
      let (own, _, rest) =
        >>=-eq-ok (merge_base_config (some (replacement default)) default)
          (λ own. merge_overrides c overrides default >>= λ o. ok (none, o)) h in
      let (o, merged, same) =
        >>=-eq-ok (merge_overrides c overrides default) (λ o. ok (none, o)) rest in
      ground (
        arith,
        merge_overrides_idem c default overrides o merged,
        merge_base_config-total c marshal cluster_name (replacement default),
      )
  merge_from_user_config_idem (some user) r overrides s h =
      let default = default_kafka_config c marshal cluster_name in
      let (own, _, rest) =
        >>=-eq-ok (merge_base_config (some user) default)
          (λ own. merge_overrides c overrides default >>= λ o. ok (own, o)) h in
      let (o, merged, same) =
        >>=-eq-ok (merge_overrides c overrides default) (λ o. ok (own, o)) rest in
      ground (
        arith,
        merge_overrides_idem c default overrides o merged,
        merge_base_config-total c marshal cluster_name user,
        merge_base_config-total c marshal cluster_name (merged_config c marshal cluster_name user),
        merged_config_idem c marshal cluster_name user,
      )

  -- The configuration that the merge leaves has no gap.
  pub merge_from_user_config-HasDefaults :
      (user : BrokersConfigSpec) (overrides s : Option OverridesSpec) (r : Option BrokersConfigSpec)
      → merge_from_user_config c marshal (some user) overrides cluster_name ≡ ok (r, s)
      → (own : BrokersConfigSpec) × (r ≡ some own) × HasDefaults own
  unfolding merge_from_user_config
  merge_from_user_config-HasDefaults user overrides s r h =
      let default = default_kafka_config c marshal cluster_name in
      let (own, _, rest) =
        >>=-eq-ok (merge_base_config (some user) default)
          (λ own. merge_overrides c overrides default >>= λ o. ok (own, o)) h in
      let (o, _, same) = >>=-eq-ok (merge_overrides c overrides default) (λ o. ok (own, o)) rest in
      (
        merged_config c marshal cluster_name user,
        ground (arith, merge_base_config-total c marshal cluster_name user),
        merged_config-HasDefaults c marshal cluster_name user,
      )

  -- The overrides that the merge leaves hold server.properties.
  pub merge_from_user_config-HasServerFile :
      (user : BrokersConfigSpec) (overrides : OverridesSpec) (s : Option OverridesSpec)
      (r : Option BrokersConfigSpec)
      → merge_from_user_config c marshal (some user) (some overrides) cluster_name ≡ ok (r, s)
      → (own : OverridesSpec) × (s ≡ some own) × HasServerFile own
  unfolding merge_from_user_config
  merge_from_user_config-HasServerFile user overrides s r h =
      let default = default_kafka_config c marshal cluster_name in
      let (own, _, rest) =
        >>=-eq-ok (merge_base_config (some user) default)
          (λ own. merge_overrides c (some overrides) default >>= λ o. ok (own, o)) h in
      let (o, merged, same) =
        >>=-eq-ok (merge_overrides c (some overrides) default) (λ o. ok (own, o)) rest in
      subst (λ s. (own : OverridesSpec) × (s ≡ some own) × HasServerFile own)
        (ap (λ both. both.1) (Result-ok_injective same))
        (merge_overrides-HasServerFile c default overrides o merged)
