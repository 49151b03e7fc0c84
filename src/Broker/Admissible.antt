-- ===== src/Broker/Admissible.antt =====
-- internal/controller/role.go: role groups whose registration succeeds.
use kafka_operator.Prelude.{String, Option, some, List, [], ◌∷◌, ◌++◌, ◌≡◌, refl, ok}
use kafka_operator.Prelude.Lists.{All}
use kafka_operator.Prelude.Dict.{Dict}
use kafka_operator.Api.Library.{Constants, OverridesSpec}
use kafka_operator.Api.Types.{BrokersConfigSpec, BrokersRoleGroupSpec, BrokersSpec}
use kafka_operator.Config.Merged.{HasNoNilFile, merge_from_user_config-Succeeds}
use kafka_operator.Ports.{RoleGroupInfo}
use kafka_operator.Service.{new_role_group_service}
use kafka_operator.StatefulSet.Steps.{Succeeds}
use kafka_operator.Broker.{
  BrokerReconciler, Reconciler, RoleLibrary, empty_config, empty_overrides, or_new,
  register_resource_with_role_group, register_resources, register_role_group, register_role_groups,
  role_group_info,
}

-- operator-go merges any two configurations, and labels every role group.
abbrev pub MergesAndLabels : RoleLibrary → Type 0
MergesAndLabels lib =
    ((role group : Option BrokersConfigSpec) → Succeeds (lib.merge_config role group))
    × ((info : RoleGroupInfo) → (labels : Dict String) × (lib.labels info ≡ some labels))

-- The role group is there, and neither default file of its overrides, merged with the role's, is a
-- nil map.
abbrev pub IsAdmissible :
    RoleLibrary → BrokersSpec → (String × Option BrokersRoleGroupSpec) → Type 0
IsAdmissible lib spec (name, group) =
    (role_group : BrokersRoleGroupSpec) × (merged : Option OverridesSpec) × (group
      ≡ some role_group)
    × (lib.merge_overrides_spec spec.overrides role_group.overrides ≡ ok merged)
    × HasNoNilFile (or_new merged empty_overrides)

module _ (c : Constants) (lib : RoleLibrary) (laws : MergesAndLabels lib)
    (b : BrokerReconciler) where
  register_role_group-Succeeds :
      (spec : BrokersSpec) (name : String) (group : Option BrokersRoleGroupSpec)
      → IsAdmissible lib spec (name, group)
      → Succeeds (register_role_group c lib b spec name group)
  unfolding register_role_group register_resource_with_role_group new_role_group_service
  register_role_group-Succeeds spec name group (role_group, overrides, there, joined, no_nil) =
      let (config, merged) = laws.0 spec.config role_group.config in
      let (own, own_overrides, filled) =
        merge_from_user_config-Succeeds c lib.marshal (or_new config empty_config)
          (or_new overrides empty_overrides) b.role_info.cluster_name no_nil in
      let (labels, labelled) = laws.1 (role_group_info c lib b name) in
      rw (there, merged, joined, filled, labelled) (_, refl)

  register_role_groups-Succeeds :
      (spec : BrokersSpec) (groups : Dict (Option BrokersRoleGroupSpec))
      (resources : List Reconciler)
      → All (IsAdmissible lib spec) groups
      → Succeeds (register_role_groups c lib b spec groups resources)
  unfolding register_role_groups
  register_role_groups-Succeeds spec [] resources all = (resources, refl)
  register_role_groups-Succeeds spec ((name, group) ∷ groups) resources (one, all) =
      let (added, registered) = register_role_group-Succeeds spec name group one in
      rw registered (register_role_groups-Succeeds spec groups (resources ++ added) all)

-- A role that is there and whose role groups are admissible is registered.
pub register_resources-Succeeds :
    (c : Constants) (lib : RoleLibrary) (b : BrokerReconciler) (spec : BrokersSpec)
    → MergesAndLabels lib
    → b.spec ≡ some spec
    → All (IsAdmissible lib spec) spec.role_groups
    → Succeeds (register_resources c lib b)
unfolding register_resources
register_resources-Succeeds c lib b spec laws there all =
    let (rs, registered) =
      register_role_groups-Succeeds c lib laws (record b { spec = some spec }) spec spec.role_groups
        b.resources all in
    rw (there, registered) (_, refl)
