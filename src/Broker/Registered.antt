-- ===== src/Broker/Registered.antt =====
-- internal/controller/role.go: what holds of all registered reconcilers.
use kafka_operator.Prelude.{
  ◌+◌, ◌*◌, String, true, false, Option, none, some, List, [], ◌∷◌, ◌++◌, ◌≡◌, ◌≢◌, refl, sym,
  subst, ◌∙◌, arith, ok, >>=-eq-ok, deref, deref-eq-ok, Result-ok_injective, is_set,
}
use kafka_operator.Prelude.Lists.{All, All-append, length, length-append}
use kafka_operator.Prelude.Dict.{Dict}
use kafka_operator.Prelude.Int.{ℤ}
use kafka_operator.Ports.{RoleGroupInfo}
use kafka_operator.Api.Library.{Constants, OverridesSpec}
use kafka_operator.Api.Types.{BrokersConfigSpec, BrokersRoleGroupSpec, BrokersSpec}
use kafka_operator.Config.{merge_from_user_config}
use kafka_operator.Config.Overrides.{HasServerFile}
use kafka_operator.Config.Base.{HasDefaults}
use kafka_operator.Config.User.{
  merge_from_user_config-HasServerFile, merge_from_user_config-HasDefaults,
}
use kafka_operator.ListenerBuilder.{new_listener_builder, role_group_bootstrap_listener}
use kafka_operator.ConfigMap.{new_kafka_configmap_builder}
use kafka_operator.Service.{new_role_group_service}
use kafka_operator.StatefulSet.{new_stateful_set_builder}
use kafka_operator.StatefulSet.Reconciler.{new_stateful_set_reconciler, is_stopped}
use kafka_operator.Broker.{
  BrokerReconciler, RoleLibrary, Reconciler, bootstrap_listener, kafka_configmap, stateful_set,
  register_resource_with_role_group, register_role_group, register_role_groups, register_resources,
  or_new, empty_config, empty_overrides, role_group_info,
}

-- The builders that read the role group's configuration have no gap in it.
abbrev pub IsConfigured : Reconciler → Type 0
IsConfigured (stateful_set r) = HasDefaults r.builder.broker_config
IsConfigured (bootstrap_listener g) = is_set g.listener_class ≡ true
IsConfigured (kafka_configmap m) = m.role_group_config ≢ none
IsConfigured _ = Unit

pub some_injective {ℓ} : {A : Type ℓ} {a b : A} → some a ≡ some b → a ≡ b
some_injective h = cc

-- The rest of a registered role group: what it is registered with.
abbrev pub IsRegisteredOf :
    (c : Constants) (lib : RoleLibrary) (b : BrokerReconciler)
    → BrokersRoleGroupSpec
    → String
    → List Reconciler
    → Type 0
IsRegisteredOf c lib b group name rs =
    (overrides : OverridesSpec) × (config : BrokersConfigSpec) × HasDefaults config
    × HasServerFile overrides
    × (register_resource_with_role_group c lib b group.replicas (role_group_info c lib b name)
          overrides config
        ≡ ok rs)

module _ (c : Constants) (lib : RoleLibrary) (b : BrokerReconciler) where
  registered-IsConfigured :
      (replicas : ℤ) (info : RoleGroupInfo) (overrides : OverridesSpec) (config : BrokersConfigSpec)
      (rs : List Reconciler)
      → HasDefaults config
      → register_resource_with_role_group c lib b replicas info overrides config ≡ ok rs
      → All IsConfigured rs × (length rs ≡ 5)
  unfolding register_resource_with_role_group new_kafka_configmap_builder new_stateful_set_builder
      new_stateful_set_reconciler role_group_bootstrap_listener new_listener_builder
  registered-IsConfigured replicas info overrides config rs
        (spec, resources, there, given, cpu, memory, storage, broker, bootstrap, life) h =
      let complete : HasDefaults config =
        (spec, resources, there, given, cpu, memory, storage, broker, bootstrap, life) in
      let (svc, _, same) = >>=-eq-ok (new_role_group_service c (lib.labels info) info) _ h in
      subst (λ rs. All IsConfigured rs × (length rs ≡ 5)) (Result-ok_injective same)
        ((tt, (ground arith, (complete, (bootstrap, (tt, tt))))), refl)

  -- A role group that is registered is there, and its configuration is the merged one.
  pub register_role_group-IsRegisteredOf :
      (spec : BrokersSpec) (name : String) (group : Option BrokersRoleGroupSpec)
      (rs : List Reconciler)
      → register_role_group c lib b spec name group ≡ ok rs
      → (role_group : BrokersRoleGroupSpec) × (group ≡ some role_group)
        × IsRegisteredOf c lib b role_group name rs
  unfolding register_role_group
  register_role_group-IsRegisteredOf spec name group rs h =
      let (role_group, there, rest) = >>=-eq-ok (deref group) _ h in
      let (config, merged, rest1) =
        >>=-eq-ok (lib.merge_config spec.config role_group.config) _ rest in
      let (overrides, joined, rest2) =
        >>=-eq-ok (lib.merge_overrides_spec spec.overrides role_group.overrides) _ rest1 in
      let (both, filled, rest3) =
        >>=-eq-ok
          (merge_from_user_config c lib.marshal (some (or_new config empty_config))
            (some (or_new overrides empty_overrides)) b.role_info.cluster_name)
          _ rest2 in
      let (own, same, complete) =
        merge_from_user_config-HasDefaults c lib.marshal b.role_info.cluster_name
          (or_new config empty_config) (some (or_new overrides empty_overrides)) both.1 both.0
          filled in
      let (own1, held, served) =
        merge_from_user_config-HasServerFile c lib.marshal b.role_info.cluster_name
          (or_new config empty_config) (or_new overrides empty_overrides) both.1 both.0 filled in
      let (own_config, found, rest4) = >>=-eq-ok (deref both.0) _ rest3 in
      let (own_overrides, found1, registered) = >>=-eq-ok (deref both.1) _ rest4 in
      (
        role_group,
        deref-eq-ok group there,
        (
          own_overrides,
          own_config,
          subst HasDefaults (some_injective (sym same ∙ deref-eq-ok both.0 found)) complete,
          subst HasServerFile (some_injective (sym held ∙ deref-eq-ok both.1 found1)) served,
          registered,
        ),
      )

  register_role_group-IsConfigured :
      (spec : BrokersSpec) (name : String) (group : Option BrokersRoleGroupSpec)
      (rs : List Reconciler)
      → register_role_group c lib b spec name group ≡ ok rs
      → All IsConfigured rs × (length rs ≡ 5)
  register_role_group-IsConfigured spec name group rs h =
      let (role_group, _, (overrides, config, complete, _, registered)) =
        register_role_group-IsRegisteredOf spec name group rs h in
      registered-IsConfigured role_group.replicas (role_group_info c lib b name) overrides config rs
        complete registered

  -- What holds of the five reconcilers of each role group holds of all.
  pub register_role_groups-All :
      (P : Reconciler → Type 0) (spec : BrokersSpec)
      → ((name : String) (group : Option BrokersRoleGroupSpec) (rs : List Reconciler)
          → register_role_group c lib b spec name group ≡ ok rs
          → All P rs × (length rs ≡ 5))
      → (groups : Dict (Option BrokersRoleGroupSpec)) (resources rs : List Reconciler)
      → All P resources
      → register_role_groups c lib b spec groups resources ≡ ok rs
      → All P rs × (length rs ≡ length resources + 5 * length groups)
  unfolding register_role_groups
  register_role_groups-All P spec each [] resources rs before h =
      subst (λ rs. All P rs × (length rs ≡ length resources + 0)) (Result-ok_injective h)
        (before, omega arith)
  register_role_groups-All P spec each ((name, group) ∷ groups) resources rs before h =
      let (added, one, rest) =
        >>=-eq-ok (register_role_group c lib b spec name group)
          (λ reconcilers. register_role_groups c lib b spec groups (resources ++ reconcilers)) h in
      let (configured, five) = each name group added one in
      let (all, count) =
        register_role_groups-All P spec each groups (resources ++ added) rs
          (All-append P resources added before configured) rest in
      (all, omega (arith, count, five, length-append resources added))

  -- Only the resources change.
  pub register_resources-others :
      (r : BrokerReconciler)
      → register_resources c lib b ≡ ok r
      → r ≡ record b { resources = r.resources }
  unfolding register_resources
  register_resources-others r h =
      let (spec, there, rest) = >>=-eq-ok (deref b.spec) _ h in
      let (rs, registered, same) =
        >>=-eq-ok (register_role_groups c lib b spec spec.role_groups b.resources) _ rest in
      subst (λ (r : BrokerReconciler). r ≡ record b { resources = r.resources })
        (Result-ok_injective same) refl

  -- The same of a new broker role.
  pub register_resources-All :
      (P : Reconciler → Type 0)
      → ((spec : BrokersSpec) (name : String) (group : Option BrokersRoleGroupSpec)
            (rs : List Reconciler)
          → register_role_group c lib b spec name group ≡ ok rs
          → All P rs × (length rs ≡ 5))
      → (r : BrokerReconciler) → b.resources ≡ []
      → register_resources c lib b ≡ ok r
      → (spec : BrokersSpec) × (b.spec ≡ some spec)
        × All P r.resources
        × (length r.resources ≡ 5 * length spec.role_groups)
  unfolding register_resources
  register_resources-All P each r new h =
      let (spec, there, rest) = >>=-eq-ok (deref b.spec) _ h in
      let (rs, registered, same) =
        >>=-eq-ok (register_role_groups c lib b spec spec.role_groups b.resources) _ rest in
      let (all, count) = register_role_groups-All P spec (each spec) spec.role_groups [] rs tt (
        subst (λ before. register_role_groups c lib b spec spec.role_groups before ≡ ok rs) new
          registered) in
      (
        spec,
        deref-eq-ok b.spec there,
        subst (λ (r : BrokerReconciler). All P r.resources) (Result-ok_injective same) all,
        subst (λ (r : BrokerReconciler). length r.resources ≡ 5 * length spec.role_groups)
            (Result-ok_injective same) (omega (arith, count)),
      )

-- No stateful set among them is stopped.
abbrev pub IsRunning : Reconciler → Type 0
IsRunning (stateful_set r) = r.stopped ≡ false
IsRunning _ = Unit

-- The stateful sets of a role without a cluster operation are not stopped.
pub register_resources-IsRunning :
    (c : Constants) (lib : RoleLibrary) (b r : BrokerReconciler)
    → b.resources ≡ []
    → b.cluster_operation ≡ none
    → register_resources c lib b ≡ ok r
    → All IsRunning r.resources
unfolding register_resource_with_role_group new_stateful_set_reconciler is_stopped
register_resources-IsRunning c lib b r new unset h =
    let (spec, there, all, count) =
      register_resources-All c lib b IsRunning
        (λ spec name group rs done.
          let (role_group, _, (overrides, config, _, _, registered)) =
            register_role_group-IsRegisteredOf c lib b spec name group rs done in
          let info = role_group_info c lib b name in
          let (svc, _, same) =
            >>=-eq-ok (new_role_group_service c (lib.labels info) info) _ registered in
          subst (λ rs. All IsRunning rs × (length rs ≡ 5)) (Result-ok_injective same)
            ((tt, (tt, (rw unset refl, (tt, (tt, tt))))), refl))
        r new h in
    all

-- If all role groups of a new broker role are registered, in whatever order Go visits them, each adds
-- five reconcilers, and none of these meets a gap: a stateful set's configuration has CPU, memory and
-- storage and its listener classes and life time are set, a bootstrap listener's class is set, and
-- the config map is given a role group configuration.
pub register_resources-IsConfigured :
    (c : Constants) (lib : RoleLibrary) (b r : BrokerReconciler)
    → b.resources ≡ []
    → register_resources c lib b ≡ ok r
    → (spec : BrokersSpec) × (b.spec ≡ some spec)
      × All IsConfigured r.resources
      × (length r.resources ≡ 5 * length spec.role_groups)
register_resources-IsConfigured c lib b r new h =
    let (spec, there, all, count) =
      register_resources-All c lib b IsConfigured (register_role_group-IsConfigured c lib b) r new
        h in
    (spec, there, all, count)
