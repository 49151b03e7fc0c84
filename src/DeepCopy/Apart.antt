-- ===== src/DeepCopy/Apart.antt =====
-- api/v1alpha1/zz_generated.deepcopy.go: the copies of the resource's types are deep, if those of the
-- library's types are.
use kafka_operator.Prelude.{ℕ, ◌<◌, String, List, ◌≡◌, ◌≢◌, refl, arith}
use kafka_operator.Prelude.Lists.{All, All-map}
use kafka_operator.Api.Types.{
  ClusterOperationSpec, KafkaTlsSpec, KerberosAuthenticationProviderSpec,
}
use kafka_operator.DeepCopy.Memory.{Copier, Pointer, plain}
use kafka_operator.DeepCopy.Layout.{
  Layout, authentication_layout, brokers_config_layout, brokers_layout, cluster_config_layout,
  cluster_layout, config_overrides_layout, dict_of, flat, image_layout, list_layout, list_of,
  pair_of, pointer_to, role_group_layout, spec_layout,
}
use kafka_operator.DeepCopy.Objects.{StoredKafkaCluster, StoredKafkaClusterList}
use kafka_operator.DeepCopy.Fresh.{
  AreApart, AreDistinct, IsBetween, IsDeep, both-IsDeep, elements-IsDeep, entries-IsDeep,
  fields-IsDeep, plain-IsDeep, pointer-IsDeep,
}
use kafka_operator.DeepCopy.{
  Library, authentication_fields, brokers_config_fields, brokers_fields, cluster_config_fields,
  cluster_fields, config_overrides_fields, image_fields, list_fields, role_group_fields,
  spec_fields, kafka_tls_spec, kerberos_provider_spec, brokers_config_spec, brokers_role_group_spec,
  brokers_spec, cluster_config_spec, config_overrides_spec, deep_copy, deep_copy_list, image_spec,
  kafka_authentication_spec, kafka_cluster, kafka_cluster_list, kafka_cluster_spec,
}

image_spec-IsDeep : IsDeep image_layout image_spec
unfolding image_spec
image_spec-IsDeep =
    fields-IsDeep image_fields _ (pointer_to (flat String)) _ (λ x y. refl) (λ x y. refl)
      (λ x. refl) (λ x. refl) (pointer-IsDeep (flat String) (plain String) (plain-IsDeep String))

kafka_authentication_spec-IsDeep : IsDeep authentication_layout kafka_authentication_spec
unfolding kafka_authentication_spec kerberos_provider_spec
kafka_authentication_spec-IsDeep =
    fields-IsDeep authentication_fields _ (pointer_to (flat KerberosAuthenticationProviderSpec)) _
      (λ x y. refl) (λ x y. refl) (λ x. refl) (λ x. refl)
      (pointer-IsDeep _ kerberos_provider_spec (plain-IsDeep KerberosAuthenticationProviderSpec))

cluster_config_spec-IsDeep : IsDeep cluster_config_layout cluster_config_spec
unfolding cluster_config_spec kafka_tls_spec
cluster_config_spec-IsDeep =
    fields-IsDeep cluster_config_fields _
      (pair_of (pointer_to (list_of authentication_layout)) (pointer_to (flat KafkaTlsSpec))) _
      (λ x y. refl) (λ x y. refl) (λ x. refl) (λ x. refl)
      (both-IsDeep _ _ _ _
        (pointer-IsDeep _ _ (
          elements-IsDeep authentication_layout kafka_authentication_spec
            kafka_authentication_spec-IsDeep))
        (pointer-IsDeep _ kafka_tls_spec (plain-IsDeep KafkaTlsSpec)))

-- A copy of a ConfigOverridesSpec has maps of its own.
config_overrides_spec-IsDeep : IsDeep config_overrides_layout config_overrides_spec
unfolding config_overrides_spec
config_overrides_spec-IsDeep =
    let copied =
      pointer-IsDeep _ _ (entries-IsDeep (flat String) (plain String) (plain-IsDeep String)) in
    fields-IsDeep config_overrides_fields _
      (pair_of (pointer_to (dict_of (flat String))) (pointer_to (dict_of (flat String)))) _
      (λ x y. refl) (λ x y. refl) (λ x. refl) (λ x. refl) (both-IsDeep _ _ _ _ copied copied)

-- Two lists are apart where one is older than the other.
AreApart-older :
    (n m : ℕ) (new old : List ℕ) → All (IsBetween n m) new → All (λ b. b < n) old → AreApart new old
AreApart-older n m new old high low =
    All-map {P = IsBetween n m} {Q = λ a. All (λ b. a ≢ b) old}
      (λ a above.
        All-map {P = λ b. b < n} {Q = λ b. a ≢ b}
          (λ b below same. (let (over, _) = above in omega (arith, over, below, same))) old low)
      new high

-- A copy equals its original but for the addresses, has none of its addresses, and none twice.
abbrev pub IsCopyOf : {A : Type 0} → Layout A → A → A → Type 0
IsCopyOf l x y =
    (l.erase y ≡ l.erase x) × AreApart (l.addresses y) (l.addresses x) × AreDistinct (l.addresses y)

deep-IsCopyOf :
    {A : Type 0} (l : Layout A) (c : Copier A) (x : A) (n : ℕ)
    → IsDeep l c
    → All (λ a. a < n) (l.addresses x)
    → IsCopyOf l x (c x n).0
deep-IsCopyOf l c x n deep old =
    (deep.same x n, AreApart-older n _ _ _ (deep.fresh x n) old, deep.once x n)

-- The copies of the library's types are deep.
pub record IsDeepLibrary {E : Type 0} (l : Layout E) (lib : Library E) : Type 0 where
  pub role_group_config : IsDeep l lib.role_group_config
  pub overrides : IsDeep l lib.overrides
  pub roleconfig : IsDeep l lib.roleconfig
  pub object_meta : IsDeep l lib.object_meta
  pub list_meta : IsDeep l lib.list_meta
  pub status : IsDeep l lib.status

module _ {E : Type 0} (l : Layout E) (lib : Library E) (deep : IsDeepLibrary l lib) where
  brokers_config_spec-IsDeep : IsDeep (brokers_config_layout l) (brokers_config_spec lib)
  unfolding brokers_config_spec
  brokers_config_spec-IsDeep =
      fields-IsDeep brokers_config_fields _ (pointer_to l) _ (λ x y. refl) (λ x y. refl) (λ x. refl)
        (λ x. refl) (pointer-IsDeep l lib.role_group_config deep.role_group_config)

  brokers_role_group_spec-IsDeep : IsDeep (role_group_layout l) (brokers_role_group_spec lib)
  unfolding brokers_role_group_spec
  brokers_role_group_spec-IsDeep =
      fields-IsDeep role_group_fields _
        (pair_of (pointer_to (brokers_config_layout l)) (pointer_to l)) _ (λ x y. refl)
        (λ x y. refl) (λ x. refl) (λ x. refl)
        (both-IsDeep _ _ _ _ (pointer-IsDeep _ (brokers_config_spec lib) brokers_config_spec-IsDeep)
          (pointer-IsDeep l lib.overrides deep.overrides))

  brokers_spec-IsDeep : IsDeep (brokers_layout l) (brokers_spec lib)
  unfolding brokers_spec
  brokers_spec-IsDeep =
      fields-IsDeep brokers_fields _
        (pair_of (pointer_to (brokers_config_layout l)) (
          pair_of (pointer_to (dict_of (pointer_to (role_group_layout l))))
            (pair_of (pointer_to l) (pointer_to l))))
        _ (λ x y. refl) (λ x y. refl) (λ x. refl) (λ x. refl)
        (both-IsDeep _ _ _ _ (pointer-IsDeep _ (brokers_config_spec lib) brokers_config_spec-IsDeep)
          (both-IsDeep _ _ _ _
            (pointer-IsDeep _ _ (
              entries-IsDeep _ _
                (pointer-IsDeep _ (brokers_role_group_spec lib) brokers_role_group_spec-IsDeep)))
            (both-IsDeep _ _ _ _ (pointer-IsDeep l lib.roleconfig deep.roleconfig)
              (pointer-IsDeep l lib.overrides deep.overrides))))

  kafka_cluster_spec-IsDeep : IsDeep (spec_layout l) (kafka_cluster_spec lib)
  unfolding kafka_cluster_spec
  kafka_cluster_spec-IsDeep =
      fields-IsDeep spec_fields _
        (pair_of (pointer_to image_layout) (
          pair_of (pointer_to cluster_config_layout)
            (pair_of (pointer_to (flat ClusterOperationSpec)) (pointer_to (brokers_layout l)))))
        _ (λ x y. refl) (λ x y. refl) (λ x. refl) (λ x. refl)
        (both-IsDeep _ _ _ _ (pointer-IsDeep _ image_spec image_spec-IsDeep) (
          both-IsDeep _ _ _ _ (pointer-IsDeep _ cluster_config_spec cluster_config_spec-IsDeep) (
            both-IsDeep _ _ _ _
              (pointer-IsDeep _ (plain ClusterOperationSpec) (plain-IsDeep ClusterOperationSpec))
              (pointer-IsDeep _ (brokers_spec lib) brokers_spec-IsDeep))))

  kafka_cluster-IsDeep : IsDeep (cluster_layout l) (kafka_cluster lib)
  unfolding kafka_cluster
  kafka_cluster-IsDeep =
      fields-IsDeep cluster_fields _ (pair_of l (pair_of (spec_layout l) l)) _ (λ x y. refl)
        (λ x y. refl) (λ x. refl) (λ x. refl)
        (both-IsDeep _ _ _ _ deep.object_meta
          (both-IsDeep _ _ _ _ kafka_cluster_spec-IsDeep deep.status))

  kafka_cluster_list-IsDeep : IsDeep (list_layout l) (kafka_cluster_list lib)
  unfolding kafka_cluster_list
  kafka_cluster_list-IsDeep =
      fields-IsDeep list_fields _ (pair_of l (pointer_to (list_of (cluster_layout l)))) _
        (λ x y. refl) (λ x y. refl) (λ x. refl) (λ x. refl)
        (both-IsDeep _ _ _ _ deep.list_meta
          (pointer-IsDeep _ _ (elements-IsDeep _ (kafka_cluster lib) kafka_cluster-IsDeep)))

  -- A deep copy of a list of clusters equals the list but for the addresses, has no address of the
  -- list and none twice, if every address of the list was handed out before and the copies of the
  -- library's types are deep.
  pub deep_copy_list-IsCopyOf :
      (clusters : Pointer (StoredKafkaClusterList E)) (n : ℕ)
      → All (λ a. a < n) ((pointer_to (list_layout l)).addresses clusters)
      → IsCopyOf (pointer_to (list_layout l)) clusters (deep_copy_list lib clusters n).0
  unfolding deep_copy_list
  deep_copy_list-IsCopyOf clusters n old =
      deep-IsCopyOf (pointer_to (list_layout l)) (deep_copy_list lib) clusters n
        (pointer-IsDeep _ (kafka_cluster_list lib) kafka_cluster_list-IsDeep) old

  -- The same for a deep copy of one cluster.
  deep_copy-IsCopyOf :
      (cluster : Pointer (StoredKafkaCluster E)) (n : ℕ)
      → All (λ a. a < n) ((pointer_to (cluster_layout l)).addresses cluster)
      → IsCopyOf (pointer_to (cluster_layout l)) cluster (deep_copy lib cluster n).0
  unfolding deep_copy
  deep_copy-IsCopyOf cluster n old =
      deep-IsCopyOf (pointer_to (cluster_layout l)) (deep_copy lib) cluster n
        (pointer-IsDeep _ (kafka_cluster lib) kafka_cluster-IsDeep) old
