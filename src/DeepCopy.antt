-- ===== src/DeepCopy.antt =====
-- api/v1alpha1/zz_generated.deepcopy.go: `DeepCopyInto` of each type, as a copy of the receiver in
-- which the fields that refer to something are copied in the order of the source. The copies of
-- the types of operator-go and Kubernetes are a parameter.
pub mod Memory
pub mod Objects
pub mod Layout
pub mod Fresh
pub mod Apart
use kafka_operator.Prelude.{String, List}
use kafka_operator.Prelude.Dict.{Dict}
use kafka_operator.Api.Types.{
  ClusterOperationSpec, KafkaTlsSpec, KerberosAuthenticationProviderSpec,
}
use kafka_operator.DeepCopy.Memory.{
  Copier, Pointer, both, elements, entries, Fields, fields, plain, pointer,
}
use kafka_operator.DeepCopy.Objects.{
  StoredBrokersConfigSpec, StoredBrokersRoleGroupSpec, StoredBrokersSpec, StoredClusterConfigSpec,
  StoredConfigOverridesSpec, StoredImageSpec, StoredKafkaAuthenticationSpec, StoredKafkaCluster,
  StoredKafkaClusterList, StoredKafkaClusterSpec,
}

unfoldable pub kafka_tls_spec : Copier KafkaTlsSpec
kafka_tls_spec = plain KafkaTlsSpec

unfoldable pub kerberos_provider_spec : Copier KerberosAuthenticationProviderSpec
kerberos_provider_spec = plain KerberosAuthenticationProviderSpec

abbrev pub image_fields : Fields StoredImageSpec (Pointer String)
image_fields = record { get = λ x. x.pull_policy; put = λ x part. record x { pull_policy = part } }

unfoldable pub image_spec : Copier StoredImageSpec
image_spec = fields image_fields (pointer (plain String))

abbrev pub authentication_fields :
    Fields StoredKafkaAuthenticationSpec (Pointer KerberosAuthenticationProviderSpec)
authentication_fields = record {
  get = λ x. x.kerberos;
  put = λ x part. record x { kerberos = part };
}

unfoldable pub kafka_authentication_spec : Copier StoredKafkaAuthenticationSpec
unfolding kerberos_provider_spec
kafka_authentication_spec = fields authentication_fields (pointer kerberos_provider_spec)

abbrev pub cluster_config_fields :
    Fields StoredClusterConfigSpec
      ((Pointer (List StoredKafkaAuthenticationSpec)) × (Pointer KafkaTlsSpec))
cluster_config_fields = record {
  get = λ x. (x.authentication, x.tls);
  put = λ x parts. record x { authentication = parts.0; tls = parts.1 };
}

unfoldable pub cluster_config_spec : Copier StoredClusterConfigSpec
cluster_config_spec =
    fields cluster_config_fields
      (both (pointer (elements kafka_authentication_spec)) (pointer kafka_tls_spec))

abbrev pub config_overrides_fields :
    Fields StoredConfigOverridesSpec ((Pointer (Dict String)) × (Pointer (Dict String)))
config_overrides_fields = record {
  get = λ x. (x.server, x.security);
  put = λ x parts. record x { server = parts.0; security = parts.1 };
}

unfoldable pub config_overrides_spec : Copier StoredConfigOverridesSpec
config_overrides_spec =
    fields config_overrides_fields
      (both (pointer (entries (plain String))) (pointer (entries (plain String))))

abbrev pub brokers_config_fields : {E : Type 0} → Fields (StoredBrokersConfigSpec E) (Pointer E)
brokers_config_fields = record {
  get = λ x. x.role_group_config;
  put = λ x part. record x { role_group_config = part };
}

abbrev pub role_group_fields :
    {E : Type 0}
    → Fields (StoredBrokersRoleGroupSpec E) ((Pointer (StoredBrokersConfigSpec E)) × (Pointer E))
role_group_fields = record {
  get = λ x. (x.config, x.overrides);
  put = λ x parts. record x { config = parts.0; overrides = parts.1 };
}

abbrev pub brokers_fields :
    {E : Type 0}
    → Fields (StoredBrokersSpec E) (
        Pointer (StoredBrokersConfigSpec E)
        × (Pointer (Dict (Pointer (StoredBrokersRoleGroupSpec E))) × (Pointer E × (Pointer E))))
brokers_fields = record {
  get = λ x. (x.config, (x.role_groups, (x.roleconfig, x.overrides)));
  put = λ x parts. record x {
    config = parts.0;
    role_groups = parts.1.0;
    roleconfig = parts.1.1.0;
    overrides = parts.1.1.1;
  };
}

abbrev pub spec_fields :
    {E : Type 0}
    → Fields (StoredKafkaClusterSpec E) (
        Pointer StoredImageSpec
        × (Pointer StoredClusterConfigSpec
            × (Pointer ClusterOperationSpec × (Pointer (StoredBrokersSpec E)))))
spec_fields = record {
  get = λ x. (x.image, (x.cluster_config, (x.cluster_operation, x.brokers)));
  put = λ x parts. record x {
    image = parts.0;
    cluster_config = parts.1.0;
    cluster_operation = parts.1.1.0;
    brokers = parts.1.1.1;
  };
}

abbrev pub cluster_fields :
    {E : Type 0} → Fields (StoredKafkaCluster E) (E × (StoredKafkaClusterSpec E × (E)))
cluster_fields = record {
  get = λ x. (x.object_meta, (x.spec, x.status));
  put = λ x parts. record x { object_meta = parts.0; spec = parts.1.0; status = parts.1.1 };
}

abbrev pub list_fields :
    {E : Type 0} → Fields (StoredKafkaClusterList E) (E × (Pointer (List (StoredKafkaCluster E))))
list_fields = record {
  get = λ x. (x.list_meta, x.items);
  put = λ x parts. record x { list_meta = parts.0; items = parts.1 };
}

-- the library's types, each copied in its own way
pub record Library (E : Type 0) : Type 0 where
  pub role_group_config : Copier E
  pub overrides : Copier E
  pub roleconfig : Copier E
  pub object_meta : Copier E
  pub list_meta : Copier E
  pub status : Copier E

module _ {E : Type 0} (lib : Library E) where
  unfoldable pub brokers_config_spec : Copier (StoredBrokersConfigSpec E)
  brokers_config_spec = fields brokers_config_fields (pointer lib.role_group_config)

  unfoldable pub brokers_role_group_spec : Copier (StoredBrokersRoleGroupSpec E)
  brokers_role_group_spec =
      fields role_group_fields (both (pointer brokers_config_spec) (pointer lib.overrides))

  unfoldable pub brokers_spec : Copier (StoredBrokersSpec E)
  brokers_spec = fields brokers_fields (
      both (pointer brokers_config_spec) (
        both (pointer (entries (pointer brokers_role_group_spec)))
          (both (pointer lib.roleconfig) (pointer lib.overrides))))

  unfoldable pub kafka_cluster_spec : Copier (StoredKafkaClusterSpec E)
  kafka_cluster_spec = fields spec_fields (
      both (pointer image_spec) (
        both (pointer cluster_config_spec)
          (both (pointer (plain ClusterOperationSpec)) (pointer brokers_spec))))

  unfoldable pub kafka_cluster : Copier (StoredKafkaCluster E)
  kafka_cluster = fields cluster_fields (both lib.object_meta (both kafka_cluster_spec lib.status))

  unfoldable pub kafka_cluster_list : Copier (StoredKafkaClusterList E)
  kafka_cluster_list = fields list_fields (both lib.list_meta (pointer (elements kafka_cluster)))

  -- `DeepCopy` of a cluster that may be nil
  unfoldable pub deep_copy : Copier (Pointer (StoredKafkaCluster E))
  deep_copy = pointer kafka_cluster

  -- `DeepCopy` of a list of clusters that may be nil
  unfoldable pub deep_copy_list : Copier (Pointer (StoredKafkaClusterList E))
  deep_copy_list = pointer kafka_cluster_list
