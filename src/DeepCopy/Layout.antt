-- ===== src/DeepCopy/Layout.antt =====
-- api/v1alpha1/kafkacluster_types.go and image.go: which addresses a value of each type reaches, and
-- what it is without them. These read the types, not the copies.
use kafka_operator.Prelude.{ℕ, String, List, [], ◌∷◌, ◌++◌, map}
use kafka_operator.Prelude.Dict.{Dict}
use kafka_operator.Api.Types.{
  ClusterOperationSpec, KafkaTlsSpec, KerberosAuthenticationProviderSpec,
}
use kafka_operator.DeepCopy.Memory.{Pointer, at, nil}
use kafka_operator.DeepCopy.Objects.{
  StoredBrokersConfigSpec, StoredBrokersRoleGroupSpec, StoredBrokersSpec, StoredClusterConfigSpec,
  StoredConfigOverridesSpec, StoredImageSpec, StoredKafkaAuthenticationSpec, StoredKafkaCluster,
  StoredKafkaClusterList, StoredKafkaClusterSpec,
}

-- A value with its addresses forgotten, and its addresses.
pub record Layout (A : Type 0) : Type 0 where
  pub erase : A → A
  pub addresses : A → List ℕ

abbrev pub flat : (A : Type 0) → Layout A
flat A = record { erase = λ x. x; addresses = λ x. [] }

module _ {A : Type 0} (l : Layout A) where
  abbrev erase_target : Pointer A → Pointer A
  erase_target nil = nil
  erase_target (at a x) = at 0 (l.erase x)

  abbrev target_addresses : Pointer A → List ℕ
  target_addresses nil = []
  target_addresses (at a x) = a ∷ l.addresses x

  abbrev pub pointer_to : Layout (Pointer A)
  pointer_to = record { erase = erase_target; addresses = target_addresses }

  abbrev element_addresses : List A → List ℕ
  element_addresses [] = []
  element_addresses (x ∷ xs) = l.addresses x ++ element_addresses xs

  abbrev pub list_of : Layout (List A)
  list_of = record { erase = map l.erase; addresses = element_addresses }

abbrev pub pair_of : {A B : Type 0} → Layout A → Layout B → Layout (A × B)
pair_of l l' = record {
  erase = λ x. (l.erase x.0, l'.erase x.1);
  addresses = λ x. l.addresses x.0 ++ l'.addresses x.1;
}

abbrev pub dict_of : {V : Type 0} → Layout V → Layout (Dict V)
dict_of l = list_of (pair_of (flat String) l)

abbrev pub image_layout : Layout StoredImageSpec
image_layout = record {
  erase = λ x. record x { pull_policy = (pointer_to (flat String)).erase x.pull_policy };
  addresses = λ x. (pointer_to (flat String)).addresses x.pull_policy;
}

abbrev pub authentication_layout : Layout StoredKafkaAuthenticationSpec
authentication_layout = record {
  erase = λ x. record x {
    kerberos = (pointer_to (flat KerberosAuthenticationProviderSpec)).erase x.kerberos;
  };
  addresses = λ x. (pointer_to (flat KerberosAuthenticationProviderSpec)).addresses x.kerberos;
}

abbrev pub cluster_config_layout : Layout StoredClusterConfigSpec
cluster_config_layout = record {
  erase = λ x. record x {
    authentication = (pointer_to (list_of authentication_layout)).erase x.authentication;
    tls = (pointer_to (flat KafkaTlsSpec)).erase x.tls;
  };
  addresses = λ x.
      (pointer_to (list_of authentication_layout)).addresses x.authentication
      ++ (pointer_to (flat KafkaTlsSpec)).addresses x.tls;
}

abbrev pub config_overrides_layout : Layout StoredConfigOverridesSpec
config_overrides_layout = record {
  erase = λ x. record x {
    server = (pointer_to (dict_of (flat String))).erase x.server;
    security = (pointer_to (dict_of (flat String))).erase x.security;
  };
  addresses = λ x.
      (pointer_to (dict_of (flat String))).addresses x.server
      ++ (pointer_to (dict_of (flat String))).addresses x.security;
}

-- A value of a library's type has a layout of its own.
abbrev pub brokers_config_layout : {E : Type 0} → Layout E → Layout (StoredBrokersConfigSpec E)
brokers_config_layout l = record {
  erase = λ x. record x { role_group_config = (pointer_to l).erase x.role_group_config };
  addresses = λ x. (pointer_to l).addresses x.role_group_config;
}

abbrev pub role_group_layout : {E : Type 0} → Layout E → Layout (StoredBrokersRoleGroupSpec E)
role_group_layout l = record {
  erase = λ x. record x {
    config = (pointer_to (brokers_config_layout l)).erase x.config;
    overrides = (pointer_to l).erase x.overrides;
  };
  addresses = λ x.
      (pointer_to (brokers_config_layout l)).addresses x.config
      ++ (pointer_to l).addresses x.overrides;
}

abbrev pub brokers_layout : {E : Type 0} → Layout E → Layout (StoredBrokersSpec E)
brokers_layout l = record {
  erase = λ x. record x {
    config = (pointer_to (brokers_config_layout l)).erase x.config;
    role_groups = (pointer_to (dict_of (pointer_to (role_group_layout l)))).erase x.role_groups;
    roleconfig = (pointer_to l).erase x.roleconfig;
    overrides = (pointer_to l).erase x.overrides;
  };
  addresses = λ x.
      (pointer_to (brokers_config_layout l)).addresses x.config
      ++ ((pointer_to (dict_of (pointer_to (role_group_layout l)))).addresses x.role_groups
          ++ ((pointer_to l).addresses x.roleconfig ++ (pointer_to l).addresses x.overrides));
}

abbrev pub spec_layout : {E : Type 0} → Layout E → Layout (StoredKafkaClusterSpec E)
spec_layout l = record {
  erase = λ x. record x {
    image = (pointer_to image_layout).erase x.image;
    cluster_config = (pointer_to cluster_config_layout).erase x.cluster_config;
    cluster_operation = (pointer_to (flat ClusterOperationSpec)).erase x.cluster_operation;
    brokers = (pointer_to (brokers_layout l)).erase x.brokers;
  };
  addresses = λ x.
      (pointer_to image_layout).addresses x.image
      ++ ((pointer_to cluster_config_layout).addresses x.cluster_config
          ++ ((pointer_to (flat ClusterOperationSpec)).addresses x.cluster_operation
              ++ (pointer_to (brokers_layout l)).addresses x.brokers));
}

abbrev pub cluster_layout : {E : Type 0} → Layout E → Layout (StoredKafkaCluster E)
cluster_layout l = record {
  erase = λ x. record x {
    object_meta = l.erase x.object_meta;
    spec = (spec_layout l).erase x.spec;
    status = l.erase x.status;
  };
  addresses =
      λ x. l.addresses x.object_meta ++ ((spec_layout l).addresses x.spec ++ l.addresses x.status);
}

abbrev pub list_layout : {E : Type 0} → Layout E → Layout (StoredKafkaClusterList E)
list_layout l = record {
  erase = λ x. record x {
    list_meta = l.erase x.list_meta;
    items = (pointer_to (list_of (cluster_layout l))).erase x.items;
  };
  addresses =
      λ x. l.addresses x.list_meta ++ (pointer_to (list_of (cluster_layout l))).addresses x.items;
}
