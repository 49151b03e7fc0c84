-- ===== src/Tests/DeepCopy.antt =====
-- A run of the deep copy of a list of clusters.
use kafka_operator.Prelude.{String, false, [], ◌∷◌, arith}
use kafka_operator.Prelude.Int.{pos}
use kafka_operator.DeepCopy.{Library, deep_copy_list}
use kafka_operator.DeepCopy.Memory.{Copier, Pointer, at, nil, plain, pointer}
use kafka_operator.DeepCopy.Objects.{
  StoredBrokersRoleGroupSpec, StoredBrokersSpec, StoredKafkaCluster, StoredKafkaClusterList,
}
use kafka_operator.DeepCopy.Layout.{Layout, flat, list_layout, pointer_to}
use kafka_operator.DeepCopy.Fresh.{IsDeep, plain-IsDeep, pointer-IsDeep}
use kafka_operator.DeepCopy.Apart.{IsCopyOf, IsDeepLibrary, deep_copy_list-IsCopyOf}

-- a value of a library's type: a text behind a pointer
abbrev Text : Type 0
Text = Pointer String

abbrev text_layout : Layout Text
text_layout = pointer_to (flat String)

abbrev text : Copier Text
text = pointer (plain String)

abbrev library : Library Text
library = record {
  role_group_config = text;
  overrides = text;
  roleconfig = text;
  object_meta = text;
  list_meta = text;
  status = text;
}

text-IsDeep : IsDeep text_layout text
text-IsDeep = pointer-IsDeep (flat String) (plain String) (plain-IsDeep String)

library-IsDeep : IsDeepLibrary text_layout library
library-IsDeep = record {
  role_group_config = text-IsDeep;
  overrides = text-IsDeep;
  roleconfig = text-IsDeep;
  object_meta = text-IsDeep;
  list_meta = text-IsDeep;
  status = text-IsDeep;
}

abbrev group : StoredBrokersRoleGroupSpec Text
group = record { replicas = pos 3; config = nil; overrides = at 9 (at 10 "overrides") }

abbrev brokers : StoredBrokersSpec Text
brokers = record {
  config = nil;
  role_groups = at 6 (("default", at 7 group) ∷ ("absent", nil) ∷ []);
  roleconfig = nil;
  overrides = at 8 nil;
}

abbrev cluster : StoredKafkaCluster Text
cluster = record {
  type_meta = record { kind = "KafkaCluster"; api_version = "v1alpha1" };
  object_meta = at 3 "simple";
  spec = record {
    image = nil;
    cluster_config = nil;
    cluster_operation = at 4 (record { stopped = false });
    brokers = at 5 brokers;
  };
  status = nil;
}

abbrev clusters : Pointer (StoredKafkaClusterList Text)
clusters = at 1 (record {
  type_meta = record { kind = "KafkaClusterList"; api_version = "v1alpha1" };
  list_meta = nil;
  items = at 2 (cluster ∷ []);
})

deep_copy_list-IsCopyOf_example :
    IsCopyOf (pointer_to (list_layout text_layout)) clusters (deep_copy_list library clusters 11).0
deep_copy_list-IsCopyOf_example =
    deep_copy_list-IsCopyOf text_layout library library-IsDeep clusters 11 (
      omega arith,
      (
        omega arith,
        (
          omega arith,
          (
            omega arith,
            (
              omega arith,
              (omega arith, (omega arith, (omega arith, (omega arith, (omega arith, tt))))),
            ),
          ),
        ),
      ),
    )
