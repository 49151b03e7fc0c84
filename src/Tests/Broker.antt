-- ===== src/Tests/Broker.antt =====
-- Runs and theorems on the registration of the role groups.
use kafka_operator.Prelude.{
  String, arith, ◌<>◌, Option, none, some, [], ◌∷◌, ◌≡◌, refl, ok, Result, ◌==◌,
}
use kafka_operator.Prelude.Lists.{All}
use kafka_operator.Prelude.Int.{pos}
use kafka_operator.Prelude.Dict.{Dict, lookup, set}
use kafka_operator.Api.Library.{Image}
use kafka_operator.Api.Types.{BrokersRoleGroupSpec, BrokersSpec}
use kafka_operator.Config.{
  default_kafka_config, default_role_group_config_spec, fill_file, merge_base_config,
  merge_base_config_of, merge_file, merge_files, merge_from_user_config, merge_overrides,
  merge_overrides_of, merge_resources, with_resources,
}
use kafka_operator.Service.{new_role_group_service}
use kafka_operator.Broker.{
  BrokerReconciler, RoleLibrary, new_broker_reconciler, register_resources, register_role_groups,
  register_role_group, register_resource_with_role_group,
}
use kafka_operator.Broker.Admissible.{IsAdmissible, MergesAndLabels}
use kafka_operator.StatefulSet.Steps.{Succeeds}
use kafka_operator.Tests.Data.{constants, secured, secured_security, config_of}

-- the role group's object where there is one, and the role's otherwise
abbrev prefer {ℓ} : {A : Type ℓ} → Option A → Option A → Result (Option A)
prefer role none = ok role
prefer role (some group) = ok (some group)

abbrev pub library : RoleLibrary
library = record {
  merge_config = λ role group. prefer role group;
  merge_overrides_spec = λ role group. prefer role group;
  full_name = λ role name. role.cluster_name <> "-" <> role.role_name <> "-" <> name;
  labels = λ info. some (("app", info.full_name) ∷ []);
  annotations = λ info. none;
  object_labels = λ client. some [];
  marshal = λ affinity. ok "{}";
}

abbrev pub group : Option BrokersRoleGroupSpec
group = some (record { replicas = pos 3; config = none; overrides = none })

abbrev pub groups : Dict (Option BrokersRoleGroupSpec)
groups = ("default", group) ∷ ("spare", group) ∷ []

abbrev pub brokers : BrokersSpec
brokers = record { config = none; role_groups = groups; overrides = none }

abbrev image : Image
image = record {
  product_name = "kafka";
  kubedoop_version = "0.0.0-dev";
  product_version = "3.9.0";
  options = record { custom = ""; repo = "repo"; pull_policy = "Always" };
}

abbrev pub role : BrokerReconciler
role =
    new_broker_reconciler secured (record { cluster_name = "simple"; role_name = "broker" })
      (some brokers) image (some (config_of [] none)) none secured_security

abbrev outcome : Result BrokerReconciler
outcome = register_resources constants library role

abbrev role_or : Result BrokerReconciler → BrokerReconciler
role_or (ok r) = r
role_or _ = role

registered : outcome ≡ ok (role_or outcome)
unfolding new_broker_reconciler register_resources register_role_groups register_role_group
    register_resource_with_role_group merge_from_user_config default_kafka_config merge_base_config
    merge_base_config_of default_role_group_config_spec with_resources merge_resources
    merge_overrides merge_overrides_of merge_files merge_file fill_file lookup set ◌==◌
    new_role_group_service
registered = refl

prefer-Succeeds {ℓ} : {A : Type ℓ} (own other : Option A) → Succeeds (prefer own other)
prefer-Succeeds own none = (own, refl)
prefer-Succeeds own (some other) = (some other, refl)

pub library_laws : MergesAndLabels library
library_laws = (prefer-Succeeds, λ info. (_, refl))

group-IsAdmissible : (name : String) → IsAdmissible library brokers (name, group)
unfolding lookup
group-IsAdmissible name = (_, none, refl, refl, (ground arith, ground arith))

pub groups-IsAdmissible : All (IsAdmissible library brokers) groups
groups-IsAdmissible = (group-IsAdmissible "default", (group-IsAdmissible "spare", tt))
