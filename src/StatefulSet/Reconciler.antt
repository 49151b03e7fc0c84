-- ===== src/StatefulSet/Reconciler.antt =====
-- internal/controller/statefulset.go, `NewStatefulSetReconciler`: what the reconciler of a broker's
-- stateful set is made of.
use kafka_operator.Prelude.{String, Bool, false, Option, none, some}
use kafka_operator.Prelude.Dict.{Dict}
use kafka_operator.Prelude.Int.{ℤ}
use kafka_operator.Api.Library.{Image, OverridesSpec}
use kafka_operator.Api.Types.{BrokersConfigSpec, ClusterConfigSpec, ClusterOperationSpec}
use kafka_operator.Security.{KafkaSecurity}
use kafka_operator.Ports.{RoleGroupInfo}
use kafka_operator.StatefulSet.{StatefulSetBuilder, new_stateful_set_builder}

-- `clusterOperation != nil && clusterOperation.Stopped`
unfoldable pub is_stopped : Option ClusterOperationSpec → Bool
is_stopped none = false
is_stopped (some operation) = operation.stopped

-- What operator-go's reconciler and its builder are given: the image and the
-- replicas go to the builder that the source embeds.
pub record StatefulSetReconciler : Type 0 where
  pub image : Image
  pub replicas : ℤ
  pub builder : StatefulSetBuilder
  pub stopped : Bool

unfoldable pub new_stateful_set_reconciler :
    String
    → Option (Dict String)
    → Image
    → ℤ
    → Option ClusterConfigSpec
    → Option ClusterOperationSpec
    → RoleGroupInfo
    → BrokersConfigSpec
    → OverridesSpec
    → KafkaSecurity
    → StatefulSetReconciler
new_stateful_set_reconciler namespace labels image replicas config operation info broker_config
      overrides k =
    record {
      image = image;
      replicas = replicas;
      builder = new_stateful_set_builder namespace labels info config broker_config overrides k;
      stopped = is_stopped operation;
    }
