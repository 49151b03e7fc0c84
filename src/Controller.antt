-- ===== src/Controller.antt =====
-- internal/controller/kafkacluster_controller.go: `Reconcile`, as a function of what the calls in it
-- return.
pub mod Stages
use kafka_operator.Prelude.{
  ℕ, String, Bool, true, false, not, ◌&&◌, Option, none, some, Result, ok, err, panic, ◌>>=◌, ltb,
  if◌then◌else◌,
}
use kafka_operator.Api.Library.{Constants}
use kafka_operator.Api.Types.{KafkaCluster}
use kafka_operator.Broker.{RoleLibrary}
use kafka_operator.Cluster.{ClusterReconciler, NewImage, new_cluster_reconciler, register_resources}

-- ctrl.Result
pub record CtrlResult : Type 0 where
  pub requeue : Bool
  pub requeue_after : ℕ

abbrev pub zero_result : CtrlResult
zero_result = record { requeue = false; requeue_after = 0 }

unfoldable pub is_zero : CtrlResult → Bool
is_zero r = not r.requeue && not (ltb 0 r.requeue_after)

-- what the API server's `Get` returns: the object, that it is not found, or another error
pub data Found : Type 0 where
  instance_of : KafkaCluster → Found
  not_found : Found
  failed : String → Found

-- What operator-go provides of a cluster's reconciler, next to what its registration needs: the
-- reconciliation and the readiness check of all that is registered.
pub record ClusterLibrary : Type 0 where
  pub constants : Constants
  pub roles : RoleLibrary
  pub new_image : NewImage
  pub reconcile_cluster : ClusterReconciler → Result CtrlResult
  pub ready : ClusterReconciler → Result CtrlResult

-- a new reconciler of the cluster, registered
unfoldable pub registered_cluster : ClusterLibrary → KafkaCluster → Result ClusterReconciler
registered_cluster lib cluster =
    register_resources lib.constants lib.roles lib.new_image
      (new_cluster_reconciler cluster cluster.name cluster.spec)

unfoldable pub reconcile : ClusterLibrary → Found → Result CtrlResult
reconcile lib not_found = ok zero_result
reconcile lib (failed e) = err e
reconcile lib (instance_of cluster) = do
  r ← registered_cluster lib cluster
  reconciled ← lib.reconcile_cluster r
  waiting ← if is_zero reconciled then lib.ready r else ok reconciled
  ok (if is_zero waiting then zero_result else waiting)
