-- ===== src/Controller/Stages.antt =====
-- internal/controller/kafkacluster_controller.go: when a reconciliation is finished.
use kafka_operator.Prelude.{
  true, arith, ◌≡◌, ◌↔◌, inl, inr, refl, ok, Bool-cases, >>=-eq-ok, if◌then◌else◌,
}
use kafka_operator.Api.Types.{KafkaCluster}
use kafka_operator.Cluster.{ClusterReconciler}
use kafka_operator.Controller.{
  CtrlResult, ClusterLibrary, zero_result, is_zero, instance_of, registered_cluster, reconcile,
}

-- All three stages succeed, and neither the second nor the third asks to be called again.
abbrev pub IsFinished : ClusterLibrary → KafkaCluster → Type 0
IsFinished lib cluster =
    (r : ClusterReconciler) × (registered_cluster lib cluster ≡ ok r)
    × ((a : CtrlResult) × (lib.reconcile_cluster r ≡ ok a) × (is_zero a ≡ true))
    × ((b : CtrlResult) × (lib.ready r ≡ ok b) × (is_zero b ≡ true))

is_zero_iff : (a : CtrlResult) → (is_zero a ≡ true) ↔ (a ≡ zero_result)
unfolding is_zero
is_zero_iff a = ground arith

finished :
    (lib : ClusterLibrary) (cluster : KafkaCluster)
    → reconcile lib (instance_of cluster) ≡ ok zero_result
    → IsFinished lib cluster
unfolding reconcile
finished lib cluster h =
    let (r, registered, rest) = >>=-eq-ok (registered_cluster lib cluster) _ h in
    let (a, reconciled, rest1) = >>=-eq-ok (lib.reconcile_cluster r) _ rest in
    let (w, waiting, same) =
      >>=-eq-ok (if is_zero a then lib.ready r else ok a)
        (λ waiting. ok (if is_zero waiting then zero_result else waiting)) rest1 in
    let zero : is_zero w ≡ true = ground (arith, is_zero_iff w) in
    elim (Bool-cases (is_zero a)) [
      | inl done ↦ (r, registered, (a, reconciled, done), (w, rw done at waiting, zero))
      | inr again ↦ ground (arith, zero, again, waiting)
    ]

all_finished :
    (lib : ClusterLibrary) (cluster : KafkaCluster)
    → IsFinished lib cluster
    → reconcile lib (instance_of cluster) ≡ ok zero_result
unfolding reconcile
all_finished lib cluster (r, registered, (a, reconciled, done), (b, ready, settled)) =
    rw (registered, reconciled, done, ready, settled) refl

-- `Reconcile` of a cluster that is there returns the zero result exactly if the registration, the
-- reconciliation and the readiness check all succeed and none asks to be called again.
pub reconcile-eq-zero_iff :
    (lib : ClusterLibrary) (cluster : KafkaCluster)
    → (reconcile lib (instance_of cluster) ≡ ok zero_result) ↔ IsFinished lib cluster
reconcile-eq-zero_iff lib cluster = (finished lib cluster, all_finished lib cluster)
