-- ===== src/Tests/Controller.antt =====
-- Runs and theorems on the reconcile loop.
use kafka_operator.Prelude.{◌≡◌, ◌↔◌, refl, ok, true}
use kafka_operator.Controller.{
  ClusterLibrary, instance_of, is_zero, reconcile, registered_cluster, zero_result,
}
use kafka_operator.Controller.Stages.{IsFinished, reconcile-eq-zero_iff}
use kafka_operator.Tests.Data.{constants}
use kafka_operator.Tests.Broker.{library}
use kafka_operator.Tests.Cluster.{cluster, new_image, registered}

-- a cluster that is not ready yet
abbrev waiting : ClusterLibrary
waiting = record {
  constants = constants;
  roles = library;
  new_image = new_image;
  reconcile_cluster = λ r. ok zero_result;
  ready = λ r. ok (record { requeue = true; requeue_after = 5 });
}

called_again :
    reconcile waiting (instance_of cluster) ≡ ok (record { requeue = true; requeue_after = 5 })
unfolding reconcile registered_cluster is_zero
called_again = rw registered refl

reconcile-eq-zero_iff_example :
    (reconcile waiting (instance_of cluster) ≡ ok zero_result) ↔ IsFinished waiting cluster
reconcile-eq-zero_iff_example = reconcile-eq-zero_iff waiting cluster
