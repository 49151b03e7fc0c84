-- ===== src/Cluster/Complete.antt =====
-- internal/controller/cluster.go: clusters whose registration succeeds.
use kafka_operator.Prelude.{String, some, ◌≡◌, refl}
use kafka_operator.Prelude.Lists.{All}
use kafka_operator.Api.Library.{Constants}
use kafka_operator.Api.Types.{BrokersSpec, ClusterConfigSpec, ImageSpec, KafkaCluster}
use kafka_operator.Security.{new_kafka_security}
use kafka_operator.StatefulSet.Steps.{Succeeds}
use kafka_operator.Broker.{RoleLibrary, new_broker_reconciler}
use kafka_operator.Broker.Admissible
use kafka_operator.Broker.Admissible.{IsAdmissible, MergesAndLabels}
use kafka_operator.Cluster.{NewImage, new_cluster_reconciler, register_resources}
use kafka_operator.Cluster.Images.{RunsOption, get_image-Succeeds}
use kafka_operator.Cluster.Registration.{broker_of}

-- The cluster's configuration, its image with a pull policy and its brokers are there, and its role
-- groups are admissible.
abbrev pub IsComplete : RoleLibrary → KafkaCluster → Type 0
IsComplete lib cluster =
    (config : ClusterConfigSpec) × (image : ImageSpec) × (pull_policy : String)
    × (spec : BrokersSpec) × (cluster.spec.cluster_config ≡ some config)
    × (cluster.spec.image ≡ some image)
    × (image.pull_policy ≡ some pull_policy)
    × (cluster.spec.brokers ≡ some spec)
    × All (IsAdmissible lib spec) spec.role_groups

new_kafka_security-Succeeds :
    (cluster : KafkaCluster) (config : ClusterConfigSpec)
    → cluster.spec.cluster_config ≡ some config
    → Succeeds (new_kafka_security cluster)
unfolding new_kafka_security
new_kafka_security-Succeeds cluster config there = rw there (_, refl)

-- If operator-go merges configurations, labels role groups and makes images as it documents, the
-- registration of a new reconciler of a complete cluster succeeds: its cluster configuration, its
-- image with a pull policy and its brokers are there, no role group is nil, and operator-go merges the
-- role's overrides with each role group's into overrides that have no nil map for a default file.
pub register_resources-Succeeds :
    (c : Constants) (lib : RoleLibrary) (new_image : NewImage) (cluster : KafkaCluster)
    → RunsOption new_image
    → MergesAndLabels lib
    → IsComplete lib cluster
    → Succeeds (
        register_resources c lib new_image
          (new_cluster_reconciler cluster cluster.name cluster.spec))
unfolding register_resources new_cluster_reconciler new_broker_reconciler
register_resources-Succeeds c lib new_image cluster runs laws
      (config, image, pull_policy, spec, configured, imaged, policy, brokers, all) =
    let r = new_cluster_reconciler cluster cluster.name cluster.spec in
    let (k, secured) = new_kafka_security-Succeeds cluster config configured in
    let (made, there) = get_image-Succeeds new_image r image pull_policy runs imaged policy in
    let (role, registered) =
      Admissible.register_resources-Succeeds c lib (broker_of cluster made k) spec laws brokers
        all in
    rw (secured, there, registered) (_, refl)
