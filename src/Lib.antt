-- ===== src/Lib.antt =====
-- A model of the Kubernetes operator for Apache Kafka, and the theorems that hold of it.
--
-- The operator reconciles a KafkaCluster resource. From its spec it computes the security settings
-- (internal/security), and from these and the merged broker configuration a pod's listeners, ports,
-- environment, volumes and configuration files (internal/controller, internal/util, internal/pkg),
-- which operator-go and Kubernetes apply.
--
-- Files:
--   Prelude            Go's strings, maps and results: `strings.Join`, `strconv.Itoa`, `path.Join`,
--                      maps as association lists, a result with errors and panics
--   Api                api/v1alpha1: the resource's types and constants; Library has the library
--                      structs that the operator fills in
--   Role               internal/pkg/kafka_role.go
--   Kerberos           internal/security/kerberos.go
--   Security           internal/security/security.go: settings and ports; Settings has
--                      `ConfigSettings`, Entries and Stores what it sets, Volumes the
--                      keystore volumes
--   SecretVolume       internal/util/secret_volume.go
--   ListenerVolume     internal/util/listener_volume.go
--   Ports              internal/controller/util.go: Bounds says which ports Kubernetes accepts
--   Listener           internal/controller/listener.go: `GetKafkaListenerConfig`
--   Config             internal/controller/cluster_config.go: Defaults has the defaults, Files and
--                      Overrides the merge of files, Order the merge with the order of maps
--                      forgotten, Base the merge of the configuration, User both merges,
--                      Merged when they succeed
--   ConfigMap          internal/controller/configmap.go and `IsVectorEnable` of vector.go: Server
--                      has server.properties, Items the loop over the property files, Kept what
--                      it keeps, Built what `Build` ends in
--   ListenerBuilder    internal/pkg/listener_builder.go and, of internal/controller/listener.go,
--                      the bootstrap listener
--   Discovery          internal/controller/discovery.go: Servers has the servers, Bootstrap
--                      relates them to clients and to the bootstrap listener
--   DeepCopy           api/v1alpha1/zz_generated.deepcopy.go: Memory has pointers and the allocator,
--                      Objects the types with addresses, Layout what they reach, Fresh and Apart
--                      that a copy shares nothing with its original
--   Resource           internal/util/resource.go: Heap has the heap for a limit
--   Container          internal/controller/container.go: Parts has the environment and probes
--   StatefulSet        internal/controller/statefulset.go: PodNames has the names of volumes and
--                      claims, Template what operator-go makes of the pod's parts, Mounts the
--                      mounts of the whole pod, Steps and Built what `Build` ends in, Named
--                      and References the names it refers to, Reconciler the reconciler
--                      around the builder
--   Service            internal/controller/service.go: Metrics has the metrics service
--   Broker             internal/controller/role.go: Registered has what is registered, Built
--                      that it can be built, Admissible which role groups are registered,
--                      References the names that its objects share
--   Vector             internal/controller/vector.go: Data relates both ways to vector.yaml
--   Version            internal/util/version/version.go
--   Cluster            internal/controller/cluster.go: Images has `GetImage`, Registration what a
--                      cluster's reconciler registers, Complete when it does
--   Controller         internal/controller/kafkacluster_controller.go: `Reconcile`
--   Startup            cmd/main.go: Servers has the servers' settings, Run the calls of a run
--   Tests              runs on concrete clusters
--
-- How the parts meet: the security settings decide the listeners, the ports, the settings in
-- server.properties and the keystores; the merged configuration decides the listener classes, the
-- resources and the files; the stateful set puts both together, and discovery reads back what the
-- bootstrap listener offers.
--
-- How the code is read: a pointer that may be nil is an `Option`, and a dereference of nil or a
-- write to a nil map is `panic`. A method that changes its receiver returns the changed value. A
-- `range` over a map is a function of an enumeration of its entries; a map that the source writes
-- out is enumerated as it is written, where no other order is said. What comes from a library is a
-- parameter: its constants (`Constants`), renderers (`Renderers`), shell texts (`Toolkit`), pod
-- building (`PodBuilder`), merges (`RoleLibrary`), images (`NewImage`), the deep copies of its own
-- types (`DeepCopy.Library`), and the API server's answers. Only the deep copies have addresses:
-- there a pointer carries the address of what it refers to. A quantity such as
-- "2Gi" and the JSON of an affinity are texts.
--
-- Bounds and fuel: a port is a natural number or, in a listener's status, an integer; the source
-- only prints and compares ports. `Itoa` takes as much fuel as the number plus one, and a number has
-- no more digits than that. No other loop needs fuel.
--
-- Not modelled: the parse of the command line, the registration of the scheme, rbac.go of
-- internal/controller (one call that hands a name to operator-go), log messages, and what
-- operator-go and Kubernetes do with the built objects.
pub mod Prelude
pub mod Api
pub mod Role
pub mod Kerberos
pub mod Security
pub mod SecretVolume
pub mod ListenerVolume
pub mod Config
pub mod ConfigMap
pub mod Ports
pub mod Resource
pub mod Container
pub mod DeepCopy
pub mod StatefulSet
pub mod Service
pub mod Broker
pub mod Version
pub mod Vector
pub mod Cluster
pub mod Startup
pub mod Controller
pub mod ListenerBuilder
pub mod Discovery
pub mod Listener
mod Tests
