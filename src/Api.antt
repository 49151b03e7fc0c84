-- ===== src/Api.antt =====
-- api/v1alpha1/kafkacluster_types.go and image.go: the KafkaCluster resource and the constants of
-- its package, with the library types that its fields have.
pub mod Names
pub mod Library
pub mod Types
