-- ===== src/Tests.antt =====
-- Runs of the definitions on concrete clusters, and the theorems at those clusters.
mod Data
mod Security
mod Listener
mod Config
mod ConfigMap
mod Discovery
mod StatefulSet
mod Broker
mod Cluster
mod Service
mod Controller
mod Startup
mod Bounds
mod Vector
mod References
mod DeepCopy
