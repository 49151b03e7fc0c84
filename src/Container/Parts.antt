-- ===== src/Container/Parts.antt =====
-- internal/controller/container.go: the environment and the probes of the broker's container.
use kafka_operator.Prelude.{
  ℕ, String, false, inl, inr, List, [], ◌∷◌, ◌≡◌, refl, ◌==◌, Bool-cases, if◌then◌else◌,
}
use kafka_operator.Prelude.Lists.{All}
use kafka_operator.Api.Library.{ContainerPort, EnvVar}
use kafka_operator.Kerberos.{get_envs}
use kafka_operator.Security.{
  KafkaSecurity, client_port, client_port_name, is_kerberos_enabled, tls_enabled,
}
use kafka_operator.Ports.{kafka_container_ports}
use kafka_operator.Container.{
  Toolkit, KafkaContainerBuilder, new_kafka_container, container_env, container_ports,
  liveness_probe, readiness_probe,
}

-- the numbers of the container ports of that name
abbrev pub numbers_of : String → List ContainerPort → List ℕ
numbers_of name [] = []
numbers_of name (p ∷ ps) =
    if p.name == name then p.container_port ∷ numbers_of name ps else numbers_of name ps

-- Both probes name one port of the container, the client port.
pub probes_served :
    (d : KafkaContainerBuilder)
    → (numbers_of (liveness_probe d).tcp_port (container_ports d)
        ≡ client_port d.kafka_security ∷ [])
      × (numbers_of (readiness_probe d).tcp_port (container_ports d)
          ≡ client_port d.kafka_security ∷ [])
unfolding liveness_probe readiness_probe container_ports kafka_container_ports client_port_name ◌==◌
probes_served d = elim (Bool-cases (is_kerberos_enabled d.kafka_security)) [
  | inl kerberos ↦ elim (Bool-cases (tls_enabled d.kafka_security)) [
    | inl tls ↦ rw (kerberos, tls) (refl, refl)
    | inr clear ↦ rw (kerberos, clear) (refl, refl)
  ]
  | inr plain ↦ elim (Bool-cases (tls_enabled d.kafka_security)) [
    | inl tls ↦ rw (plain, tls) (refl, refl)
    | inr clear ↦ rw (plain, clear) (refl, refl)
  ]
]

-- A container that `NewKafkaContainer` makes never gets KAFKA_HEAP_OPTS.
pub container_env_heap :
    (t : Toolkit) (znode : String) (k : KafkaSecurity) (namespace svc : String)
    → All
        (λ (e : EnvVar). (e.name == "KAFKA_HEAP_OPTS") ≡ false)
        (container_env t (new_kafka_container znode k namespace svc))
unfolding container_env new_kafka_container get_envs ◌==◌
container_env_heap t znode k namespace svc = elim (Bool-cases (is_kerberos_enabled k)) [
  | inl on ↦ rw on (refl, (refl, (refl, (refl, (refl, (refl, (refl, tt)))))))
  | inr off ↦ rw off (refl, (refl, (refl, (refl, (refl, tt)))))
]
