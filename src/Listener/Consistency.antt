-- ===== src/Listener/Consistency.antt =====
-- internal/controller/listener.go and util.go: the listeners of a broker fit one another, its
-- container ports, and the ports that probes and discovery name.
use kafka_operator.Prelude.{
  String, Bool, true, false, not, ◌&&◌, ◌||◌, List, [], ◌∷◌, map, ◌≡◌, refl, arith, ok, ◌==◌,
  ==_refl, is_set, if◌then◌else◌,
}
use kafka_operator.Prelude.Dict.{set}
use kafka_operator.Prelude.Lists.{All, contains}
use kafka_operator.Prelude.Text.Decimal.{itoa}
use kafka_operator.Api.Library.{ContainerPort}
use kafka_operator.Security.{
  KafkaSecurity, client_port, bootstrap_port, internal_port, tls_enabled, tls_internal_secret_class,
  is_kerberos_enabled,
}
use kafka_operator.Ports.{kafka_container_ports}
use kafka_operator.Listener.{
  KafkaListener, KafkaListenerConfig, listener_config, get_kafka_listener_config, internal,
  bootstrap,
}

-- No text occurs twice.
abbrev distinct : List String → Bool
distinct [] = true
distinct (x ∷ xs) = not (contains xs x) && distinct xs

abbrev names_of : List KafkaListener → List String
names_of = map (λ (l : KafkaListener). l.name)

abbrev ports_of : List KafkaListener → List String
ports_of = map (λ (l : KafkaListener). l.port)

-- A listener other than the internal one listens on a port of the container.
abbrev IsExposed : KafkaSecurity → KafkaListener → Type 0
IsExposed k l =
    (l.name == internal
      || contains (map (λ (p : ContainerPort). itoa p.container_port) (kafka_container_ports k))
          l.port)
    ≡ true

pub record IsConsistent (k : KafkaSecurity) (config : KafkaListenerConfig) : Type 0 where
  pub names_once : distinct (names_of config.listeners) ≡ true
  pub ports_once : distinct (ports_of config.listeners) ≡ true
  pub advertised : names_of config.advertised_listeners ≡ names_of config.listeners
  pub protocols :
      map (λ (e : String × String). e.0) config.listener_security_protocol_map
      ≡ names_of config.listeners
  pub inter_broker : contains (names_of config.listeners) internal ≡ true
  pub with_bootstrap : contains (names_of config.listeners) bootstrap ≡ is_kerberos_enabled k
  pub exposed : All (IsExposed k) config.listeners

-- the decimal texts of the ports
itoa_literals :
    (itoa 9092 ≡ "9092")
    × (itoa 9093 ≡ "9093")
    × (itoa 9094 ≡ "9094")
    × (itoa 9095 ≡ "9095")
    × (itoa 19092 ≡ "19092")
    × (itoa 19093 ≡ "19093")
    × (itoa 9606 ≡ "9606")
unfolding itoa
itoa_literals = (refl, refl, refl, refl, refl, refl, refl)

module _ (k : KafkaSecurity) where
  itoa-client_port : itoa (client_port k) ≡ (if tls_enabled k then "9093" else "9092")
  unfolding client_port
  itoa-client_port = ground (arith, itoa_literals)

  itoa-bootstrap_port : itoa (bootstrap_port k) ≡ (if tls_enabled k then "9095" else "9094")
  unfolding bootstrap_port
  itoa-bootstrap_port = ground (arith, itoa_literals)

  itoa-internal_port :
      itoa (internal_port k)
      ≡ (if is_set (tls_internal_secret_class k) || is_kerberos_enabled k then "19093" else "19092")
  unfolding internal_port
  itoa-internal_port = ground (arith, itoa_literals)

-- The texts that are compared, as far as they differ.
text_tests :
    (("19092" == "9092") ≡ false)
    × (("19092" == "9093") ≡ false)
    × (("19093" == "9092") ≡ false)
    × (("19093" == "9093") ≡ false)
    × (("9094" == "9092") ≡ false)
    × (("9095" == "9093") ≡ false)
    × (("9094" == "19093") ≡ false)
    × (("9095" == "19093") ≡ false)
    × (("CLIENT" == "INTERNAL") ≡ false)
    × (("CLIENT_AUTH" == "INTERNAL") ≡ false)
    × (("BOOTSTRAP" == "INTERNAL") ≡ false)
unfolding ◌==◌
text_tests = (refl, refl, refl, refl, refl, refl, refl, refl, refl, refl, refl)

module _ (namespace : String) (k : KafkaSecurity) (object_name : String) where
  ports_once : distinct (ports_of (listener_config namespace k object_name).listeners) ≡ true
  unfolding listener_config contains
  ports_once =
      rw (itoa-client_port, itoa-bootstrap_port, itoa-internal_port, itoa_literals.0)
        (ground (arith, text_tests))

  IsExposed-ports : All (IsExposed k) (listener_config namespace k object_name).listeners
  unfolding listener_config contains kafka_container_ports tls_enabled
  IsExposed-ports = ground (
    arith,
    text_tests,
    itoa-client_port k,
    itoa_literals,
    ==_refl "INTERNAL",
    ==_refl (itoa (client_port k)),
    ==_refl (itoa (bootstrap_port k)),
  )

-- For all settings `GetKafkaListenerConfig` returns a configuration without an error, in which no
-- listener name and no port is used twice, the advertised listeners and the protocol map have
-- exactly the listeners' names, the internal listener is present, the bootstrap listener is present
-- exactly with Kerberos, and every listener but the internal one is on a container port.
pub get_kafka_listener_config-IsConsistent :
    (namespace : String) (k : KafkaSecurity) (object_name : String)
    → (config : KafkaListenerConfig) × (get_kafka_listener_config namespace k object_name
        ≡ ok config)
      × IsConsistent k config
unfolding get_kafka_listener_config
get_kafka_listener_config-IsConsistent namespace k object_name = (
  _,
  refl,
  record {
    names_once = unfold listener_config contains ◌==◌ in ground arith;
    ports_once = ports_once namespace k object_name;
    advertised = unfold listener_config in ground arith;
    protocols = unfold listener_config set ◌==◌ in ground arith;
    inter_broker = unfold listener_config contains ◌==◌ in ground arith;
    with_bootstrap = unfold listener_config contains ◌==◌ in ground arith;
    exposed = IsExposed-ports namespace k object_name;
  },
)
