-- ===== src/Listener/Rendering.antt =====
-- internal/controller/listener.go: the broker's command line spells the listeners, which Kafka splits at
-- commas.
use kafka_operator.Prelude.{
  String, ◌<>◌, true, List, [], ◌∷◌, map, ◌≡◌, refl, arith, ok, subst, Result-ok_injective, ◌≢◌,
  Bool-cases, inl, inr,
}
use kafka_operator.Prelude.Lists.{All, All-map, All-map_image}
use kafka_operator.Prelude.Text.{join, split}
use kafka_operator.Prelude.Text.Decimal.{lacks-itoa}
use kafka_operator.Prelude.Text.Join.{lacks, lacks-append, split-join}
use kafka_operator.Prelude.Text.{path_join}
use kafka_operator.Api.Names.{listener_broker_dir}
use kafka_operator.ListenerVolume.{node_port_cmd, node_address_cmd, pod_fqdn}
use kafka_operator.Security.{
  KafkaSecurity, client_port_name, client_port, internal_port, bootstrap_port, tls_enabled,
}
use kafka_operator.Listener.{
  KafkaListener, KafkaListenerConfig, listener_config, get_kafka_listener_config, listener_string,
  listeners_string, advertised_listeners_string,
}

-- a listener's text lacks commas if its parts do
lacks-listener_string :
    (l : KafkaListener)
    → (lacks b',' l.name ≡ true) × (lacks b',' l.host ≡ true) × (lacks b',' l.port ≡ true)
    → lacks b',' (listener_string l) ≡ true
unfolding listener_string
lacks-listener_string l (n, h, p) = lacks-append b',' l.name _ n (
    lacks-append b',' "://" _ (unfold lacks in refl)
      (lacks-append b',' l.host _ h (lacks-append b',' ":" _ (unfold lacks in refl) p)))

split-listeners :
    (ls : List KafkaListener)
    → ls ≢ []
    → All
        (λ l. (lacks b',' l.name ≡ true) × (lacks b',' l.host ≡ true) × (lacks b',' l.port ≡ true))
        ls
    → split b',' (join (map listener_string ls) ",") ≡ map listener_string ls
split-listeners [] ne h = absurd (ne refl)
split-listeners (l ∷ ls) ne (p, h) = split-join "," (listener_string l) (map listener_string ls) (
  lacks-listener_string l p,
  All-map_image (λ s. lacks b',' s ≡ true) listener_string ls (All-map lacks-listener_string ls h),
)

lacks-broker_port :
    (k : KafkaSecurity) → lacks b',' (node_port_cmd listener_broker_dir (client_port_name k)) ≡ true
unfolding client_port_name
lacks-broker_port k = elim (Bool-cases (tls_enabled k)) [
  | inl on ↦ rw on (unfold lacks node_port_cmd path_join in refl)
  | inr off ↦ rw off (unfold lacks node_port_cmd path_join in refl)
]

lacks-broker_address : lacks b',' (node_address_cmd listener_broker_dir) ≡ true
unfolding lacks node_address_cmd path_join
lacks-broker_address = refl

lacks-pod_fqdn :
    (namespace object_name : String)
    → lacks b',' namespace ≡ true
    → lacks b',' object_name ≡ true
    → lacks b',' (pod_fqdn namespace object_name) ≡ true
unfolding pod_fqdn
lacks-pod_fqdn namespace object_name n o = lacks-append b',' "$POD_NAME." _ (unfold lacks in refl) (
    lacks-append b',' object_name _ o (
      lacks-append b',' "." (namespace <> ".svc.cluster.local") (unfold lacks in refl)
        (lacks-append b',' namespace ".svc.cluster.local" n (unfold lacks in refl))))

lacks_literals :
    (lacks b',' "0.0.0.0" ≡ true)
    × (lacks b',' "CLIENT" ≡ true)
    × (lacks b',' "CLIENT_AUTH" ≡ true)
    × (lacks b',' "INTERNAL" ≡ true)
    × (lacks b',' "BOOTSTRAP" ≡ true)
unfolding lacks
lacks_literals = (refl, refl, refl, refl, refl)

module _ (namespace : String) (k : KafkaSecurity) (object_name : String) where
  listeners_plain :
      All
        (λ l. (lacks b',' l.name ≡ true) × (lacks b',' l.host ≡ true) × (lacks b',' l.port ≡ true))
        (listener_config namespace k object_name).listeners
  unfolding listener_config
  listeners_plain = ground (
    arith,
    lacks_literals,
    lacks-itoa (client_port k),
    lacks-itoa 9092,
    lacks-itoa (internal_port k),
    lacks-itoa (bootstrap_port k),
  )

  advertised_plain :
      lacks b',' (pod_fqdn namespace object_name) ≡ true
      → All
          (λ l.
            (lacks b',' l.name ≡ true) × (lacks b',' l.host ≡ true) × (lacks b',' l.port ≡ true))
          (listener_config namespace k object_name).advertised_listeners
  unfolding listener_config
  advertised_plain h = ground (
    arith,
    lacks_literals,
    lacks-itoa (internal_port k),
    lacks-broker_port k,
    lacks-broker_address,
  )

  listeners-ne-nil : (listener_config namespace k object_name).listeners ≢ []
  unfolding listener_config
  listeners-ne-nil = ground arith

  advertised-ne-nil : (listener_config namespace k object_name).advertised_listeners ≢ []
  unfolding listener_config
  advertised-ne-nil = ground arith

module _ (namespace : String) (k : KafkaSecurity) (object_name : String)
    (config : KafkaListenerConfig)
    (found : get_kafka_listener_config namespace k object_name ≡ ok config) where
  -- The texts of the listeners and, if the namespace and the service name hold no comma, of the
  -- advertised listeners split at their commas into the texts of the single listeners, in order.
  pub split-listeners_string :
      lacks b',' namespace ≡ true
      → lacks b',' object_name ≡ true
      → (split b',' (listeners_string config) ≡ map listener_string config.listeners)
        × (split b',' (advertised_listeners_string config)
            ≡ map listener_string config.advertised_listeners)
  unfolding get_kafka_listener_config listeners_string advertised_listeners_string
  split-listeners_string n o =
      subst
        (λ c.
          (split b',' (listeners_string c) ≡ map listener_string c.listeners)
          × (split b',' (advertised_listeners_string c)
              ≡ map listener_string c.advertised_listeners))
        (Result-ok_injective found)
        (
          split-listeners _ (listeners-ne-nil namespace k object_name)
              (listeners_plain namespace k object_name),
          split-listeners _ (advertised-ne-nil namespace k object_name)
              (advertised_plain namespace k object_name (lacks-pod_fqdn namespace object_name n o)),
        )
