-- ===== src/Tests/Listener.antt =====
-- Runs and theorems on the listeners and their volumes.
use kafka_operator.Prelude.{
  String, ◌<>◌, true, false, ◌||◌, none, [], ◌∷◌, map, ◌≡◌, refl, arith, ok, err, is_set, ◌==◌,
  if◌then◌else◌,
}
use kafka_operator.Prelude.Dict.{Dict, set, lookup}
use kafka_operator.Prelude.Text.{join, path_join, split}
use kafka_operator.Prelude.Text.Decimal.{itoa}
use kafka_operator.Prelude.Text.Join.{lacks}
use kafka_operator.Role.{uses_kerberos}
use kafka_operator.Security.{
  is_kerberos_enabled, any_kerberos, tls_enabled, tls_internal_secret_class, client_port,
  client_port_name, internal_port, bootstrap_port, tls_keystore_server_dir,
}
use kafka_operator.Security.Settings.{config_settings}
use kafka_operator.Security.Stores.{StoresIf}
use kafka_operator.ListenerVolume.{
  ListenerOperatorVolumeSourceBuilder, build_ephemeral, build_pvc, node_address_cmd, node_port_cmd,
  pod_fqdn,
}
use kafka_operator.ListenerVolume.Reference.{claim_of, build_of_reference}
use kafka_operator.Listener.{
  KafkaListenerConfig, listener_config, get_kafka_listener_config, listener_string,
  listeners_string, advertised_listeners_string, listener_security_protocol_map_string, client,
}
use kafka_operator.Listener.Consistency.{IsConsistent, get_kafka_listener_config-IsConsistent}
use kafka_operator.Listener.Encryption.{
  is_ssl, HasMatchingStores, get_kafka_listener_config-HasMatchingStores,
  get_kafka_listener_config_kerberos_only,
}
use kafka_operator.Listener.Rendering.{split-listeners_string}
use kafka_operator.Listener.ProtocolMap.{read_protocol_map, read_protocol_map-string}
use kafka_operator.Tests.Data.{constants, secured_security, kerberos_only}

config : KafkaListenerConfig
unfolding listener_config is_kerberos_enabled any_kerberos uses_kerberos is_set tls_enabled
    tls_internal_secret_class client_port client_port_name internal_port bootstrap_port itoa set
    ◌==◌ pod_fqdn node_address_cmd node_port_cmd path_join
config = listener_config "ns" secured_security "simple-broker"

config_found : get_kafka_listener_config "ns" secured_security "simple-broker" ≡ ok config
unfolding get_kafka_listener_config config
config_found = refl

config_listeners :
    listeners_string config
    ≡ "CLIENT://0.0.0.0:9093,INTERNAL://0.0.0.0:19093,BOOTSTRAP://0.0.0.0:9095"
unfolding listeners_string listener_string join config
config_listeners = refl

config_advertised :
    advertised_listeners_string config
    ≡ "CLIENT://$(cat /kubedoop/listener-broker/default-address/address):"
      <> "$(cat /kubedoop/listener-broker/default-address/ports/kafka-tls),"
      <> "INTERNAL://$POD_NAME.simple-broker.ns.svc.cluster.local:19093,"
      <> "BOOTSTRAP://$(cat /kubedoop/listener-broker/default-address/address):"
      <> "$(cat /kubedoop/listener-broker/default-address/ports/kafka-tls)"
unfolding advertised_listeners_string listener_string join config
config_advertised = refl

get_kafka_listener_config-IsConsistent_example :
    (c : KafkaListenerConfig) × (get_kafka_listener_config "ns" kerberos_only "simple-broker"
      ≡ ok c)
    × IsConsistent kerberos_only c
get_kafka_listener_config-IsConsistent_example =
    get_kafka_listener_config-IsConsistent "ns" kerberos_only "simple-broker"

get_kafka_listener_config-HasMatchingStores_example : HasMatchingStores secured_security config
unfolding is_set tls_internal_secret_class
get_kafka_listener_config-HasMatchingStores_example =
    get_kafka_listener_config-HasMatchingStores "ns" secured_security "simple-broker" config
      config_found (λ _. refl) (λ _. refl)

kerberos_config : KafkaListenerConfig
kerberos_config = listener_config "ns" kerberos_only "simple-broker"

get_kafka_listener_config_kerberos_only_example :
    (is_ssl client kerberos_config ≡ true)
    × (client_port kerberos_only ≡ 9092)
    × StoresIf false "client" tls_keystore_server_dir "" (config_settings kerberos_only)
unfolding is_kerberos_enabled any_kerberos uses_kerberos is_set get_kafka_listener_config
    kerberos_config
get_kafka_listener_config_kerberos_only_example =
    get_kafka_listener_config_kerberos_only "ns" kerberos_only "simple-broker" kerberos_config refl
      refl refl refl

-- the protocol map in another order
abbrev reordered : Dict String
reordered = ("BOOTSTRAP", "SSL") ∷ ("CLIENT", "SSL") ∷ ("INTERNAL", "SSL") ∷ []

read_protocol_map-string_example :
    read_protocol_map (listener_security_protocol_map_string reordered) ≡ reordered
unfolding lookup config
read_protocol_map-string_example =
    read_protocol_map-string "ns" secured_security "simple-broker" config config_found reordered
      (refl, (refl, (refl, tt))) (λ k. ground arith)

split-listeners_string_example :
    (split b',' (listeners_string config) ≡ map listener_string config.listeners)
    × (split b',' (advertised_listeners_string config)
        ≡ map listener_string config.advertised_listeners)
unfolding lacks
split-listeners_string_example =
    split-listeners_string "ns" secured_security "simple-broker" config config_found refl refl

abbrev by_class : ListenerOperatorVolumeSourceBuilder
by_class = record {
  reference = record { listener_class = "cluster-internal"; listener_name = "x" };
  labels = none;
}

build_of_reference_example :
    let missing =
      "failed to get listener reference annotation: "
      <> "either ListenerClass or ListenerName must be set" in
    let found = is_set "cluster-internal" || is_set "x" in
    (build_ephemeral constants by_class
      ≡ (if found then ok (claim_of constants by_class) else err missing))
    × (build_pvc constants by_class "pvc" ≡ (
        if found
        then ok (record { name = "pvc"; template = claim_of constants by_class })
        else err missing))
unfolding is_set
build_of_reference_example = build_of_reference constants refl refl by_class "pvc"
