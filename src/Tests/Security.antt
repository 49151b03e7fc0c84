-- ===== src/Tests/Security.antt =====
-- Runs and theorems on the security settings.
use kafka_operator.Prelude.{
  true, ◌||◌, none, some, [], ◌∷◌, ◌≡◌, ◌↔◌, refl, ok, panic, is_set, if◌then◌else◌, ◌==◌, ne_of_==,
}
use kafka_operator.Prelude.Text.{join, path_join}
use kafka_operator.Prelude.Lists.{contains}
use kafka_operator.Api.Library.{StatefulSet}
use kafka_operator.Role.{uses_kerberos}
use kafka_operator.Security.{
  is_kerberos_enabled, any_kerberos, new_kafka_security, with_kerberos,
  tls_client_authentication_class, tls_server_secret_class, tls_internal_secret_class,
}
use kafka_operator.Security.Coherence.{IsCoherent, new_kafka_security-IsCoherent}
use kafka_operator.Security.Settings.{config_settings}
use kafka_operator.Security.Stores.{IsConfigured, config_settings-IsConfigured}
use kafka_operator.Security.Volumes.{
  create_tls_keystore_volume, add_volume_and_volume_mounts, get_container, secret_scopes,
}
use kafka_operator.Security.Volumes.Annotations.{
  HasDistinctKeys, annotation, create_tls_keystore_volume_annotations,
}
use kafka_operator.Security.Volumes.Mounts.{IsBacked, add_volume_and_volume_mounts-eq-panic_iff}
use kafka_operator.Security.Volumes.Effect.{
  with_keystores, keystores_of, add_volume_and_volume_mounts-with_keystores,
}
use kafka_operator.Tests.Data.{constants, secured, secured_security, kerberos_only, broker_set}

clean_paths :
    (path_join ("/kubedoop/listener-broker" ∷ "default-address/address" ∷ [])
      ≡ "/kubedoop/listener-broker/default-address/address")
    × (path_join ("" ∷ "a//b/../c/." ∷ []) ≡ "a/c")
unfolding path_join
clean_paths = (refl, refl)

secured_built : new_kafka_security secured ≡ ok secured_security
unfolding new_kafka_security with_kerberos is_kerberos_enabled any_kerberos uses_kerberos is_set
secured_built = refl

new_kafka_security-IsCoherent_example : IsCoherent secured secured_security
new_kafka_security-IsCoherent_example =
    new_kafka_security-IsCoherent secured secured_security secured_built

config_settings-IsConfigured_example :
    IsConfigured
      (is_set (tls_client_authentication_class kerberos_only))
      (is_set (tls_server_secret_class kerberos_only))
      (is_kerberos_enabled kerberos_only)
      (is_set (tls_internal_secret_class kerberos_only))
      ""
      (config_settings kerberos_only)
config_settings-IsConfigured_example = config_settings-IsConfigured kerberos_only

distinct_keys : HasDistinctKeys constants
unfolding ◌==◌
distinct_keys = record {
  class_scope = ne_of_== "secrets/class" "secrets/scope" refl;
  class_format = ne_of_== "secrets/class" "secrets/format" refl;
  class_password = ne_of_== "secrets/class" "secrets/password" refl;
  scope_format = ne_of_== "secrets/scope" "secrets/format" refl;
  scope_password = ne_of_== "secrets/scope" "secrets/password" refl;
  format_password = ne_of_== "secrets/format" "secrets/password" refl;
  class_life_time = ne_of_== "secrets/class" "secrets/life-time" refl;
  scope_life_time = ne_of_== "secrets/scope" "secrets/life-time" refl;
  format_life_time = ne_of_== "secrets/format" "secrets/life-time" refl;
  password_life_time = ne_of_== "secrets/password" "secrets/life-time" refl;
}

create_tls_keystore_volume_annotations_example :
    let v = create_tls_keystore_volume constants "ks" "tls" "secret" "7d" in
    (annotation "secrets/class" v ≡ some "tls")
    × (annotation "secrets/scope" v ≡ some (join (secret_scopes constants) ","))
    × (annotation "secrets/format" v ≡ some "tls-p12")
    × (annotation "secrets/password" v ≡ (if is_set "secret" then some "secret" else none))
    × (annotation "secrets/life-time" v ≡ none)
create_tls_keystore_volume_annotations_example =
    create_tls_keystore_volume_annotations constants distinct_keys "ks" "tls" "secret" "7d"

mounted : StatefulSet
mounted =
    with_keystores constants secured_security "1d" 1 (keystores_of secured_security) broker_set

add_volume_and_volume_mounts-with_keystores_example :
    add_volume_and_volume_mounts constants secured_security broker_set "1d" ≡ ok mounted
unfolding mounted get_container ◌==◌
add_volume_and_volume_mounts-with_keystores_example =
    add_volume_and_volume_mounts-with_keystores constants secured_security "1d" 1 broker_set refl

broker_set-IsBacked : IsBacked broker_set
unfolding contains ◌==◌
broker_set-IsBacked = (tt, ((refl, tt), tt))

abbrev no_containers : StatefulSet
no_containers = record broker_set { containers = [] }

add_volume_and_volume_mounts-eq-panic_iff_example :
    (add_volume_and_volume_mounts constants secured_security no_containers "1d" ≡ panic) ↔ (
      (get_container [] "kafka" ≡ none)
      × ((is_set (tls_server_secret_class secured_security)
            || is_set (tls_internal_secret_class secured_security))
          ≡ true))
add_volume_and_volume_mounts-eq-panic_iff_example =
    add_volume_and_volume_mounts-eq-panic_iff constants secured_security "1d" no_containers
