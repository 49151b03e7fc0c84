-- ===== src/Security/Entries.antt =====
-- internal/security/security.go, `ConfigSettings`: the names that its entries can have.
use kafka_operator.Prelude.{
  String, Bool, [], ◌≡◌, ◌<>◌, true, false, List, ◌∷◌, ◌++◌, refl, Bool-cases, inl, inr, arith,
  is_set, if◌then◌else◌, ◌==◌,
}
use kafka_operator.Prelude.Dict.{Dict, set, copy, NodupKeys, set-NodupKeys, copy-NodupKeys}
use kafka_operator.Prelude.Lists.{All, contains}
use kafka_operator.Security.{
  KafkaSecurity, is_kerberos_enabled, tls_client_authentication_class, tls_server_secret_class,
  tls_internal_secret_class,
}
use kafka_operator.Security.Settings.{
  client_settings, bootstrap_settings, kerberos_settings, internal_settings, config_settings,
  client_assignments, client_auth_assignments, bootstrap_assignments, internal_assignments,
}

-- the names of a listener's settings
abbrev pub store_names : String → List String
store_names listener =
    ("listener.name." <> listener <> ".ssl.keystore.location")
    ∷ ("listener.name." <> listener <> ".ssl.keystore.password")
    ∷ ("listener.name." <> listener <> ".ssl.keystore.type")
    ∷ ("listener.name." <> listener <> ".ssl.truststore.location")
    ∷ ("listener.name." <> listener <> ".ssl.truststore.password")
    ∷ ("listener.name." <> listener <> ".ssl.truststore.type")
    ∷ []

-- the names of all settings
abbrev pub setting_names : List String
setting_names =
    store_names "client"
    ++ store_names "client_auth"
    ++ store_names "bootstrap"
    ++ store_names "internal"
    ++ "listener.name.client_auth.ssl.client.auth" ∷ "listener.name.internal.ssl.client.auth"
      ∷ "sasl.enabled.mechanisms" ∷ "sasl.kerberos.service.name"
      ∷ "sasl.mechanism.inter.broker.protocol" ∷ "inter.broker.listener.name" ∷ []

-- The entry is one of these settings.
abbrev pub IsSetting : String × String → Type 0
IsSetting e = contains setting_names e.0 ≡ true

-- A set entry has the property of the new and the old ones.
set-All :
    (key value : String) (m : Dict String)
    → IsSetting (key, value)
    → All IsSetting m
    → All IsSetting (set key value m)
unfolding set
set-All key value [] new _ = (new, tt)
set-All key value ((name, own) ∷ m) new (first, all) = elim (Bool-cases (name == key)) [
  | inl same ↦ rw same (new, all)
  | inr other ↦ rw other (first, set-All key value m new all)
]

copy-All : (m es : Dict String) → All IsSetting es → All IsSetting m → All IsSetting (copy m es)
unfolding copy
copy-All m [] _ all = all
copy-All m ((key, value) ∷ es) (one, rest) all =
    copy-All (set key value m) es rest (set-All key value m one all)

assignments-IsSetting :
    (password : String)
    → All IsSetting (client_auth_assignments password)
      × All IsSetting (client_assignments password)
      × All IsSetting (bootstrap_assignments password)
      × All IsSetting (internal_assignments password)
unfolding contains ◌==◌
assignments-IsSetting password = ground arith

literals-IsSetting :
    IsSetting ("sasl.mechanism.inter.broker.protocol", "GSSAPI")
    × IsSetting ("sasl.kerberos.service.name", "kafka")
    × IsSetting ("sasl.enabled.mechanisms", "GSSAPI")
    × IsSetting ("inter.broker.listener.name", "INTERNAL")
unfolding contains ◌==◌
literals-IsSetting = (refl, refl, refl, refl)

-- The property holds of either of two maps that it holds of.
either-All :
    (b : Bool) (m m' : Dict String)
    → All IsSetting m
    → All IsSetting m'
    → All IsSetting (if b then m else m')
either-All true m m' all _ = all
either-All false m m' _ all = all

module _ (k : KafkaSecurity) (m : Dict String) (all : All IsSetting m) where
  client_settings-All : All IsSetting (client_settings k m)
  unfolding client_settings
  client_settings-All =
      let (auth, client, _, _) = assignments-IsSetting k.ssl_store_password in
      either-All (is_set (tls_client_authentication_class k)) _ _
        (copy-All m (client_auth_assignments k.ssl_store_password) auth all)
        (either-All (is_set (tls_server_secret_class k)) _ m
          (copy-All m (client_assignments k.ssl_store_password) client all) all)

  bootstrap_settings-All : All IsSetting (bootstrap_settings k m)
  unfolding bootstrap_settings
  bootstrap_settings-All =
      let (_, _, bootstrap, _) = assignments-IsSetting k.ssl_store_password in
      either-All (is_kerberos_enabled k) _ m
        (copy-All m (bootstrap_assignments k.ssl_store_password) bootstrap all) all

  kerberos_settings-All : All IsSetting (kerberos_settings k m)
  unfolding kerberos_settings
  kerberos_settings-All =
      let (broker, service, mechanisms, _) = literals-IsSetting in
      either-All (is_kerberos_enabled k) _ m
        (set-All "sasl.mechanism.inter.broker.protocol" "GSSAPI" _ broker (
          set-All "sasl.kerberos.service.name" "kafka" _ service
            (set-All "sasl.enabled.mechanisms" "GSSAPI" m mechanisms all)))
        all

  internal_settings-All : All IsSetting (internal_settings k m)
  unfolding internal_settings
  internal_settings-All =
      let (_, _, _, internal) = assignments-IsSetting k.ssl_store_password in
      either-All (is_set (tls_internal_secret_class k)) _ m
        (copy-All m (internal_assignments k.ssl_store_password) internal all) all

-- There is no other setting.
pub config_settings-All : (k : KafkaSecurity) → All IsSetting (config_settings k)
unfolding config_settings
config_settings-All k =
    let (_, _, _, listener) = literals-IsSetting in
    set-All _ _ _ listener (
      internal_settings-All k _
        (kerberos_settings-All k _ (bootstrap_settings-All k _ (client_settings-All k [] tt))))

module _ (k : KafkaSecurity) (m : Dict String) (u : NodupKeys m) where
  client_settings-NodupKeys : NodupKeys (client_settings k m)
  unfolding client_settings
  client_settings-NodupKeys = ground (
    arith,
    copy-NodupKeys m (client_auth_assignments k.ssl_store_password) u,
    copy-NodupKeys m (client_assignments k.ssl_store_password) u,
  )

  bootstrap_settings-NodupKeys : NodupKeys (bootstrap_settings k m)
  unfolding bootstrap_settings
  bootstrap_settings-NodupKeys =
      ground (arith, copy-NodupKeys m (bootstrap_assignments k.ssl_store_password) u)

  kerberos_settings-NodupKeys : NodupKeys (kerberos_settings k m)
  unfolding kerberos_settings
  kerberos_settings-NodupKeys = ground (
    arith,
    set-NodupKeys "sasl.mechanism.inter.broker.protocol" "GSSAPI" _ (
        set-NodupKeys "sasl.kerberos.service.name" "kafka" _
          (set-NodupKeys "sasl.enabled.mechanisms" "GSSAPI" m u)),
  )

  internal_settings-NodupKeys : NodupKeys (internal_settings k m)
  unfolding internal_settings
  internal_settings-NodupKeys =
      ground (arith, copy-NodupKeys m (internal_assignments k.ssl_store_password) u)

-- No setting is assigned twice.
pub config_settings-NodupKeys : (k : KafkaSecurity) → NodupKeys (config_settings k)
unfolding config_settings
config_settings-NodupKeys k = set-NodupKeys "inter.broker.listener.name" "INTERNAL" _ (
    internal_settings-NodupKeys k _ (
      kerberos_settings-NodupKeys k _
        (bootstrap_settings-NodupKeys k _ (client_settings-NodupKeys k [] tt))))
