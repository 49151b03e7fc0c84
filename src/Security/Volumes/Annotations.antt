-- ===== src/Security/Volumes/Annotations.antt =====
-- internal/security/security.go, `CreateTlsKeystoreVolume`: the annotations of a keystore volume.
use kafka_operator.Prelude.{
  String, Option, none, some, ◌≡◌, ◌≢◌, arith, is_set, ==_iff, if◌then◌else◌,
}
use kafka_operator.Prelude.Dict.{Dict, lookup, lookup-set}
use kafka_operator.Prelude.Text.{join}
use kafka_operator.Api.Library.{Constants, Volume, ephemeral}
use kafka_operator.Security.Volumes.{create_tls_keystore_volume, secret_scopes}

-- The annotation keys that a keystore volume uses are different from one another.
pub record HasDistinctKeys (c : Constants) : Type 0 where
  pub class_scope : c.secrets_class ≢ c.secrets_scope
  pub class_format : c.secrets_class ≢ c.secrets_format
  pub class_password : c.secrets_class ≢ c.secrets_pkcs12_password
  pub scope_format : c.secrets_scope ≢ c.secrets_format
  pub scope_password : c.secrets_scope ≢ c.secrets_pkcs12_password
  pub format_password : c.secrets_format ≢ c.secrets_pkcs12_password
  pub class_life_time : c.secrets_class ≢ c.secret_cert_life_time
  pub scope_life_time : c.secrets_scope ≢ c.secret_cert_life_time
  pub format_life_time : c.secrets_format ≢ c.secret_cert_life_time
  pub password_life_time : c.secrets_pkcs12_password ≢ c.secret_cert_life_time

-- The annotations of an ephemeral volume's claim, none for other volumes.
abbrev annotations_of : Volume → Option (Dict String)
annotations_of v = elim v.source [ ephemeral t ↦ t.annotations | _ ↦ none ]

-- `annotation key v` is the value of the key among the volume's annotations.
pub annotation : String → Volume → Option String
annotation key v = elim (annotations_of v) [ none ↦ none | some m ↦ lookup key m ]

module _ (c : Constants) (d : HasDistinctKeys c) (name class password life : String) where
  -- A keystore volume has the secret class, the joined scopes and the format that it was made for,
  -- the store password exactly if one is set, and no certificate life time, whatever life time was
  -- requested.
  pub create_tls_keystore_volume_annotations :
      let v = create_tls_keystore_volume c name class password life in
      (annotation c.secrets_class v ≡ some class)
      × (annotation c.secrets_scope v ≡ some (join (secret_scopes c) c.common_delimiter))
      × (annotation c.secrets_format v ≡ some c.tls_p12)
      × (annotation c.secrets_pkcs12_password v ≡ (if is_set password then some password else none))
      × (annotation c.secret_cert_life_time v ≡ none)
  unfolding create_tls_keystore_volume annotation lookup
  create_tls_keystore_volume_annotations = grind (arith, lookup-set, ==_iff)
