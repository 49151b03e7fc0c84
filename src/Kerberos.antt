-- ===== src/Kerberos.antt =====
-- internal/security/kerberos.go: what Kerberos adds to the broker's pod.
use kafka_operator.Prelude.{String, ◌<>◌, List, [], ◌∷◌, Option, none, some, Result, ok, ◌>>=◌}
use kafka_operator.Prelude.Dict.{set}
use kafka_operator.Api.Library.{Constants, VolumeMount, EnvVar, value, Volume, ephemeral, ClaimSpec}
use kafka_operator.Api.Names
use kafka_operator.Role.{KafkaRole, get_kerberos_secret_class, kerberos_service_name}

pub record KerberosAuthentication : Type 0 where
  pub role : KafkaRole

unfoldable pub new_kerberos_authentication : KafkaRole → KerberosAuthentication
new_kerberos_authentication role = record { role = role }

-- These two methods do not read their receiver, so a nil pointer serves.
unfoldable pub get_volume_mount : Option KerberosAuthentication → List VolumeMount
get_volume_mount k = record { name = Names.kerberos_name; mount_path = Names.kerberos_dir } ∷ []

unfoldable pub get_envs : Option KerberosAuthentication → List EnvVar
get_envs k =
    record { name = "KRB5_CONFIG"; val = value Names.kerberos_krb5_path }
    ∷ record {
      name = "KAFKA_OPTS";
      val = value ("-Djava.security.krb5.conf=" <> Names.kerberos_krb5_path);
    }
    ∷ []

-- the loop over the listener scopes
scope_str : String → List String → String
scope_str out [] = out
scope_str out (s ∷ scopes) = scope_str (out <> "," <> "listener-volume=" <> s) scopes

-- `scopeStr[1:]`; a slice of the empty text panics
abbrev drop_first : String → Result String
drop_first String.[] = Result.panic
drop_first (String.◌∷◌ c s) = ok s

-- a claim of 10Mi on the secret operator's storage class
abbrev pub secret_claim : ClaimSpec
secret_claim = record {
  access_mode = "ReadWriteOnce";
  storage_class_name = some "secrets.kubedoop.dev";
  volume_mode = "Filesystem";
  storage = "10Mi";
}

unfoldable pub get_volumes : Constants → KerberosAuthentication → Result (List Volume)
unfolding scope_str
get_volumes c k = do
  class ← get_kerberos_secret_class k.role
  scope ← drop_first (scope_str "" (Names.listener_broker ∷ Names.listener_bootstrap ∷ []))
  let names = kerberos_service_name k.role
  ok (
      record {
        name = Names.kerberos_name;
        source = ephemeral (record {
          annotations = some (
              set c.secrets_kerberos_service_names names
                (set c.secrets_scope scope (set c.secrets_class class [])));
          labels = none;
          spec = secret_claim;
        });
      }
      ∷ [])
