-- ===== src/Role.antt =====
-- internal/pkg/kafka_role.go: the role of a cluster, through which its Kerberos settings are read.
use kafka_operator.Prelude.{String, Bool, false, none, some, List, [], ◌∷◌}
use kafka_operator.Prelude.{Result, ok, deref, ◌>>=◌, is_set, if◌then◌else◌}
use kafka_operator.Api.Types.{KafkaCluster, KafkaAuthenticationSpec}

pub record KafkaRole : Type 0 where
  pub cluster : KafkaCluster

unfoldable pub new_cluster_role : KafkaCluster → KafkaRole
new_cluster_role cluster = record { cluster = cluster }

abbrev pub kerberos_service_name : KafkaRole → String
kerberos_service_name k = "kafka"

-- `auth.Kerberos.KerberosSecretClass`, and "" without a Kerberos provider
abbrev pub kerberos_class : KafkaAuthenticationSpec → String
kerberos_class auth = elim auth.kerberos [
  | none ↦ ""
  | some provider ↦ provider.kerberos_secret_class
]

-- `auth.Kerberos != nil && auth.Kerberos.KerberosSecretClass != ""`
unfoldable pub uses_kerberos : KafkaAuthenticationSpec → Bool
uses_kerberos auth = elim auth.kerberos [
  | none ↦ false
  | some provider ↦ is_set provider.kerberos_secret_class
]

-- the loop of `GetKerberosSecretClass`
unfoldable pub first_kerberos_class : List KafkaAuthenticationSpec → String
unfolding uses_kerberos
first_kerberos_class [] = ""
first_kerberos_class (auth ∷ auths) =
    if uses_kerberos auth then kerberos_class auth else first_kerberos_class auths

unfoldable pub get_kerberos_secret_class : KafkaRole → Result String
unfolding first_kerberos_class
get_kerberos_secret_class k = do
  config ← deref k.cluster.spec.cluster_config
  ok (first_kerberos_class config.authentication)
