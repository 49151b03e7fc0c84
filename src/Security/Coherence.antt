-- ===== src/Security/Coherence.antt =====
-- internal/security/security.go and internal/pkg/kafka_role.go agree on when Kerberos is in use, and
-- what `NewKafkaSecurity` returns is coherent.
use kafka_operator.Prelude.{
  String, true, false, none, some, List, [], ◌∷◌, ◌≡◌, ◌≢◌, refl, arith, ok, >>=-eq-ok, deref,
  deref-eq-ok, Result-ok_injective, subst, is_set, is_set_iff,
}
use kafka_operator.Api.Types.{KafkaCluster, ClusterConfigSpec, KafkaAuthenticationSpec}
use kafka_operator.Role.{first_kerberos_class, get_kerberos_secret_class}
use kafka_operator.Kerberos.{KerberosAuthentication}
use kafka_operator.Security.{
  KafkaSecurity, any_kerberos, is_kerberos_enabled, new_kafka_security, initial_security,
  with_kerberos, get_kerberos_auth,
}

-- The two loops over the authentications find a Kerberos provider at the same time.
pub any_kerberos-first_kerberos_class :
    (auths : List KafkaAuthenticationSpec)
    → any_kerberos auths ≡ is_set (first_kerberos_class auths)
unfolding any_kerberos first_kerberos_class is_set
any_kerberos-first_kerberos_class [] = refl
any_kerberos-first_kerberos_class (auth ∷ auths) =
    ground (arith, any_kerberos-first_kerberos_class auths)

-- What the rest of the operator relies on in the settings of a cluster.
pub record IsCoherent (cluster : KafkaCluster) (k : KafkaSecurity) : Type 0 where
  pub kerberos :
      is_kerberos_enabled k ≡ true
      → (auth : KerberosAuthentication) × (k.kerberos_auth ≡ some auth)
        × (auth.role.cluster ≡ cluster)
        × (class : String) × (get_kerberos_secret_class auth.role ≡ ok class)
        × (class ≢ "")
  pub no_kerberos : is_kerberos_enabled k ≡ false → k.kerberos_auth ≡ none
  pub no_client_auth : k.resolved_anthentication_class ≡ ""
  pub auth_found : get_kerberos_auth k ≡ ok k.kerberos_auth

initial_security-no_auth :
    (config : ClusterConfigSpec) → (initial_security config).kerberos_auth ≡ none
initial_security-no_auth config = ground arith

initial_security-authentications :
    (config : ClusterConfigSpec)
    → (initial_security config).kafka_authentications ≡ config.authentication
initial_security-authentications config = ground arith

initial_security-no_client_auth :
    (config : ClusterConfigSpec) → (initial_security config).resolved_anthentication_class ≡ ""
initial_security-no_client_auth config = ground arith

-- A Kerberos class that is set is read through the role of the cluster.
abbrev ClassFound : KafkaCluster → Type 0
ClassFound cluster =
    (class : String) × (get_kerberos_secret_class (record { cluster = cluster }) ≡ ok class)
    × (class ≢ "")

class_found :
    (cluster : KafkaCluster) (config : ClusterConfigSpec)
    → cluster.spec.cluster_config ≡ some config
    → is_kerberos_enabled (initial_security config) ≡ true
    → ClassFound cluster
unfolding get_kerberos_secret_class is_kerberos_enabled
class_found cluster config e h = (
  first_kerberos_class config.authentication,
  rw e,
  (is_set_iff _).0 (
      cc (
        any_kerberos-first_kerberos_class config.authentication,
        initial_security-authentications config,
      )),
)

module _ (cluster : KafkaCluster) (k : KafkaSecurity) where
  is_kerberos_enabled-with_kerberos :
      is_kerberos_enabled (with_kerberos cluster k) ≡ is_kerberos_enabled k
  unfolding with_kerberos is_kerberos_enabled
  is_kerberos_enabled-with_kerberos = ground arith

  with_kerberos-IsCoherent :
      k.kerberos_auth ≡ none
      → k.resolved_anthentication_class ≡ ""
      → (is_kerberos_enabled k ≡ true → ClassFound cluster)
      → IsCoherent cluster (with_kerberos cluster k)
  unfolding with_kerberos get_kerberos_auth
  with_kerberos-IsCoherent e c found = record {
    kerberos = λ on.
        let (class, read, set) = found (cc is_kerberos_enabled-with_kerberos) in
        (
          record { role = record { cluster = cluster } },
          ground (arith, is_kerberos_enabled-with_kerberos),
          refl,
          class,
          read,
          set,
        );
    no_kerberos = λ off. ground (arith, is_kerberos_enabled-with_kerberos);
    no_client_auth = ground arith;
    auth_found = ground (arith, is_kerberos_enabled-with_kerberos);
  }

-- Whenever `NewKafkaSecurity` returns, its settings are coherent: with Kerberos enabled they hold
-- the authentication for that cluster, whose secret class is found and not empty, without it they
-- hold none, no client authentication class is resolved, and `GetKerberosAuth` returns the
-- authentication without an error.
pub new_kafka_security-IsCoherent :
    (cluster : KafkaCluster) (k : KafkaSecurity)
    → new_kafka_security cluster ≡ ok k
    → IsCoherent cluster k
unfolding new_kafka_security
new_kafka_security-IsCoherent cluster k h =
    let (config, found, same) = >>=-eq-ok (deref cluster.spec.cluster_config) _ h in
    let present : cluster.spec.cluster_config ≡ some config = deref-eq-ok _ found in
    subst (IsCoherent cluster) (Result-ok_injective same) (
      with_kerberos-IsCoherent cluster (initial_security config) (initial_security-no_auth config)
        (initial_security-no_client_auth config) (class_found cluster config present))
