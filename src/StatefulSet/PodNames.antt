-- ===== src/StatefulSet/PodNames.antt =====
-- internal/controller/statefulset.go: the names of the volumes and claims that `Build` gives the pod,
-- and those that the main container mounts.

use kafka_operator.Prelude.{
  String, true, none, List, [], ◌∷◌, ◌++◌, map, ◌≡◌, refl, sym, ap, ◌∙◌, arith, inl, inr, Result,
  ok, ◌>>=◌, >>=-eq-ok, Bool-cases, Result-cases, Result-ok_injective, ◌==◌, if◌then◌else◌, deref,
  wrap,
}
use kafka_operator.Prelude.Lists.{All, contains, contains-append}
use kafka_operator.Api.Library.{Constants, PersistentVolumeClaim, Volume, VolumeMount}
use kafka_operator.Api.Names
use kafka_operator.Role.{get_kerberos_secret_class}
use kafka_operator.Kerberos.{KerberosAuthentication, get_volumes, get_volume_mount}
use kafka_operator.Security.{KafkaSecurity, is_kerberos_enabled}
use kafka_operator.ListenerVolume.{
  ListenerOperatorVolumeSourceBuilder, build_pvc, build_ephemeral, to_annotation,
}
use kafka_operator.Ports.{bootstrap_listener_name}
use kafka_operator.Container.{KafkaContainerBuilder, volume_mount}
use kafka_operator.StatefulSet.{StatefulSetBuilder, bootstrap_listener_pvc, data_pvc, volumes_of}

abbrev pub names_of : List Volume → List String
names_of vs = map (λ (v : Volume). v.name) vs

abbrev pub claims_of : List PersistentVolumeClaim → List String
claims_of ps = map (λ p. p.name) ps

-- the names that the main container mounts
abbrev pub kerberos_names : KafkaSecurity → List String
kerberos_names k = if is_kerberos_enabled k then Names.kerberos_name ∷ [] else []

get_volumes-name :
    (c : Constants) (auth : KerberosAuthentication) (vs : List Volume)
    → get_volumes c auth ≡ ok vs
    → names_of vs ≡ Names.kerberos_name ∷ []
unfolding get_volumes
get_volumes-name c auth vs h = elim (Result-cases (get_kerberos_secret_class auth.role)) [
  | inl fails ↦ ground arith
  | inr (inl (e, fails)) ↦ ground arith
  | inr (inr (class, found)) ↦ ground arith
]

abbrev pub kerberos_volumes : Constants → KafkaSecurity → Result (List Volume)
kerberos_volumes c k =
    if is_kerberos_enabled k then (deref k.kerberos_auth >>= λ auth. get_volumes c auth) else ok []

abbrev pub listener_source : StatefulSetBuilder → ListenerOperatorVolumeSourceBuilder
listener_source b = record {
  reference = record { listener_class = b.broker_config.broker_listener_class; listener_name = "" };
  labels = none;
}

kerberos_volumes-names :
    (c : Constants) (k : KafkaSecurity) (vs : List Volume)
    → kerberos_volumes c k ≡ ok vs
    → names_of vs ≡ kerberos_names k
kerberos_volumes-names c k vs h = elim (Bool-cases (is_kerberos_enabled k)) [
  | inl on ↦
      let (auth, there, made) = >>=-eq-ok (deref k.kerberos_auth) _ (rw on at h) in
      rw on (get_volumes-name c auth vs made)
  | inr off ↦ rw off (sym (ap names_of (Result-ok_injective (rw off at h))))
]

pub volumes_of-names :
    (c : Constants) (b : StatefulSetBuilder) (vs : List Volume)
    → volumes_of c b ≡ ok vs
    → names_of vs ≡ (
        Names.log_dir_name
        ∷ Names.log_config_dir_name
        ∷ Names.config_dir_name
        ∷ Names.listener_broker
        ∷ kerberos_names b.kafka_tls_security)
unfolding volumes_of
volumes_of-names c b vs h =
    let (listener, built, rest) = >>=-eq-ok (build_ephemeral c (listener_source b)) _ h in
    let (kerberos, made, same) = >>=-eq-ok (kerberos_volumes c b.kafka_tls_security) _ rest in
    sym (ap names_of (Result-ok_injective same))
    ∙ ap
        (λ names.
          Names.log_dir_name ∷ Names.log_config_dir_name ∷ Names.config_dir_name
          ∷ Names.listener_broker ∷ names)
        (kerberos_volumes-names c b.kafka_tls_security kerberos made)

pub bootstrap_listener_pvc-name :
    (c : Constants) (b : StatefulSetBuilder) (p : PersistentVolumeClaim)
    → bootstrap_listener_pvc c b ≡ ok p
    → p.name ≡ Names.listener_bootstrap
unfolding bootstrap_listener_pvc build_pvc
bootstrap_listener_pvc-name c b p h =
    elim (Result-cases (
      wrap "failed to get listener reference annotation" (
        to_annotation c (record {
          listener_class = "";
          listener_name = bootstrap_listener_name b.role_group_info;
        })))) [
          | inl fails ↦ ground arith
          | inr (inl (e, fails)) ↦ ground arith
          | inr (inr (a, annotated)) ↦ ground arith
        ]

pub data_pvc-name :
    (b : StatefulSetBuilder) (p : PersistentVolumeClaim)
    → data_pvc b ≡ ok p
    → p.name ≡ Names.data_dir_name
unfolding data_pvc
data_pvc-name b p h =
    let (spec, there, rest) = >>=-eq-ok (deref b.broker_config.role_group_config) _ h in
    let (resources, given, same) = >>=-eq-ok (deref spec.resources) _ rest in
    sym (ap (λ p. p.name) (Result-ok_injective same))

-- the names of the built pod, with those of more volumes among them
abbrev pub pod_names : KafkaSecurity → List String → List String
pod_names k more =
    Names.log_dir_name
    ∷ Names.log_config_dir_name
    ∷ Names.config_dir_name
    ∷ Names.listener_broker
    ∷ (kerberos_names k ++ (more ++ (Names.listener_bootstrap ∷ Names.data_dir_name ∷ [])))

claims_there :
    (more : List String)
    → (contains
          (more ++ (Names.listener_bootstrap ∷ Names.data_dir_name ∷ []))
          Names.listener_bootstrap
        ≡ true)
      × (contains
            (more ++ (Names.listener_bootstrap ∷ Names.data_dir_name ∷ []))
            Names.data_dir_name
          ≡ true)
unfolding contains ◌==◌
claims_there more = (
  ground (
    arith,
    contains-append more (Names.listener_bootstrap ∷ Names.data_dir_name ∷ [])
        Names.listener_bootstrap,
  ),
  ground (
    arith,
    contains-append more (Names.listener_bootstrap ∷ Names.data_dir_name ∷ []) Names.data_dir_name,
  ),
)

-- Every mount of the main container is among them.
pub volume_mount-pod_names :
    (d : KafkaContainerBuilder) (more : List String)
    → All
        (λ (m : VolumeMount). contains (pod_names d.kafka_security more) m.name ≡ true)
        (volume_mount d)
unfolding volume_mount get_volume_mount contains ◌==◌
volume_mount-pod_names d more =
    let (bootstrap, data') = claims_there more in
    elim (Bool-cases (is_kerberos_enabled d.kafka_security)) [
      | inl on ↦ rw on (data', (refl, (refl, (refl, (refl, (bootstrap, (refl, tt)))))))
      | inr off ↦ rw off (data', (refl, (refl, (refl, (refl, (bootstrap, tt))))))
    ]
