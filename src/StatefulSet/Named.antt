-- ===== src/StatefulSet/Named.antt =====
-- internal/controller/statefulset.go, `Build`: the names that each step of it leaves in the set.
use kafka_operator.Prelude.{
  ℕ, String, true, Option, some, List, [], ◌∷◌, ◌≡◌, refl, ◌∙◌, subst, arith, ok, >>=-eq-ok,
  Bool-cases, Option-cases, inl, inr, Result-ok_injective, is_set, deref,
}
use kafka_operator.Prelude.Lists.{All, All-append}
use kafka_operator.Api.Library.{
  Constants, PersistentVolumeClaim, StatefulSet, Volume, VolumeSource, config_map,
}
use kafka_operator.Kerberos.{KerberosAuthentication, get_volumes}
use kafka_operator.Security.{KafkaSecurity, is_kerberos_enabled}
use kafka_operator.Security.Volumes.{
  add_keystore, add_volume, add_volume_and_volume_mounts, create_tls_keystore_volume,
}
use kafka_operator.ConfigMap.{is_vector_enable}
use kafka_operator.Ports.{bootstrap_listener_name}
use kafka_operator.StatefulSet.{
  PodBuilder, StatefulSetBuilder, add_container, add_vector, add_volumes, bootstrap_listener_pvc,
  volumes_of,
}
use kafka_operator.Api.Names
use kafka_operator.Role.{get_kerberos_secret_class}
use kafka_operator.ListenerVolume.{build_ephemeral}
use kafka_operator.StatefulSet.PodNames.{kerberos_volumes, listener_source}
use kafka_operator.ListenerVolume.Reference.{build_of_reference}
use kafka_operator.StatefulSet.Steps.{bootstrap_listener_name-set, unset}

abbrev IsNamed : String → VolumeSource → Type 0
IsNamed name (config_map n) = n ≡ name
IsNamed name _ = Unit

-- A volume that is a config map is the one of that name.
abbrev pub RefersTo : String → Volume → Type 0
RefersTo name v = IsNamed name v.source

-- The keystores add volumes of their own, and keep the names.
abbrev pub Extends : StatefulSet → StatefulSet → Type 0
Extends sts sts' =
    (sts'.service_name ≡ sts.service_name)
    × (sts'.service_account_name ≡ sts.service_account_name)
    × (sts'.volume_claim_templates ≡ sts.volume_claim_templates)
    × ((name : String) → All (RefersTo name) sts.volumes → All (RefersTo name) sts'.volumes)

add_keystore-Extends :
    (c : Constants) (k : KafkaSecurity) (at : Option ℕ) (class name dir life : String)
    (sts sts' : StatefulSet)
    → add_keystore c k at class name dir life sts ≡ ok sts'
    → Extends sts sts'
unfolding add_keystore add_volume create_tls_keystore_volume
add_keystore-Extends c k at class name dir life sts sts' h = elim (Bool-cases (is_set class)) [
  | inl on ↦ elim (Option-cases at) [
    | inl missing ↦ absurd (ground arith)
    | inr (i, found) ↦
        subst (Extends sts) (Result-ok_injective (rw (on, found) at h))
          (refl, refl, refl, λ owner all. All-append (RefersTo owner) sts.volumes _ all (tt, tt))
  ]
  | inr off ↦
      subst (Extends sts) (Result-ok_injective (rw off at h)) (refl, refl, refl, λ owner all. all)
]

get_volumes-RefersTo :
    (c : Constants) (auth : KerberosAuthentication) (name : String) (vs : List Volume)
    → get_volumes c auth ≡ ok vs
    → All (RefersTo name) vs
unfolding get_volumes
get_volumes-RefersTo c auth name vs h =
    let (class, found, rest) = >>=-eq-ok (get_kerberos_secret_class auth.role) _ h in
    subst (All (RefersTo name)) (Result-ok_injective rest) (tt, tt)

kerberos_volumes-RefersTo :
    (c : Constants) (k : KafkaSecurity) (name : String) (vs : List Volume)
    → kerberos_volumes c k ≡ ok vs
    → All (RefersTo name) vs
kerberos_volumes-RefersTo c k name vs h = elim (Bool-cases (is_kerberos_enabled k)) [
  | inl on ↦
      let (auth, there, made) = >>=-eq-ok (deref k.kerberos_auth) _ (rw on at h) in
      get_volumes-RefersTo c auth name vs made
  | inr off ↦ subst (All (RefersTo name)) (Result-ok_injective (rw off at h)) tt
]

pub volumes_of-RefersTo :
    (c : Constants) (b : StatefulSetBuilder) (vs : List Volume)
    → volumes_of c b ≡ ok vs
    → All (RefersTo b.role_group_info.full_name) vs
unfolding volumes_of
volumes_of-RefersTo c b vs h =
    let (listener, built, rest) = >>=-eq-ok (build_ephemeral c (listener_source b)) _ h in
    let (kerberos, made, same) = >>=-eq-ok (kerberos_volumes c b.kafka_tls_security) _ rest in
    subst (All (RefersTo b.role_group_info.full_name)) (Result-ok_injective same) (
      tt,
      (
        refl,
        (
          refl,
          (
            tt,
            kerberos_volumes-RefersTo c b.kafka_tls_security b.role_group_info.full_name kerberos
                made,
          ),
        ),
      ),
    )

-- The claim that a bootstrap listener's name is annotated to.
abbrev pub RefersToListener : Constants → String → PersistentVolumeClaim → Type 0
RefersToListener c name claim = claim.template.annotations ≡ some ((c.listener_name, name) ∷ [])

pub bootstrap_listener_pvc-RefersToListener :
    (c : Constants) (b : StatefulSetBuilder) (claim : PersistentVolumeClaim)
    → is_set c.listeners_class ≡ true
    → is_set c.listener_name ≡ true
    → bootstrap_listener_pvc c b ≡ ok claim
    → RefersToListener c (bootstrap_listener_name b.role_group_info) claim
unfolding bootstrap_listener_pvc
bootstrap_listener_pvc-RefersToListener c b claim class_key name_key h =
    let (_, built) =
      build_of_reference c class_key name_key
        (record {
          reference = record {
            listener_class = "";
            listener_name = bootstrap_listener_name b.role_group_info;
          };
          labels = b.labels;
        })
        Names.listener_bootstrap in
    ground (arith, built, unset, bootstrap_listener_name-set b.role_group_info)

pub add_vector-RefersTo :
    (p : PodBuilder) (b x : StatefulSetBuilder) (name : String)
    → All (RefersTo name) p.vector_volumes
    → All (RefersTo name) b.volumes
    → add_vector p b ≡ ok x
    → All (RefersTo name) x.volumes
      × (x.volume_claim_templates ≡ b.volume_claim_templates)
      × (x.name ≡ b.name)
unfolding add_vector add_volumes add_container
add_vector-RefersTo p b x name own before h =
    let (spec, there, rest) = >>=-eq-ok (deref b.broker_config.role_group_config) _ h in
    let (enabled, read, same) = >>=-eq-ok (is_vector_enable spec.logging) _ rest in
    elim (Bool-cases enabled) [
      | inl on ↦
          subst
            (λ (x : StatefulSetBuilder).
              All (RefersTo name) x.volumes
              × (x.volume_claim_templates ≡ b.volume_claim_templates)
              × (x.name ≡ b.name))
            (Result-ok_injective (rw on at same))
            (All-append (RefersTo name) b.volumes p.vector_volumes before own, refl, refl)
      | inr off ↦
          subst
            (λ (x : StatefulSetBuilder).
              All (RefersTo name) x.volumes
              × (x.volume_claim_templates ≡ b.volume_claim_templates)
              × (x.name ≡ b.name))
            (Result-ok_injective (rw off at same)) (before, refl, refl)
    ]

Extends-trans : (a b d : StatefulSet) → Extends a b → Extends b d → Extends a d
Extends-trans a b d (service, account, claims, volumes) (service', account', claims', volumes') = (
  service' ∙ service,
  account' ∙ account,
  claims' ∙ claims,
  λ name all. volumes' name (volumes name all),
)

pub mounted-Extends :
    (c : Constants) (k : KafkaSecurity) (sts sts' : StatefulSet) (life : String)
    → add_volume_and_volume_mounts c k sts life ≡ ok sts'
    → Extends sts sts'
unfolding add_volume_and_volume_mounts
mounted-Extends c k sts sts' life h =
    let (served, first, second) = >>=-eq-ok _ _ h in
    Extends-trans sts served sts' (add_keystore-Extends c k _ _ _ _ life sts served first)
      (add_keystore-Extends c k _ _ _ _ life served sts' second)
