-- ===== src/StatefulSet/Steps.antt =====
-- internal/controller/statefulset.go, `Build`: the steps that succeed on a configuration without gaps.
use kafka_operator.Prelude.{
  String, true, false, some, List, ◌∷◌, ◌≡◌, refl, arith, Result, ok, ◌==◌, ==_refl, is_set,
  Bool-cases, inl, inr,
}
use kafka_operator.Prelude.Text.{is_set-append}
use kafka_operator.Api.Library.{Constants, Container, OverridesSpec, StatefulSet}
use kafka_operator.Api.Names
use kafka_operator.Api.Types.{ClusterConfigSpec, KafkaCluster}
use kafka_operator.Kerberos.{get_volumes}
use kafka_operator.Security.{KafkaSecurity, is_kerberos_enabled}
use kafka_operator.Security.{tls_server_secret_class, tls_internal_secret_class}
use kafka_operator.Security.Volumes.{add_volume_and_volume_mounts, add_keystore, get_container}
use kafka_operator.Security.Coherence.{IsCoherent}
use kafka_operator.Listener.{
  get_kafka_listener_config, listener_config, listeners_string, advertised_listeners_string,
  listener_security_protocol_map_string,
}
use kafka_operator.ListenerVolume.Reference.{build_of_reference}
use kafka_operator.Ports.{RoleGroupInfo, bootstrap_listener_name}
use kafka_operator.Config.Base.{HasDefaults}
use kafka_operator.Container.{
  KafkaContainerBuilder, Toolkit, command_args, get_kerberso_auth, launch_command,
  new_kafka_container,
}
use kafka_operator.StatefulSet.{
  PodBuilder, StatefulSetBuilder, create_main_container, bootstrap_listener_pvc, data_pvc,
  volumes_of,
}
use kafka_operator.StatefulSet.PodNames.{kerberos_volumes, listener_source}
use kafka_operator.StatefulSet.Template.{Keeps}

-- The call succeeds.
abbrev pub Succeeds {ℓ} : {A : Type ℓ} → Result A → Type ℓ
Succeeds {A = A} r = (a : A) × (r ≡ ok a)

-- the empty text
pub unset : is_set "" ≡ false
unfolding is_set ◌==◌
unset = refl

-- The name of a bootstrap listener has a suffix.
pub bootstrap_listener_name-set :
    (info : RoleGroupInfo) → is_set (bootstrap_listener_name info) ≡ true
unfolding bootstrap_listener_name
bootstrap_listener_name-set info =
    is_set-append info.full_name "-bootstrap" (unfold is_set ◌==◌ in refl)

module _ (cluster : KafkaCluster) (k : KafkaSecurity) (coherent : IsCoherent cluster k) where
  get_kerberso_auth-coherent :
      (d : KafkaContainerBuilder) → d.kafka_security ≡ k → get_kerberso_auth d ≡ k.kerberos_auth
  unfolding get_kerberso_auth
  get_kerberso_auth-coherent d same = ground (arith, coherent.auth_found)

  launch_command-Succeeds :
      (d : KafkaContainerBuilder) (listeners advertised protocol_map : String)
      → d.kafka_security ≡ k
      → Succeeds (launch_command d listeners advertised protocol_map)
  unfolding launch_command
  launch_command-Succeeds d listeners advertised protocol_map same =
      elim (Bool-cases (is_kerberos_enabled k)) [
        | inl on ↦
            let (auth, there, _, _, _, _) = coherent.kerberos on in
            rw (get_kerberso_auth-coherent d same, same, on, there) (_, refl)
        | inr off ↦ rw (same, off) (_, refl)
      ]

  command_args-Succeeds :
      (t : Toolkit) (d : KafkaContainerBuilder) → d.kafka_security ≡ k → Succeeds (command_args t d)
  unfolding command_args get_kafka_listener_config
  command_args-Succeeds t d same =
      let config = listener_config d.namespace d.kafka_security d.group_svc_name in
      let (launch, there) =
        launch_command-Succeeds d (listeners_string config) (advertised_listeners_string config)
          (listener_security_protocol_map_string config.listener_security_protocol_map) same in
      rw there (_, refl)

  -- The Kerberos volume is made of the class that was found.
  kerberos_volumes-Succeeds : (c : Constants) → Succeeds (kerberos_volumes c k)
  unfolding get_volumes
  kerberos_volumes-Succeeds c = elim (Bool-cases (is_kerberos_enabled k)) [
    | inl on ↦
        let (auth, there, _, class, found, _) = coherent.kerberos on in
        rw (on, there, found) (_, refl)
    | inr off ↦ rw off (_, refl)
  ]

module _ (c : Constants) (class_key : is_set c.listeners_class ≡ true)
    (name_key : is_set c.listener_name ≡ true) where
  pub bootstrap_listener_pvc-Succeeds :
      (b : StatefulSetBuilder) → Succeeds (bootstrap_listener_pvc c b)
  unfolding bootstrap_listener_pvc
  bootstrap_listener_pvc-Succeeds b =
      let (_, built) =
        build_of_reference c class_key name_key
          (record {
            reference = record {
              listener_class = "";
              listener_name = bootstrap_listener_name b.role_group_info;
            };
            labels = b.labels;
          })
          Names.listener_bootstrap in
      rw (built, unset, bootstrap_listener_name-set b.role_group_info) (_, refl)

  pub volumes_of-Succeeds :
      (cluster : KafkaCluster) (b : StatefulSetBuilder)
      → IsCoherent cluster b.kafka_tls_security
      → is_set b.broker_config.broker_listener_class ≡ true
      → Succeeds (volumes_of c b)
  unfolding volumes_of
  volumes_of-Succeeds cluster b coherent set =
      let (kerberos, there) = kerberos_volumes-Succeeds cluster b.kafka_tls_security coherent c in
      let (built, _) = build_of_reference c class_key name_key (listener_source b) "" in
      rw (built, set, there) (_, refl)

pub data_pvc-Succeeds :
    (b : StatefulSetBuilder) → HasDefaults b.broker_config → Succeeds (data_pvc b)
unfolding data_pvc
data_pvc-Succeeds b (spec, resources, there, given, _, _, _, _, _, _) = rw (there, given) (_, refl)

-- The keystores of a set whose first container is the broker's can be mounted.
pub add_volume_and_volume_mounts-Succeeds :
    (c : Constants) (k : KafkaSecurity) (sts : StatefulSet) (life_time : String) (main : Container)
    (others : List Container)
    → sts.containers ≡ main ∷ others
    → main.name ≡ "kafka"
    → Succeeds (add_volume_and_volume_mounts c k sts life_time)
unfolding add_volume_and_volume_mounts add_keystore get_container
add_volume_and_volume_mounts-Succeeds c k sts life_time main others first named =
    elim (Bool-cases (is_set (tls_server_secret_class k))) [
      | inl server ↦ elim (Bool-cases (is_set (tls_internal_secret_class k))) [
        | inl internal ↦ rw (first, named, ==_refl, server, internal) (_, refl)
        | inr no_internal ↦ rw (first, named, ==_refl, server, no_internal) (_, refl)
      ]
      | inr no_server ↦ elim (Bool-cases (is_set (tls_internal_secret_class k))) [
        | inl internal ↦ rw (first, named, ==_refl, no_server, internal) (_, refl)
        | inr no_internal ↦ rw (first, named, ==_refl, no_server, no_internal) (_, refl)
      ]
    ]

module _ (t : Toolkit) (p : PodBuilder) {overrides : OverridesSpec}
    (keeps : Keeps p overrides) where
  pub create_main_container-Succeeds :
      (cluster : KafkaCluster) (b : StatefulSetBuilder) (config : ClusterConfigSpec)
      → IsCoherent cluster b.kafka_tls_security
      → b.cluster_config ≡ some config
      → HasDefaults b.broker_config
      → (main : Container) × (create_main_container t p b ≡ ok main) × (main.name ≡ "kafka")
  unfolding create_main_container new_kafka_container
  create_main_container-Succeeds cluster b config coherent there
        (spec, resources, own, _, _, _, _, _, _, _) =
      let d =
        new_kafka_container config.zookeeper_config_map_name b.kafka_tls_security b.namespace
          b.name in
      let (args, computed) = command_args-Succeeds cluster b.kafka_tls_security coherent t d refl in
      rw (there, computed, own) (_, refl, keeps.name _)
