-- ===== src/StatefulSet/Mounts.antt =====
-- internal/controller/statefulset.go, `Build`: every mount of the built stateful set's containers has
-- a volume or a volume claim behind it.
use mathlib.Core.List.{map-append, append_assoc, append-nil}
use kafka_operator.Prelude.{
  String, Bool, true, false, Option, List, [], ◌∷◌, ◌++◌, ◌≡◌, sym, ap, subst, arith, ok, >>=-eq-ok,
  Result-ok_injective, if◌then◌else◌, deref,
}
use kafka_operator.Prelude.Lists.{All, All-map, contains, contains-append}
use kafka_operator.Api.Library.{
  Constants, Container, PersistentVolumeClaim, StatefulSet, Volume, VolumeMount,
}
use kafka_operator.Api.Names
use kafka_operator.Security.{KafkaSecurity}
use kafka_operator.Security.Volumes.Mounts.{
  IsBacked, MountsIn, add_volume_and_volume_mounts-IsBacked,
}
use kafka_operator.Ports.{RoleGroupInfo}
use kafka_operator.Prelude.Dict.{Dict}
use kafka_operator.Api.Types.{BrokersConfigSpec, ClusterConfigSpec}
use kafka_operator.ConfigMap.{is_vector_enable}
use kafka_operator.Container.{Toolkit, new_kafka_container, command_args}
use kafka_operator.StatefulSet.{
  PodBuilder, StatefulSetBuilder, add_container, add_volumes, add_volume_claim_templates,
  create_main_container, bootstrap_listener_pvc, data_pvc, volumes_of, add_vector, get_object,
  build, new_stateful_set_builder,
}
use kafka_operator.StatefulSet.PodNames.{
  names_of, claims_of, kerberos_names, pod_names, volume_mount-pod_names, volumes_of-names,
  bootstrap_listener_pvc-name, data_pvc-name,
}
use kafka_operator.Api.Library.{OverridesSpec}
use kafka_operator.StatefulSet.Template.{Keeps, add_vector-overrides, get_object-eq-built}

create_main_container-MountsIn :
    (t : Toolkit) (p : PodBuilder) (b : StatefulSetBuilder) (x : Container) (more : List String)
    {overrides : OverridesSpec}
    → Keeps p overrides
    → create_main_container t p b ≡ ok x
    → MountsIn (pod_names b.kafka_tls_security more) x
unfolding create_main_container new_kafka_container
create_main_container-MountsIn t p b x more keeps h =
    let (config, there, rest) = >>=-eq-ok (deref b.cluster_config) _ h in
    let (args, computed, rest2) =
      >>=-eq-ok
        (command_args t (
          new_kafka_container config.zookeeper_config_map_name b.kafka_tls_security b.namespace
            b.name))
        _ rest in
    let (spec, given, same) = >>=-eq-ok (deref b.broker_config.role_group_config) _ rest2 in
    subst (MountsIn (pod_names b.kafka_tls_security more)) (Result-ok_injective same) (
      subst
        (All (λ (m : VolumeMount). contains (pod_names b.kafka_tls_security more) m.name ≡ true))
        (sym (keeps.mounts _))
        (volume_mount-pod_names
          (new_kafka_container config.zookeeper_config_map_name b.kafka_tls_security b.namespace
            b.name)
          more))

vector_MountsIn :
    (k : KafkaSecurity) (p : PodBuilder) {overrides : OverridesSpec}
    → Keeps p overrides
    → MountsIn (pod_names k (names_of p.vector_volumes)) p.vector_container
unfolding contains
vector_MountsIn k p keeps =
    All-map
      (λ m found. ground (
        arith,
        found,
        contains-append (kerberos_names k)
            (names_of p.vector_volumes ++ (Names.listener_bootstrap ∷ Names.data_dir_name ∷ []))
            m.name,
        contains-append (names_of p.vector_volumes)
            (Names.listener_bootstrap ∷ Names.data_dir_name ∷ []) m.name,
      ))
      p.vector_container.volume_mounts keeps.vector

-- The names of a pod that has the operator's volumes, more volumes and the two claims.
names_there :
    (k : KafkaSecurity) (vs more : List Volume) (bootstrap claim : PersistentVolumeClaim)
    → names_of vs ≡ (
        Names.log_dir_name
        ∷ Names.log_config_dir_name
        ∷ Names.config_dir_name
        ∷ Names.listener_broker
        ∷ kerberos_names k)
    → bootstrap.name ≡ Names.listener_bootstrap
    → claim.name ≡ Names.data_dir_name
    → names_of (vs ++ more) ++ claims_of (bootstrap ∷ claim ∷ []) ≡ pod_names k (names_of more)
names_there k vs more bootstrap claim volumes first second =
    rw (map-append, volumes, first, second)
      (ap
        (λ names.
          Names.log_dir_name ∷ Names.log_config_dir_name ∷ Names.config_dir_name
          ∷ Names.listener_broker ∷ names)
        (append_assoc (kerberos_names k) (names_of more)
          (Names.listener_bootstrap ∷ Names.data_dir_name ∷ [])))

-- The same of a builder.
abbrev IsReady : StatefulSetBuilder → Type 0
IsReady b = All (MountsIn (names_of b.volumes ++ claims_of b.volume_claim_templates)) b.containers

get_object-IsBacked :
    (p : PodBuilder) (b : StatefulSetBuilder) (sts : StatefulSet)
    → Keeps p b.overrides
    → get_object p b ≡ ok sts
    → IsReady b
    → IsBacked sts
get_object-IsBacked p b sts keeps h ready =
    subst IsBacked (sym (get_object-eq-built p b sts keeps h)) ready

module _ (c : Constants) (t : Toolkit) (p : PodBuilder) (b : StatefulSetBuilder)
    (keeps : Keeps p b.overrides) (main : Container) (made : create_main_container t p b ≡ ok main)
    (vs : List Volume) (bootstrap claim : PersistentVolumeClaim)
    (names : names_of vs ≡ (
      Names.log_dir_name
      ∷ Names.log_config_dir_name
      ∷ Names.config_dir_name
      ∷ Names.listener_broker
      ∷ kerberos_names b.kafka_tls_security))
    (first : bootstrap.name ≡ Names.listener_bootstrap)
    (second : claim.name ≡ Names.data_dir_name) where
  filled : StatefulSetBuilder
  filled = record b {
    containers = main ∷ [];
    volumes = vs;
    volume_claim_templates = bootstrap ∷ claim ∷ [];
  }

  without_vector : IsReady filled
  unfolding filled
  without_vector = (
    subst (λ vs. MountsIn (names_of vs ++ claims_of (bootstrap ∷ claim ∷ [])) main) (append-nil vs)
        (subst (λ ns. MountsIn ns main)
          (sym (names_there b.kafka_tls_security vs [] bootstrap claim names first second))
          (create_main_container-MountsIn t p b main [] keeps made)),
    tt,
  )

  with_vector : IsReady (add_volumes p.vector_volumes (add_container p.vector_container filled))
  unfolding filled add_volumes add_container
  with_vector =
      subst (λ ns. All (MountsIn ns) (main ∷ p.vector_container ∷ []))
        (sym
          (names_there b.kafka_tls_security vs p.vector_volumes bootstrap claim names first second))
        (
          create_main_container-MountsIn t p b main (names_of p.vector_volumes) keeps made,
          (vector_MountsIn b.kafka_tls_security p keeps, tt),
        )

  add_vector-IsReady :
      (complete : StatefulSetBuilder) → add_vector p filled ≡ ok complete → IsReady complete
  unfolding add_vector
  add_vector-IsReady complete h =
      let (spec, there, rest) = >>=-eq-ok (deref filled.broker_config.role_group_config) _ h in
      let (enabled, read, same) = >>=-eq-ok (is_vector_enable spec.logging) _ rest in
      subst IsReady (Result-ok_injective same) (either enabled)
    where
      either :
          (enabled : Bool)
          → IsReady (
              if enabled
              then add_volumes p.vector_volumes (add_container p.vector_container filled)
              else filled)
      either true = with_vector
      either false = without_vector

-- If operator-go builds the pod of its parts as it documents for the overrides, then every mount of every container of
-- the stateful set that `Build` returns for a new builder has a volume or a volume claim behind it:
-- with and without Kerberos, keystores and the vector container.
pub build-IsBacked :
    (c : Constants) (t : Toolkit) (p : PodBuilder) (namespace : String)
    (labels : Option (Dict String)) (info : RoleGroupInfo) (config : Option ClusterConfigSpec)
    (broker_config : BrokersConfigSpec) (overrides : OverridesSpec) (k : KafkaSecurity)
    (sts : StatefulSet)
    → Keeps p overrides
    → build c t p (new_stateful_set_builder namespace labels info config broker_config overrides k)
      ≡ ok sts
    → IsBacked sts
unfolding build new_stateful_set_builder add_container add_volumes add_volume_claim_templates filled
build-IsBacked c t p namespace labels info config broker_config overrides k sts keeps h =
    let b = new_stateful_set_builder namespace labels info config broker_config overrides k in
    let (main, made, rest) = >>=-eq-ok (create_main_container t p b) _ h in
    let (bootstrap, claimed, rest1) = >>=-eq-ok (bootstrap_listener_pvc c b) _ rest in
    let (claim, held, rest2) = >>=-eq-ok (data_pvc b) _ rest1 in
    let with_claims = add_volume_claim_templates (bootstrap ∷ claim ∷ []) (add_container main b) in
    let (vs, listed, rest3) = >>=-eq-ok (volumes_of c with_claims) _ rest2 in
    let (complete, vectored, rest4) =
      >>=-eq-ok (add_vector p (add_volumes vs with_claims)) _ rest3 in
    let (object, got, mounted) = >>=-eq-ok (get_object p complete) _ rest4 in
    add_volume_and_volume_mounts-IsBacked c k broker_config.requested_secret_life_time _ sts mounted
      (get_object-IsBacked p complete object
        (subst (Keeps p) (sym (add_vector-overrides p _ complete vectored)) keeps) got
        (add_vector-IsReady c t p b keeps main made vs bootstrap claim
          (volumes_of-names c with_claims vs listed)
          (bootstrap_listener_pvc-name c b bootstrap claimed) (data_pvc-name b claim held) complete
          vectored))
