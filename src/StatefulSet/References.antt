-- ===== src/StatefulSet/References.antt =====
-- internal/controller/statefulset.go, `Build`: what the built stateful set refers to by name.
use kafka_operator.Prelude.{
  String, true, Option, [], ◌∷◌, ◌≡◌, ap, sym, ◌∙◌, subst, ok, >>=-eq-ok, is_set,
}
use kafka_operator.Prelude.Lists.{All}
use kafka_operator.Prelude.Dict.{Dict}
use kafka_operator.Api.Library.{OverridesSpec, Constants, PersistentVolumeClaim, StatefulSet}
use kafka_operator.Api.Types.{BrokersConfigSpec, ClusterConfigSpec}
use kafka_operator.Security.{KafkaSecurity}
use kafka_operator.Container.{Toolkit}
use kafka_operator.Ports.{RoleGroupInfo, bootstrap_listener_name, service_account_name}
use kafka_operator.StatefulSet.{
  PodBuilder, add_container, add_vector, add_volume_claim_templates, add_volumes,
  bootstrap_listener_pvc, build, create_main_container, data_pvc, get_object,
  new_stateful_set_builder, volumes_of,
}
use kafka_operator.StatefulSet.Template.{Keeps, add_vector-overrides, get_object-eq-built}
use kafka_operator.StatefulSet.Named.{
  RefersTo, RefersToListener, add_vector-RefersTo, bootstrap_listener_pvc-RefersToListener,
  mounted-Extends, volumes_of-RefersTo,
}

-- The names of a role group: its service, its config map, its service account, its bootstrap listener.
pub record HasReferences (c : Constants) (info : RoleGroupInfo) (sts : StatefulSet) : Type 0 where
  pub service : sts.service_name ≡ info.full_name
  pub account : sts.service_account_name ≡ service_account_name info.cluster_name
  pub config : All (RefersTo info.full_name) sts.volumes
  pub listener :
      (bootstrap : PersistentVolumeClaim) × (data' : PersistentVolumeClaim)
      × (sts.volume_claim_templates ≡ bootstrap ∷ data' ∷ [])
      × RefersToListener c (bootstrap_listener_name info) bootstrap

-- The stateful set that `Build` returns for a new builder names the role group's service and service
-- account, every config map among its volumes is the role group's, and its first claim is annotated
-- with the name of the role group's bootstrap listener. operator-go makes the pod of its parts for these
-- overrides, its
-- vector volumes are no other config map, and its annotation keys are not empty.
pub build-HasReferences :
    (c : Constants) (t : Toolkit) (p : PodBuilder) (namespace : String)
    (labels : Option (Dict String)) (info : RoleGroupInfo) (config : Option ClusterConfigSpec)
    (broker_config : BrokersConfigSpec) (overrides : OverridesSpec) (k : KafkaSecurity)
    (sts : StatefulSet)
    → is_set c.listeners_class ≡ true
    → is_set c.listener_name ≡ true
    → Keeps p overrides
    → All (RefersTo info.full_name) p.vector_volumes
    → build c t p (new_stateful_set_builder namespace labels info config broker_config overrides k)
      ≡ ok sts
    → HasReferences c info sts
unfolding build new_stateful_set_builder add_container add_volumes add_volume_claim_templates
build-HasReferences c t p namespace labels info config broker_config overrides k sts class_key
      name_key keeps own h =
    let b = new_stateful_set_builder namespace labels info config broker_config overrides k in
    let (main, made, rest) = >>=-eq-ok (create_main_container t p b) _ h in
    let (bootstrap, claimed, rest1) = >>=-eq-ok (bootstrap_listener_pvc c b) _ rest in
    let (claim, held, rest2) = >>=-eq-ok (data_pvc b) _ rest1 in
    let with_claims = add_volume_claim_templates (bootstrap ∷ claim ∷ []) (add_container main b) in
    let (vs, listed, rest3) = >>=-eq-ok (volumes_of c with_claims) _ rest2 in
    let (complete, vectored, rest4) =
      >>=-eq-ok (add_vector p (add_volumes vs with_claims)) _ rest3 in
    let (object, got, mounted) = >>=-eq-ok (get_object p complete) _ rest4 in
    let (volumes, claims, named) =
      add_vector-RefersTo p (add_volumes vs with_claims) complete info.full_name own
        (volumes_of-RefersTo c with_claims vs listed) vectored in
    let object_eq =
      get_object-eq-built p complete object
        (subst (Keeps p) (sym (add_vector-overrides p _ complete vectored)) keeps) got in
    let (service, account, kept, extended) = mounted-Extends c k _ sts _ mounted in
    record {
      service = service ∙ ap (λ (x : StatefulSet). x.service_name) object_eq ∙ named;
      account = account;
      config = extended info.full_name (
          subst (All (RefersTo info.full_name))
            (sym (ap (λ (x : StatefulSet). x.volumes) object_eq)) volumes);
      listener = (
        bootstrap,
        claim,
        kept ∙ ap (λ (x : StatefulSet). x.volume_claim_templates) object_eq ∙ claims,
        bootstrap_listener_pvc-RefersToListener c b bootstrap class_key name_key claimed,
      );
    }
