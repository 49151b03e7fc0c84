-- ===== src/StatefulSet/Template.antt =====
-- internal/controller/statefulset.go, `GetObject`: what operator-go makes of the pod's parts.
use kafka_operator.Prelude.{
  Option, List, ◌∷◌, ◌≡◌, sym, ap, ok, >>=-eq-ok, Result-ok_injective, deref,
}
use kafka_operator.Api.Library.{Container, StatefulSet, Volume}
use kafka_operator.Api.Names
use kafka_operator.Security.Volumes.Mounts.{MountsIn}
use kafka_operator.ConfigMap.{is_vector_enable}
use kafka_operator.StatefulSet.{
  ContainerParts, PodBuilder, StatefulSetBuilder, add_container, add_volumes, add_vector,
  get_object,
}
use kafka_operator.StatefulSet.PodNames.{names_of}
use kafka_operator.Prelude.{◌∙◌, Bool-cases, inl, inr}
use kafka_operator.Api.Library.{OverridesSpec, RoleGroupConfigSpec}

-- What operator-go documents of the parts it builds: a container has the name and the mounts it is
-- given, the vector container mounts the configuration, the logs and its own volumes, and a pod
-- template that is returned for these overrides has the builder's containers and volumes, as it does
-- without pod overrides. A template need not be returned.
pub record Keeps (p : PodBuilder) (overrides : OverridesSpec) : Type 0 where
  pub mounts :
      (parts : ContainerParts) → (p.build_container parts).volume_mounts ≡ parts.volume_mounts
  pub name : (parts : ContainerParts) → (p.build_container parts).name ≡ parts.name
  pub vector :
      MountsIn
        (Names.config_dir_name ∷ Names.log_dir_name ∷ names_of p.vector_volumes)
        p.vector_container
  pub template :
      (config : Option RoleGroupConfigSpec) (containers : List Container) (volumes : List Volume)
      (parts : List Container × List Volume)
      → p.get_pod_template overrides config containers volumes ≡ ok parts
      → parts ≡ (containers, volumes)

-- The set that is made of a builder's pod.
abbrev built : StatefulSetBuilder → StatefulSet
built b = record {
  containers = b.containers;
  volumes = b.volumes;
  volume_claim_templates = b.volume_claim_templates;
  service_name = b.name;
  service_account_name = "";
  pod_management_policy = "";
}

pub get_object-eq-built :
    (p : PodBuilder) (b : StatefulSetBuilder) (sts : StatefulSet)
    → Keeps p b.overrides
    → get_object p b ≡ ok sts
    → sts ≡ built b
unfolding get_object
get_object-eq-built p b sts keeps h =
    let config = b.broker_config.role_group_config in
    let (parts, made, same) =
      >>=-eq-ok (p.get_pod_template b.overrides config b.containers b.volumes) _ h in
    sym (Result-ok_injective same)
    ∙ ap (λ parts. record (built b) { containers = parts.0; volumes = parts.1 })
        (keeps.template config b.containers b.volumes parts made)

-- The vector container leaves the overrides as they are.
pub add_vector-overrides :
    (p : PodBuilder) (b x : StatefulSetBuilder) → add_vector p b ≡ ok x → x.overrides ≡ b.overrides
unfolding add_vector add_volumes add_container
add_vector-overrides p b x h =
    let (spec, there, rest) = >>=-eq-ok (deref b.broker_config.role_group_config) _ h in
    let (enabled, read, same) = >>=-eq-ok (is_vector_enable spec.logging) _ rest in
    elim (Bool-cases enabled) [
      | inl on ↦
          sym (ap (λ (x : StatefulSetBuilder). x.overrides) (Result-ok_injective (rw on at same)))
      | inr off ↦
          sym (ap (λ (x : StatefulSetBuilder). x.overrides) (Result-ok_injective (rw off at same)))
    ]
