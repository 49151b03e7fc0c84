-- ===== src/ConfigMap/Kept.antt =====
-- internal/controller/configmap.go, `Build`: what the loop over the property files keeps.
use kafka_operator.Prelude.{
  String, Option, List, [], ◌∷◌, ◌≡◌, refl, ◌∙◌, arith, ok, >>=-eq-ok, Result-ok_injective, subst,
}
use kafka_operator.Prelude.Dict.{Dict}
use kafka_operator.Api.Library.{RoleGroupConfigSpec}
use kafka_operator.Api.Types.{ClusterConfigSpec}
use kafka_operator.Security.Settings.{config_settings}
use kafka_operator.ConfigMap.{
  Renderers, KafkaConfigmapBuilder, PropertyFile, server_properties, security_properties,
  log4j_properties, filename, add_content, add_item, build_file, build_files,
  build_log4j_properties, build_security_properties, build_server_properties, copy_into,
  server_data, with_server_data,
}

-- what the vector agent's configuration is made of, next to the renderers
abbrev pub others :
    KafkaConfigmapBuilder
    → Option RoleGroupConfigSpec
      × (Option ClusterConfigSpec × (String × (String × (String × String))))
others b = (
  b.role_group_config,
  (b.cluster_config, (b.owner_namespace, (b.cluster_name, (b.role_name, b.role_group_name)))),
)

-- The loop over the files changes nothing but the overrides and the items.
abbrev pub IsKept : KafkaConfigmapBuilder → KafkaConfigmapBuilder → Type 0
IsKept b b' = others b' ≡ others b

with_server_data-IsKept :
    (m : Option (Dict String)) (b : KafkaConfigmapBuilder) → IsKept b (with_server_data m b)
unfolding with_server_data
with_server_data-IsKept m b = ground arith

add_content-IsKept :
    (key content : String) (b : KafkaConfigmapBuilder) → IsKept b (add_content key content b)
unfolding add_item
add_content-IsKept key content b = ground arith

module _ {Generator : Type 0} (r : Renderers Generator) where
  build_file-IsKept :
      (f : PropertyFile) (b b' : KafkaConfigmapBuilder) (content : String)
      → build_file r f b ≡ ok (content, b')
      → IsKept b b'
  unfolding build_file build_server_properties
  build_file-IsKept server_properties b b' content h =
      let (m, copied, rest) =
        >>=-eq-ok (copy_into (server_data b) (config_settings b.kafka_security)) _ h in
      let (text, made, same) = >>=-eq-ok (r.marshal m) _ rest in
      subst (λ x. IsKept b (x.1)) (Result-ok_injective same) (with_server_data-IsKept m b)
  build_file-IsKept security_properties b b' content h =
      let (text, made, same) = >>=-eq-ok (build_security_properties r b) _ h in
      subst (λ x. IsKept b (x.1)) (Result-ok_injective same) refl
  build_file-IsKept log4j_properties b b' content h =
      let (text, made, same) = >>=-eq-ok (build_log4j_properties r b) _ h in
      subst (λ x. IsKept b (x.1)) (Result-ok_injective same) refl

  pub build_files-IsKept :
      (order : List PropertyFile) (b b' : KafkaConfigmapBuilder)
      → build_files r order b ≡ ok b'
      → IsKept b b'
  unfolding build_files
  build_files-IsKept [] b b' h = subst (IsKept b) (Result-ok_injective h) refl
  build_files-IsKept (f ∷ fs) b b' h =
      let ((content, b1), one, rest) =
        >>=-eq-ok (build_file r f b)
          (λ (content, b1). build_files r fs (add_content (filename f) content b1)) h in
      build_files-IsKept fs (add_content (filename f) content b1) b' rest
      ∙ add_content-IsKept (filename f) content b1
      ∙ build_file-IsKept f b b1 content one
