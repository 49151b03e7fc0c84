-- ===== src/Security/Volumes.antt =====
-- internal/security/security.go: the keystore volumes and their mounts. The pointer that
-- `getContainer` returns into the slice of containers is the container's position, so that a mount
-- added through it changes the stateful set.
pub mod Annotations
pub mod Mounts
pub mod Effect
use mathlib.Core.Option
use kafka_operator.Prelude.{ℕ, zero, suc, String, ◌<>◌, Option, none, some, List, [], ◌∷◌, ◌++◌}
use kafka_operator.Prelude.{Result, ok, panic, ◌>>=◌, ◌==◌, is_set, if◌then◌else◌}
use kafka_operator.Prelude.Dict.{Dict, set}
use kafka_operator.Prelude.Text.{join}
use kafka_operator.Api.Library.{Constants, Container, StatefulSet, Volume, VolumeMount}
use kafka_operator.Api.Names
use kafka_operator.SecretVolume.{SecretVolumeBuilder, add_annotation, set_annotations, build}
use kafka_operator.Security.{
  KafkaSecurity, tls_server_secret_class, tls_internal_secret_class, tls_keystore_server_dir,
  tls_keystore_server_dir_name, tls_keystore_internal_dir, tls_keystore_internal_dir_name,
}

-- the scopes of a keystore: both listener volumes, the pod and the node
abbrev pub secret_scopes : Constants → List String
secret_scopes c =
    (c.listener_volume_scope <> "=" <> Names.listener_broker)
    ∷ (c.listener_volume_scope <> "=" <> Names.listener_bootstrap)
    ∷ c.pod_scope
    ∷ c.node_scope
    ∷ []

unfoldable pub create_tls_keystore_volume : Constants → String → String → String → String → Volume
unfolding add_annotation set_annotations build
create_tls_keystore_volume c volume_name secret_class ssl_store_password requested_life_time =
    let builder : SecretVolumeBuilder = record { volume_name = volume_name; annotations = none } in
    let dated =
      if is_set requested_life_time
      then add_annotation c.secret_cert_life_time requested_life_time builder
      else builder in
    let annotated =
      set_annotations
        (set c.secrets_format c.tls_p12 (
          set c.secrets_scope (join (secret_scopes c) c.common_delimiter)
            (set c.secrets_class secret_class [])))
        dated in
    build (
      if is_set ssl_store_password
      then add_annotation c.secrets_pkcs12_password ssl_store_password annotated
      else annotated)

unfoldable pub add_volume : Volume → StatefulSet → StatefulSet
add_volume v sts = record sts { volumes = sts.volumes ++ v ∷ [] }

unfoldable pub get_container : List Container → String → Option ℕ
get_container [] name = none
get_container (x ∷ xs) name =
    let later = Option.map suc (get_container xs name) in
    if x.name == name then some zero else later

abbrev pub mount : VolumeMount → Container → Container
mount m x = record x { volume_mounts = x.volume_mounts ++ m ∷ [] }

abbrev pub mount_at : ℕ → VolumeMount → List Container → List Container
mount_at i m [] = []
mount_at zero m (x ∷ xs) = mount m x ∷ xs
mount_at (suc i) m (x ∷ xs) = x ∷ mount_at i m xs

-- a nil container pointer panics
unfoldable pub add_volume_mount : Option ℕ → VolumeMount → StatefulSet → Result StatefulSet
add_volume_mount none m sts = panic
add_volume_mount (some i) m sts = ok (record sts { containers = mount_at i m sts.containers })

-- one keystore: nothing without a secret class
unfoldable pub add_keystore :
    Constants
    → KafkaSecurity
    → Option ℕ
    → String
    → String
    → String
    → String
    → StatefulSet
    → Result StatefulSet
unfolding add_volume add_volume_mount
add_keystore c k container secret_class name dir life_time sts =
    if is_set secret_class
    then add_volume_mount container (record { name = name; mount_path = dir })
        (add_volume (create_tls_keystore_volume c name secret_class k.ssl_store_password life_time)
          sts)
    else ok sts

unfoldable pub add_volume_and_volume_mounts :
    Constants → KafkaSecurity → StatefulSet → String → Result StatefulSet
unfolding get_container
add_volume_and_volume_mounts c k sts life_time = do
  let kafka = get_container sts.containers "kafka"
  served ←
      add_keystore c k kafka (tls_server_secret_class k) tls_keystore_server_dir_name
        tls_keystore_server_dir life_time sts
  add_keystore c k kafka (tls_internal_secret_class k) tls_keystore_internal_dir_name
      tls_keystore_internal_dir life_time served
