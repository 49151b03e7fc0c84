-- ===== src/ListenerVolume.antt =====
-- internal/util/listener_volume.go: the volume claims that the listener operator serves, and the
-- shell commands that read a listener's address and ports.
pub mod Reference
use kafka_operator.Prelude.{String, ◌<>◌, Option, none, some, List, [], ◌∷◌, Result, ok, err, ◌>>=◌}
use kafka_operator.Prelude.{wrap, is_set, not, if◌then◌else◌}
use kafka_operator.Prelude.Dict.{Dict, set}
use kafka_operator.Prelude.Text.{path_join}
use kafka_operator.Api.Library.{Constants, ClaimSpec, ClaimTemplate, PersistentVolumeClaim}

pub record ListenerReference : Type 0 where
  pub listener_class : String
  pub listener_name : String

pub record Annotation : Type 0 where
  pub key : String
  pub value : String

unfoldable pub new_annotation : String → String → Result Annotation
new_annotation key value =
    if not (is_set key)
    then err "annotation key cannot be empty"
    else if not (is_set value)
    then err "annotation value cannot be empty"
    else ok (record { key = key; value = value })

unfoldable pub to_annotation : Constants → ListenerReference → Result Annotation
unfolding new_annotation
to_annotation c r =
    if is_set r.listener_class
    then new_annotation c.listeners_class r.listener_class
    else if is_set r.listener_name
    then new_annotation c.listener_name r.listener_name
    else err "either ListenerClass or ListenerName must be set"

pub record ListenerOperatorVolumeSourceBuilder : Type 0 where
  pub reference : ListenerReference
  pub labels : Option (Dict String)

abbrev pub build_spec : Constants → ClaimSpec
build_spec c = record {
  access_mode = "ReadWriteOnce";
  storage_class_name = some c.listener_storage_class;
  volume_mode = "Filesystem";
  storage = "10Mi";
}

unfoldable pub build_ephemeral :
    Constants → ListenerOperatorVolumeSourceBuilder → Result ClaimTemplate
build_ephemeral c b = do
  a ← wrap "failed to get listener reference annotation" (to_annotation c b.reference)
  ok (record { annotations = some (set a.key a.value []); labels = b.labels; spec = build_spec c })

unfoldable pub build_pvc :
    Constants → ListenerOperatorVolumeSourceBuilder → String → Result PersistentVolumeClaim
build_pvc c b name = do
  a ← wrap "failed to get listener reference annotation" (to_annotation c b.reference)
  ok (record {
    name = name;
    template = record {
      annotations = some (set a.key a.value []);
      labels = b.labels;
      spec = build_spec c;
    };
  })

unfoldable pub node_address_cmd : String → String
node_address_cmd directory =
    "$(cat " <> path_join (directory ∷ "default-address/address" ∷ []) <> ")"

unfoldable pub node_port_cmd : String → String → String
node_port_cmd directory port_name =
    "$(cat " <> path_join (directory ∷ "default-address/ports" ∷ port_name ∷ []) <> ")"

unfoldable pub pod_fqdn : String → String → String
pod_fqdn namespace object_name =
    "$POD_NAME." <> object_name <> "." <> namespace <> ".svc.cluster.local"
