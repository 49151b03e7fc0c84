-- ===== src/SecretVolume.antt =====
-- internal/util/secret_volume.go: the builder of a volume that the secret operator provisions.
use kafka_operator.Prelude.{String, Option, none, some, []}
use kafka_operator.Prelude.Dict.{Dict, set}
use kafka_operator.Api.Library.{Volume, ephemeral}
use kafka_operator.Kerberos.{secret_claim}

pub record SecretVolumeBuilder : Type 0 where
  pub volume_name : String
  pub annotations : Option (Dict String)

unfoldable pub add_annotation : String → String → SecretVolumeBuilder → SecretVolumeBuilder
add_annotation key v s =
    let made : Dict String = elim s.annotations [ none ↦ [] | some m ↦ m ] in
    record s { annotations = some (set key v made) }

unfoldable pub set_annotations : Dict String → SecretVolumeBuilder → SecretVolumeBuilder
set_annotations annotations s = record s { annotations = some annotations }

unfoldable pub build : SecretVolumeBuilder → Volume
build s = record {
  name = s.volume_name;
  source = ephemeral (record { annotations = s.annotations; labels = none; spec = secret_claim });
}
