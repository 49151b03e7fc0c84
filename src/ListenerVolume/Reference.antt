-- ===== src/ListenerVolume/Reference.antt =====
-- internal/util/listener_volume.go: when a claim for a listener can be built, and what it says.
use kafka_operator.Prelude.{
  String, true, ◌||◌, ◌<>◌, some, [], ◌∷◌, ◌≡◌, arith, ok, err, is_set, if◌then◌else◌,
}
use kafka_operator.Prelude.Dict.{Dict, set}
use kafka_operator.Api.Library.{Constants, ClaimTemplate}
use kafka_operator.ListenerVolume.{
  ListenerReference, to_annotation, ListenerOperatorVolumeSourceBuilder, build_spec,
  build_ephemeral, build_pvc,
}

-- The annotation of a reference: the class if it is set, else the name.
abbrev pub reference_annotations : Constants → ListenerReference → Dict String
reference_annotations c r =
    if is_set r.listener_class
    then (c.listeners_class, r.listener_class) ∷ []
    else (c.listener_name, r.listener_name) ∷ []

-- The claim that a reference asks for.
abbrev pub claim_of : Constants → ListenerOperatorVolumeSourceBuilder → ClaimTemplate
claim_of c b = record {
  annotations = some (reference_annotations c b.reference);
  labels = b.labels;
  spec = build_spec c;
}

module _ (c : Constants) (class_key : is_set c.listeners_class ≡ true)
    (name_key : is_set c.listener_name ≡ true) (b : ListenerOperatorVolumeSourceBuilder) where
  -- Where the two annotation keys are not empty, both claims are built exactly if the reference has
  -- a class or a name: they then have one annotation, the class if there is one and else the name,
  -- and the builder's labels. Without either, both calls return the same wrapped error.
  pub build_of_reference :
      (name : String)
      → let found = is_set b.reference.listener_class || is_set b.reference.listener_name in
        let missing =
          "failed to get listener reference annotation: "
          <> "either ListenerClass or ListenerName must be set" in
        (build_ephemeral c b ≡ (if found then ok (claim_of c b) else err missing))
        × (build_pvc c b name
            ≡ (if found then ok (record { name = name; template = claim_of c b }) else err missing))
  unfolding build_ephemeral build_pvc to_annotation set
  build_of_reference name = ground arith
