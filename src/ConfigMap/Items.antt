-- ===== src/ConfigMap/Items.antt =====
-- internal/controller/configmap.go, `Build`: the entries of the built config map.
use kafka_operator.Prelude.{
  ℕ, ◌+◌, ◌≤◌, String, Bool, true, false, Option, some, List, [], ◌∷◌, ◌≡◌, refl, ◌⊎◌, inl, inr,
  arith, Result, ok, err, panic, ◌==◌, Option-cases, Bool-cases, Result-cases, ltb, ap, ◌∙◌, ◌>>=◌,
  >>=-eq-ok, if◌then◌else◌,
}
use kafka_operator.Prelude.Dict.{Dict, lookup, set, lookup-set}
use kafka_operator.Security.Settings.{config_settings}
use kafka_operator.Config.{server_properties_filename, security_properties_filename}
use kafka_operator.ConfigMap.{
  Renderers, KafkaConfigmapBuilder, PropertyFile, server_properties, security_properties,
  log4j_properties, filename, overridden_files, server_data, with_server_data,
  build_server_properties, build_security_properties, build_log4j_properties, build_file,
  build_files, add_content, add_item, copy_into,
}

abbrev same_file : PropertyFile → PropertyFile → Bool
same_file server_properties server_properties = true
same_file security_properties security_properties = true
same_file log4j_properties log4j_properties = true
same_file _ _ = false

-- how often an enumeration visits a file
abbrev pub visits : PropertyFile → List PropertyFile → ℕ
visits f [] = 0
visits f (g ∷ gs) = (if same_file f g then 1 else 0) + visits f gs

-- the file's content is an item unless it is empty
abbrev pub item : String → Option String → Option String
item content old = if content == "" then old else some content

overridden_files-with_server_data :
    (b : KafkaConfigmapBuilder) (m : Option (Dict String))
    → (overridden_files (with_server_data m b) ≡ overridden_files b)
      ⊎ ((files : Dict (Option (Dict String))) × (overridden_files b ≡ some files)
          × (overridden_files (with_server_data m b)
              ≡ some (set server_properties_filename m files)))
unfolding with_server_data
overridden_files-with_server_data b m = elim (Option-cases (overridden_files b)) [
  | inl nil ↦ inl (ground arith)
  | inr (files, held) ↦ inr (files, held, ground arith)
]

same_file_iff : (f g : PropertyFile) → same_file f g ≡ (filename g == filename f)
unfolding ◌==◌
same_file_iff server_properties server_properties = refl
same_file_iff server_properties security_properties = refl
same_file_iff server_properties log4j_properties = refl
same_file_iff security_properties server_properties = refl
same_file_iff security_properties security_properties = refl
same_file_iff security_properties log4j_properties = refl
same_file_iff log4j_properties server_properties = refl
same_file_iff log4j_properties security_properties = refl
same_file_iff log4j_properties log4j_properties = refl

items-add_content :
    (f g : PropertyFile) (content : String) (b : KafkaConfigmapBuilder)
    → lookup (filename f) (add_content (filename g) content b).items ≡ (
        if same_file f g
        then item content (lookup (filename f) b.items)
        else lookup (filename f) b.items)
unfolding add_item
items-add_content f g content b =
    ground (arith, same_file_iff f g, lookup-set (filename f) (filename g) content b.items)

same_file_refl : (f : PropertyFile) → same_file f f ≡ true
same_file_refl server_properties = refl
same_file_refl security_properties = refl
same_file_refl log4j_properties = refl

module _ {Generator : Type 0} (r : Renderers Generator) where
  -- what a file is rendered to
  abbrev pub rendered : PropertyFile → KafkaConfigmapBuilder → Result String
  rendered server_properties b =
      copy_into (server_data b) (config_settings b.kafka_security) >>= λ m. r.marshal m
  rendered security_properties b = build_security_properties r b
  rendered log4j_properties b = build_log4j_properties r b

  -- the builder after it
  abbrev after : PropertyFile → KafkaConfigmapBuilder → KafkaConfigmapBuilder
  after server_properties b = elim (copy_into (server_data b) (config_settings b.kafka_security)) [
    | panic ↦ b
    | err e ↦ b
    | ok m ↦ with_server_data m b
  ]
  after security_properties b = b
  after log4j_properties b = b

  build_file-rendered :
      (f : PropertyFile) (b : KafkaConfigmapBuilder) (content : String)
      → rendered f b ≡ ok content
      → build_file r f b ≡ ok (content, after f b)
  unfolding build_file build_server_properties
  build_file-rendered server_properties b content h =
      let (m, copied, marshalled) =
        >>=-eq-ok (copy_into (server_data b) (config_settings b.kafka_security)) (λ m. r.marshal m)
          h in
      ground (arith, copied, marshalled)
  build_file-rendered security_properties b content h = rw h refl
  build_file-rendered log4j_properties b content h = rw h refl

  rendered-add_content :
      (f : PropertyFile) (key content : String) (b : KafkaConfigmapBuilder)
      → rendered f (add_content key content b) ≡ rendered f b
  unfolding build_security_properties build_log4j_properties server_data add_item
  rendered-add_content server_properties key content b = elim (Bool-cases (content == "")) [
    | inl empty ↦ ground arith
    | inr full ↦ ground arith
  ]
  rendered-add_content security_properties key content b = elim (Bool-cases (content == "")) [
    | inl empty ↦ ground arith
    | inr full ↦ ground arith
  ]
  rendered-add_content log4j_properties key content b = elim (Bool-cases (content == "")) [
    | inl empty ↦ ground arith
    | inr full ↦ ground arith
  ]

  security-with_server_data :
      (b : KafkaConfigmapBuilder) (m : Option (Dict String))
      → build_security_properties r (with_server_data m b) ≡ build_security_properties r b
  unfolding build_security_properties ◌==◌
  security-with_server_data b m = elim (overridden_files-with_server_data b m) [
    | inl same ↦ ground (arith, same)
    | inr (files, held, changed) ↦
        ground (arith, lookup-set security_properties_filename server_properties_filename m files)
  ]

  log4j-with_server_data :
      (b : KafkaConfigmapBuilder) (m : Option (Dict String))
      → build_log4j_properties r (with_server_data m b) ≡ build_log4j_properties r b
  unfolding build_log4j_properties with_server_data
  log4j-with_server_data b m = elim (Option-cases (overridden_files b)) [
    | inl nil ↦ ground arith
    | inr (files, held) ↦ ground arith
  ]

  after-cases :
      (b : KafkaConfigmapBuilder)
      → (after server_properties b ≡ b)
        ⊎ ((m : Option (Dict String)) × (after server_properties b ≡ with_server_data m b))
  after-cases b =
      elim (Result-cases (copy_into (server_data b) (config_settings b.kafka_security))) [
        | inl fails ↦ inl (ground arith)
        | inr (inl (e, fails)) ↦ inl (ground arith)
        | inr (inr (m, copied)) ↦ inr (m, ground arith)
      ]

  rendered-after :
      (f g : PropertyFile) (b : KafkaConfigmapBuilder)
      → same_file f g ≡ false
      → rendered f (after g b) ≡ rendered f b
  rendered-after f security_properties b h = refl
  rendered-after f log4j_properties b h = refl
  rendered-after server_properties server_properties b h = cc
  rendered-after security_properties server_properties b h = elim (after-cases b) [
    | inl same ↦ ap (build_security_properties r) same
    | inr (m, same) ↦ ap (build_security_properties r) same ∙ security-with_server_data b m
  ]
  rendered-after log4j_properties server_properties b h = elim (after-cases b) [
    | inl same ↦ ap (build_log4j_properties r) same
    | inr (m, same) ↦ ap (build_log4j_properties r) same ∙ log4j-with_server_data b m
  ]

  items-after : (f : PropertyFile) (b : KafkaConfigmapBuilder) → (after f b).items ≡ b.items
  unfolding with_server_data
  items-after server_properties b = ground arith
  items-after security_properties b = refl
  items-after log4j_properties b = refl

  build_files-visited :
      (order : List PropertyFile) (b : KafkaConfigmapBuilder) (content : PropertyFile → String)
      → ((f : PropertyFile) → visits f order ≤ 1)
      → ((f : PropertyFile) → visits f order ≡ 1 → rendered f b ≡ ok (content f))
      → (b' : KafkaConfigmapBuilder) × (build_files r order b ≡ ok b')
        × ((f : PropertyFile)
            → lookup (filename f) b'.items ≡ (
                if ltb 0 (visits f order)
                then item (content f) (lookup (filename f) b.items)
                else lookup (filename f) b.items))
  unfolding build_files
  build_files-visited [] b content once there = (b, refl, λ f. refl)
  build_files-visited (g ∷ gs) b content once there =
      let b1 = add_content (filename g) (content g) (after g b) in
      let (b', found, items) =
        build_files-visited gs b1 content (λ f. omega (arith, once f))
          (λ f one.
            rendered-add_content f (filename g) (content g) (after g b)
            ∙ rendered-after f g b (ground (arith, once f, one))
            ∙ there f (ground (arith, once f, one))) in
      (
        b',
        rw
            (build_file-rendered g b (content g)
              (there g (ground (arith, once g, same_file_refl g))))
            found,
        λ f. ground (
          arith,
          items f,
          items-add_content f g (content g) (after g b),
          items-after g b,
          once f,
        ),
      )

  -- If the three property files can be rendered, then for whatever order Go visits them in, the
  -- loop over them succeeds, and each file that is not empty is an item with its text, rendered
  -- from the builder as it was before the loop.
  pub build_files-items :
      (order : List PropertyFile) (b : KafkaConfigmapBuilder) (content : PropertyFile → String)
      → ((f : PropertyFile) → visits f order ≡ 1)
      → ((f : PropertyFile) → rendered f b ≡ ok (content f))
      → (b' : KafkaConfigmapBuilder) × (build_files r order b ≡ ok b')
        × ((f : PropertyFile)
            → lookup (filename f) b'.items ≡ item (content f) (lookup (filename f) b.items))
  build_files-items order b content once there =
      let (b', found, items) =
        build_files-visited order b content (λ f. omega (arith, once f)) (λ f one. there f) in
      (b', found, λ f. ground (arith, items f, once f))
