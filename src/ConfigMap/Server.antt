-- ===== src/ConfigMap/Server.antt =====
-- internal/controller/configmap.go: server.properties, from the user's overrides through the merge
-- of the defaults to the settings of the security.
use kafka_operator.Prelude.{
  String, Option, none, some, List, [], ◌∷◌, ◌≡◌, refl, ◌≢◌, ◌⊎◌, inl, inr, arith, ok, panic, ◌==◌,
  ==_iff, ==_refl, Option-cases, subst, sym, ap, ◌∙◌, ◌>>=◌, >>=-eq-ok,
}
use kafka_operator.Prelude.Dict.{
  Dict, lookup, set, copy, or_else, NodupKeys, lookup-copy, lookup-set_self, set-lookup, set_idem,
}
use kafka_operator.Api.Library.{Constants, OverridesSpec}
use kafka_operator.Security.{KafkaSecurity}
use kafka_operator.Security.Settings.{config_settings}
use kafka_operator.Security.Entries.{config_settings-NodupKeys}
use kafka_operator.Security.Stores.{config_settings-IsConfigured}
use kafka_operator.Config.{
  KafkaConfig, merge_overrides, or_empty, default_files, server_properties_filename,
}
use kafka_operator.Config.Files.{value_of, default_of}
use kafka_operator.Config.Overrides.{merge_overrides-value}
use kafka_operator.ConfigMap.{
  Renderers, KafkaConfigmapBuilder, overridden_files, copy_into, server_data, with_server_data,
  build_server_properties,
}

pub copy_into-eq-copy : (m src : Dict String) → copy_into (some m) src ≡ ok (some (copy m src))
unfolding copy_into copy
copy_into-eq-copy m [] = refl
copy_into-eq-copy m ((k, v) ∷ src) = copy_into-eq-copy (set k v m) src

copy_into-none : (k v : String) (src : Dict String) → copy_into none ((k, v) ∷ src) ≡ panic
unfolding copy_into
copy_into-none k v src = refl

copy_into_nil : (src : Dict String) → src ≢ [] → copy_into none src ≡ panic
copy_into_nil [] some' = ground arith
copy_into_nil ((k, v) ∷ src) some' = copy_into-none k v src

settings_there : (k : KafkaSecurity) → config_settings k ≢ []
unfolding lookup
settings_there k = ground (arith, (config_settings-IsConfigured k).broker_listener)

-- Settings that a map has already change nothing.
copy_idem :
    (m src : Dict String)
    → ((k v : String) → lookup k src ≡ some v → lookup k m ≡ some v)
    → NodupKeys src
    → copy m src ≡ m
unfolding copy lookup
copy_idem m [] there u = refl
copy_idem m ((k, v) ∷ src) there (fresh, u) =
    rw (set-lookup k v m (there k v (ground (arith, ==_refl k))))
      (copy_idem m src (λ j w found. there j w (ground (arith, ==_iff k j))) u)

has_value :
    (f key : String) (files : Dict (Option (Dict String)))
    → value_of f key files ≢ none
    → (m : Dict String) × (lookup f files ≡ some (some m))
has_value f key files there = elim (Option-cases (lookup f files)) [
  | inl missing ↦ ground arith
  | inr (none, found) ↦ ground arith
  | inr (some m, found) ↦ (m, found)
]

-- A merge leaves a map for server.properties.
default_value :
    (c : Constants) (o : Option String)
    → or_else o
        (default_of server_properties_filename "zookeeper.connection.timeout.ms" (default_files c))
      ≢ none
unfolding lookup ◌==◌
default_value c o = ground arith

server_data-present :
    (b : KafkaConfigmapBuilder) (cli : Option (List String)) (env : Option (Dict String))
    (pod : Option String) (files : Dict (Option (Dict String))) (m : Dict String)
    → b.overrides
      ≡ some (record {
        cli_overrides = cli;
        env_overrides = env;
        config_overrides = some files;
        pod_overrides = pod;
      })
    → lookup server_properties_filename files ≡ some (some m)
    → server_data b ≡ some m
unfolding server_data
server_data-present b cli env pod files m held found = ground arith

module _ {Generator : Type 0} (r : Renderers Generator) where
  build_server_properties-copy :
      (b : KafkaConfigmapBuilder) (m : Dict String)
      → server_data b ≡ some m
      → build_server_properties r b ≡ (
          r.marshal (some (copy m (config_settings b.kafka_security))) >>= λ content.
          ok (content, with_server_data (some (copy m (config_settings b.kafka_security))) b))
  unfolding build_server_properties
  build_server_properties-copy b m present =
      rw (present, copy_into-eq-copy m (config_settings b.kafka_security)) refl

  -- Where the builder holds overrides that `mergeOverrides` has merged, server.properties is the
  -- text of these entries: the security's settings, then the user's values, then the defaults.
  pub server_properties-of_merge :
      (c : Constants) (k : KafkaConfig) (user : OverridesSpec) (merged : Option OverridesSpec)
      (b : KafkaConfigmapBuilder)
      → merge_overrides c (some user) k ≡ ok merged
      → b.overrides ≡ merged
      → (entries : Dict String) × (build_server_properties r b ≡ (
          r.marshal (some entries) >>= λ content. ok (content, with_server_data (some entries) b)))
        × ((key : String)
            → lookup key entries
              ≡ or_else (lookup key (config_settings b.kafka_security)) (
                  or_else
                    (value_of server_properties_filename key (or_empty user.config_overrides))
                    (default_of server_properties_filename key (default_files c))))
  server_properties-of_merge c k user merged b one held =
      let (files, same, value) = merge_overrides-value c k user merged one in
      let (m, found) =
        has_value server_properties_filename "zookeeper.connection.timeout.ms" files (
          subst (λ o. o ≢ none)
            (sym (value server_properties_filename "zookeeper.connection.timeout.ms"))
            (default_value c _)) in
      (
        copy m (config_settings b.kafka_security),
        build_server_properties-copy b m (server_data-present b _ _ _ files m (held ∙ same) found),
        λ key. ground (
          arith,
          lookup-copy key m (config_settings b.kafka_security)
              (config_settings-NodupKeys b.kafka_security),
          value server_properties_filename key,
          found,
        ),
      )

  build_server_properties-panic :
      (b : KafkaConfigmapBuilder) → server_data b ≡ none → build_server_properties r b ≡ panic
  unfolding build_server_properties
  build_server_properties-panic b missing =
      rw
        (
          missing,
          copy_into_nil (config_settings b.kafka_security) (settings_there b.kafka_security),
        )
        refl

  -- what a successful build of server.properties did
  built :
      (b b' : KafkaConfigmapBuilder) (content : String)
      → build_server_properties r b ≡ ok (content, b')
      → (m : Dict String) × (server_data b ≡ some m)
        × (r.marshal (some (copy m (config_settings b.kafka_security))) ≡ ok content)
        × (b' ≡ with_server_data (some (copy m (config_settings b.kafka_security))) b)
  built b b' content h = elim (Option-cases (server_data b)) [
    | inl missing ↦ ground (arith, build_server_properties-panic b missing)
    | inr (m, present) ↦
        let (text, marshalled, same) =
          >>=-eq-ok (r.marshal (some (copy m (config_settings b.kafka_security))))
            (λ content.
              ok (content, with_server_data (some (copy m (config_settings b.kafka_security))) b))
            (sym (build_server_properties-copy b m present) ∙ h) in
        (m, present, ground arith, ground arith)
  ]

  server_data-with_server_data :
      (b : KafkaConfigmapBuilder) (m n : Dict String)
      → server_data b ≡ some m
      → (server_data (with_server_data (some n) b) ≡ some n)
        ⊎ ((m ≡ []) × (with_server_data (some n) b ≡ b))
  unfolding server_data with_server_data
  server_data-with_server_data b m n h = elim (Option-cases (overridden_files b)) [
    | inl nil ↦ ground arith
    | inr (files, held) ↦ ground (arith, lookup-set_self server_properties_filename (some n) files)
  ]

  with_server_data_idem :
      (b : KafkaConfigmapBuilder) (n : Dict String)
      → with_server_data (some n) (with_server_data (some n) b) ≡ with_server_data (some n) b
  unfolding with_server_data
  with_server_data_idem b n = elim (Option-cases (overridden_files b)) [
    | inl nil ↦ ground arith
    | inr (files, held) ↦ ground (arith, set_idem server_properties_filename (some n) files)
  ]

  kafka_security-with_server_data :
      (b : KafkaConfigmapBuilder) (n : Option (Dict String))
      → (with_server_data n b).kafka_security ≡ b.kafka_security
  unfolding with_server_data
  kafka_security-with_server_data b n = elim (Option-cases (overridden_files b)) [
    | inl nil ↦ ground arith
    | inr (files, held) ↦ ground arith
  ]

  copied_twice :
      (m : Dict String) (k : KafkaSecurity)
      → copy (copy m (config_settings k)) (config_settings k) ≡ copy m (config_settings k)
  copied_twice m k =
      copy_idem (copy m (config_settings k)) (config_settings k)
        (λ key v found.
          ground (arith, lookup-copy key m (config_settings k) (config_settings-NodupKeys k)))
        (config_settings-NodupKeys k)

  rebuilt :
      (b : KafkaConfigmapBuilder) (m : Dict String) (content : String)
      → (let n = copy m (config_settings b.kafka_security) in
          (server_data (with_server_data (some n) b) ≡ some n)
          → (r.marshal (some n) ≡ ok content)
          → build_server_properties r (with_server_data (some n) b)
            ≡ ok (content, with_server_data (some n) b))
  unfolding with_server_data
  rebuilt b m content there marshalled =
      let n = copy m (config_settings b.kafka_security) in
      build_server_properties-copy (with_server_data (some n) b) n there
      ∙ rw
          (
            kafka_security-with_server_data b (some n),
            copied_twice m b.kafka_security,
            marshalled,
            with_server_data_idem b n,
          )
          refl

  -- A second build of server.properties, on the overrides that the first one changed, has the same
  -- text and changes nothing.
  pub build_server_properties_again :
      (b b' : KafkaConfigmapBuilder) (content : String)
      → build_server_properties r b ≡ ok (content, b')
      → build_server_properties r b' ≡ ok (content, b')
  build_server_properties_again b b' content h =
      let (m, present, marshalled, same) = built b b' content h in
      elim (server_data-with_server_data b m (copy m (config_settings b.kafka_security)) present) [
        | inl there ↦
            subst (λ w. build_server_properties r w ≡ ok (content, w)) (sym same)
              (rebuilt b m content there marshalled)
        | inr (empty, unchanged) ↦ ap (build_server_properties r) (same ∙ unchanged) ∙ h
      ]
