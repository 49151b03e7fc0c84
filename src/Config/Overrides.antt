-- ===== src/Config/Overrides.antt =====
-- internal/controller/cluster_config.go: `mergeOverrides`.
use kafka_operator.Prelude.{
  String, Option, none, some, List, ◌≡◌, refl, ◌↔◌, ◌⊎◌, inl, inr, arith, Option-cases, ok, panic,
  ◌==◌, Result-ok_injective, subst, sym, ap, ◌∙◌, >>=-eq-ok,
}
use kafka_operator.Prelude.Lists.{All}
use kafka_operator.Prelude.Dict.{Dict, lookup, or_else, NodupKeys}
use kafka_operator.Api.Library.{Constants, OverridesSpec}
use kafka_operator.Config.{
  KafkaConfig, merge_file, merge_files, merge_overrides, merge_overrides_of, or_empty,
  default_files, server_properties_filename, security_properties_filename, server_defaults,
  security_defaults,
}
use kafka_operator.Config.Files.{
  value_of, default_of, merge_files-value, merge_file-eq-panic_iff, merge_files-eq_self,
  merge_files-IsFilled, merge_file-cases, lookup-merge_file,
}

pub default_files-NodupKeys : (c : Constants) → NodupKeys (default_files c)
unfolding lookup ◌==◌
default_files-NodupKeys c = (refl, (refl, tt))

pub default_files-All : (c : Constants) → All (λ e. NodupKeys (e.1)) (default_files c)
unfolding lookup ◌==◌
default_files-All c = ((refl, (refl, (refl, tt))), ((refl, (refl, tt)), tt))

-- What a successful merge leaves in the user's overrides.
merge_overrides_of-entries :
    (c : Constants) (k : KafkaConfig) (user r : OverridesSpec)
    → merge_overrides_of c k user ≡ ok r
    → (files : Dict (Option (Dict String))) × (merge_files
          (or_empty user.config_overrides)
          (default_files c)
        ≡ ok files)
      × (r ≡ record {
        cli_overrides = some (or_empty user.cli_overrides);
        env_overrides = some (or_empty user.env_overrides);
        config_overrides = some files;
        pod_overrides = user.pod_overrides;
      })
unfolding merge_overrides_of
merge_overrides_of-entries c k user r h =
    let (files, merged, same) =
      >>=-eq-ok (merge_files (or_empty user.config_overrides) (default_files c)) _ h in
    (files, merged, sym (Result-ok_injective same))

-- A merge keeps the command line, the environment and the pod overrides, and in the files the user's value of every
-- key; a key that the user left out gets its default.
pub merge_overrides-value :
    (c : Constants) (k : KafkaConfig) (user : OverridesSpec) (merged : Option OverridesSpec)
    → merge_overrides c (some user) k ≡ ok merged
    → (files : Dict (Option (Dict String))) × (merged
        ≡ some (record {
          cli_overrides = some (or_empty user.cli_overrides);
          env_overrides = some (or_empty user.env_overrides);
          config_overrides = some files;
          pod_overrides = user.pod_overrides;
        }))
      × ((f key : String)
          → value_of f key files
            ≡ or_else
                (value_of f key (or_empty user.config_overrides))
                (default_of f key (default_files c)))
unfolding merge_overrides
merge_overrides-value c k user merged h =
    let (r, one, same) = >>=-eq-ok (merge_overrides_of c k user) (λ r. ok (some r)) h in
    let (files, filled, entries) = merge_overrides_of-entries c k user r one in
    (
      files,
      sym (Result-ok_injective same) ∙ ap some entries,
      λ f key.
          merge_files-value f key (or_empty user.config_overrides) files (default_files c)
            (default_files-NodupKeys c) (default_files-All c) filled,
    )

server_panic :
    (c : Constants) (files : Dict (Option (Dict String)))
    → (merge_file server_properties_filename (server_defaults c) files ≡ panic)
      ↔ (lookup server_properties_filename files ≡ some none)
server_panic c files = merge_file-eq-panic_iff _ _ _ _ files

security_panic :
    (files : Dict (Option (Dict String)))
    → (merge_file security_properties_filename security_defaults files ≡ panic)
      ↔ (lookup security_properties_filename files ≡ some none)
security_panic files = merge_file-eq-panic_iff _ _ _ _ files

pub default_files_panic :
    (c : Constants) (files : Dict (Option (Dict String)))
    → (merge_files files (default_files c) ≡ panic) ↔ (
        (lookup server_properties_filename files ≡ some none)
        ⊎ (lookup security_properties_filename files ≡ some none))
unfolding merge_files
default_files_panic c files =
    elim (merge_file-cases server_properties_filename (server_defaults c) files) [
      | inl panics ↦ ground (arith, server_panic c files)
      | inr (merged, one) ↦ ground (
        arith,
        server_panic c files,
        merge_file-cases security_properties_filename security_defaults merged,
        security_panic merged,
        lookup-merge_file server_properties_filename security_properties_filename
            (server_defaults c) files merged (default_files-All c).0 (unfold ◌==◌ in refl) one,
      )
    ]

-- A merge panics exactly if the user's overrides hold a nil map for one of the two default files.
pub merge_overrides-eq-panic_iff :
    (c : Constants) (k : KafkaConfig) (user : OverridesSpec)
    → (merge_overrides c (some user) k ≡ panic) ↔ (
        (lookup server_properties_filename (or_empty user.config_overrides) ≡ some none)
        ⊎ (lookup security_properties_filename (or_empty user.config_overrides) ≡ some none))
unfolding merge_overrides merge_overrides_of
merge_overrides-eq-panic_iff c k user =
    ground (arith, default_files_panic c (or_empty user.config_overrides))

merge_overrides_again :
    (c : Constants) (k : KafkaConfig) (cli : List String) (env : Dict String) (pod : Option String)
    (files : Dict (Option (Dict String)))
    → merge_files files (default_files c) ≡ ok files
    → merge_overrides_of c k (record {
      cli_overrides = some cli;
      env_overrides = some env;
      config_overrides = some files;
      pod_overrides = pod;
    })
      ≡ ok (record {
        cli_overrides = some cli;
        env_overrides = some env;
        config_overrides = some files;
        pod_overrides = pod;
      })
unfolding merge_overrides_of
merge_overrides_again c k cli env pod files filled = rw filled refl

merge_overrides_of_idem :
    (c : Constants) (k : KafkaConfig) (user r : OverridesSpec)
    → merge_overrides_of c k user ≡ ok r
    → merge_overrides_of c k r ≡ ok r
merge_overrides_of_idem c k user r h =
    let (files, filled, entries) = merge_overrides_of-entries c k user r h in
    subst (λ o. merge_overrides_of c k o ≡ ok o) (sym entries)
      (merge_overrides_again c k (or_empty user.cli_overrides) (or_empty user.env_overrides)
        user.pod_overrides files
        (merge_files-eq_self files (default_files c) (
          merge_files-IsFilled (or_empty user.config_overrides) files (default_files c)
            (default_files-NodupKeys c) (default_files-All c) filled)))

-- A second merge of the defaults changes nothing.
pub merge_overrides_idem :
    (c : Constants) (k : KafkaConfig) (user r : Option OverridesSpec)
    → merge_overrides c user k ≡ ok r
    → merge_overrides c r k ≡ ok r
unfolding merge_overrides
merge_overrides_idem c k none r h =
    let (own, one, same) = >>=-eq-ok (merge_overrides_of c k _) (λ own. ok none) h in
    subst (λ o. merge_overrides c o k ≡ ok o) (Result-ok_injective same)
      (h ∙ ap ok (sym (Result-ok_injective same)))
merge_overrides_idem c k (some user) r h =
    let (r', one, same) = >>=-eq-ok (merge_overrides_of c k user) (λ r. ok (some r)) h in
    subst (λ o. merge_overrides c o k ≡ ok o) (Result-ok_injective same)
      (ground (arith, merge_overrides_of_idem c k user r' one))

-- A map for server.properties, which is not nil.
abbrev pub HasServerFile : OverridesSpec → Type 0
HasServerFile o =
    (files : Dict (Option (Dict String))) × (m : Dict String) × (o.config_overrides ≡ some files)
    × (lookup server_properties_filename files ≡ some (some m))

-- After a merge the overrides have one.
pub merge_overrides-HasServerFile :
    (c : Constants) (k : KafkaConfig) (user : OverridesSpec) (merged : Option OverridesSpec)
    → merge_overrides c (some user) k ≡ ok merged
    → (own : OverridesSpec) × (merged ≡ some own) × HasServerFile own
unfolding merge_overrides
merge_overrides-HasServerFile c k user merged h =
    let (r, one, same) = >>=-eq-ok (merge_overrides_of c k user) (λ r. ok (some r)) h in
    let (files, filled, entries) = merge_overrides_of-entries c k user r one in
    let ((values, present), _) =
      merge_files-IsFilled (or_empty user.config_overrides) files (default_files c)
        (default_files-NodupKeys c) (default_files-All c) filled in
    elim (Option-cases (lookup server_properties_filename files)) [
      | inl missing ↦ absurd (ground (arith, values.0))
      | inr (none, nil) ↦ absurd (ground (arith, values.0))
      | inr (some m, there) ↦ (
        r,
        sym (Result-ok_injective same),
        (files, m, ap (λ o. o.config_overrides) entries, there),
      )
    ]
