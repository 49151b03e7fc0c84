-- ===== src/Tests/ConfigMap.antt =====
-- Runs and theorems on the config map.
use kafka_operator.Prelude.{
  String, none, some, List, [], ◌∷◌, Option, ◌≡◌, refl, ok, ◌==◌, is_set, ◌>>=◌,
}
use kafka_operator.Prelude.Dict.{Dict, lookup, set, copy, or_else}
use kafka_operator.Prelude.Text.{join}
use kafka_operator.Api.Library.{OverridesSpec}
use kafka_operator.Role.{uses_kerberos}
use kafka_operator.Security.{
  is_kerberos_enabled, any_kerberos, tls_internal_secret_class, tls_server_secret_class,
  tls_client_authentication_class,
}
use kafka_operator.Security.Settings.{
  config_settings, client_settings, bootstrap_settings, kerberos_settings, internal_settings,
}
use kafka_operator.Config.{default_files, or_empty, server_properties_filename}
use kafka_operator.Config.Files.{value_of, default_of}
use kafka_operator.ConfigMap.{
  Renderers, KafkaConfigmapBuilder, PropertyFile, server_properties, security_properties,
  log4j_properties, filename, build_server_properties, build_security_properties,
  build_log4j_properties, build_files, with_server_data, copy_into, server_data,
}
use kafka_operator.ConfigMap.Server.{server_properties-of_merge, build_server_properties_again}
use kafka_operator.ConfigMap.Items.{visits, rendered, item, build_files-items}
use kafka_operator.Tests.Data.{constants, kerberos_only}
use kafka_operator.Tests.Config.{default, overrides, merged_overrides, overrides_merged}

-- `key=value` lines, and fixed texts for what the logging generator makes
abbrev lines : Dict String → List String
lines [] = []
lines ((k, v) ∷ m) = join (k ∷ v ∷ []) "=" ∷ lines m

abbrev text : Option (Dict String) → String
text none = ""
text (some m) = join (lines m) "\n"

abbrev pub renderers : Renderers String
renderers = record {
  marshal = λ m. ok (text m);
  new_config_generator = λ logging container file format. ok file;
  content = λ generator. ok generator;
  make_vector_yaml = λ namespace cluster role group aggregator. ok aggregator;
}

abbrev pub builder : Option OverridesSpec → KafkaConfigmapBuilder
builder o = record {
  name = "simple-broker-default";
  items = [];
  owner_namespace = "default";
  cluster_config = none;
  kafka_security = kerberos_only;
  overrides = o;
  role_group_config = none;
  cluster_name = "simple";
  role_name = "broker";
  role_group_name = "default";
}

server_properties-of_merge_example :
    (entries : Dict String) × (build_server_properties renderers (builder (some merged_overrides))
      ≡ (renderers.marshal (some entries) >>= λ content.
          ok (content, with_server_data (some entries) (builder (some merged_overrides)))))
    × ((key : String)
        → lookup key entries
          ≡ or_else (lookup key (config_settings kerberos_only)) (
              or_else
                (value_of server_properties_filename key (or_empty overrides.config_overrides))
                (default_of server_properties_filename key (default_files constants))))
server_properties-of_merge_example =
    server_properties-of_merge renderers constants default overrides (some merged_overrides)
      (builder (some merged_overrides)) overrides_merged refl

abbrev after_build : KafkaConfigmapBuilder
after_build =
    with_server_data
      (some (
        copy (or_empty (server_data (builder (some merged_overrides))))
          (config_settings kerberos_only)))
      (builder (some merged_overrides))

abbrev server_text : String
server_text = text (
    some (
      copy (or_empty (server_data (builder (some merged_overrides))))
        (config_settings kerberos_only)))

server_built :
    build_server_properties renderers (builder (some merged_overrides))
    ≡ ok (server_text, after_build)
unfolding build_server_properties server_data copy_into copy with_server_data config_settings
    client_settings bootstrap_settings kerberos_settings internal_settings lookup set ◌==◌ is_set
    is_kerberos_enabled any_kerberos uses_kerberos tls_internal_secret_class tls_server_secret_class
    tls_client_authentication_class
server_built = refl

build_server_properties_again_example :
    build_server_properties renderers after_build ≡ ok (server_text, after_build)
build_server_properties_again_example =
    build_server_properties_again renderers (builder (some merged_overrides)) after_build
      server_text server_built

abbrev order : List PropertyFile
order = log4j_properties ∷ server_properties ∷ security_properties ∷ []

visited_once : (f : PropertyFile) → visits f order ≡ 1
visited_once server_properties = refl
visited_once security_properties = refl
visited_once log4j_properties = refl

abbrev content : PropertyFile → String
content server_properties = server_text
content security_properties = "networkaddress.cache.ttl=30\nnetworkaddress.cache.negative.ttl=0"
content log4j_properties = "kafka.log4j.xml"

files_rendered :
    (f : PropertyFile) → rendered renderers f (builder (some merged_overrides)) ≡ ok (content f)
unfolding build_security_properties build_log4j_properties copy_into copy server_data
    config_settings client_settings bootstrap_settings kerberos_settings internal_settings lookup
    set ◌==◌ is_set is_kerberos_enabled any_kerberos uses_kerberos tls_internal_secret_class
    tls_server_secret_class tls_client_authentication_class join
files_rendered server_properties = refl
files_rendered security_properties = refl
files_rendered log4j_properties = refl

build_files-items_example :
    (b' : KafkaConfigmapBuilder) × (build_files renderers order (builder (some merged_overrides))
      ≡ ok b')
    × ((f : PropertyFile)
        → lookup (filename f) b'.items ≡ item (content f) (lookup (filename f) []))
build_files-items_example =
    build_files-items renderers order (builder (some merged_overrides)) content visited_once
      files_rendered
