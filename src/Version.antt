-- ===== src/Version.antt =====
-- internal/util/version/version.go: what the binary says of itself.
use kafka_operator.Prelude.{String, ◌<>◌, Option, none, some}

-- the variables' values in the source, which a build may replace
abbrev pub build_version : String
build_version = "0.0.0-dev"

abbrev pub build_time : String
build_time = "N/A"

abbrev pub git_commit : String
git_commit = "N/A"

-- package runtime
pub record Runtime : Type 0 where
  pub version : String
  pub compiler : String
  pub go_os : String
  pub go_arch : String

pub record AppInfo : Type 0 where
  pub name : String
  pub app_version : String
  pub build_time : String
  pub git_commit : String
  pub go_version : String
  pub compiler : String
  pub platform : String

unfoldable pub new_app_info : Runtime → String → AppInfo
new_app_info runtime name = record {
  name = name;
  app_version = build_version;
  build_time = build_time;
  git_commit = git_commit;
  go_version = runtime.version;
  compiler = runtime.compiler;
  platform = runtime.go_os <> "/" <> runtime.go_arch;
}

-- `String`, with encoding/json's `Marshal`, which may fail
unfoldable pub app_info_string : (AppInfo → Option String) → AppInfo → String
app_info_string marshal a = elim (marshal a) [
  | none ↦ "Error marshaling AppInfo"
  | some data' ↦ data'
]
