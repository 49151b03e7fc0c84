-- ===== src/Ports.antt =====
-- internal/controller/util.go: the names of a role group's resources and the container's ports.
pub mod Bounds
use kafka_operator.Prelude.{String, ◌<>◌, List, [], ◌∷◌, ◌++◌, if◌then◌else◌}
use kafka_operator.Api.Library.{ContainerPort}
use kafka_operator.Api.Names
use kafka_operator.Security.{
  KafkaSecurity, client_port, client_port_name, bootstrap_port, is_kerberos_enabled,
}

-- operator-go's RoleGroupInfo, with its full name and its labels and annotations as the library
-- computes them
pub record RoleGroupInfo : Type 0 where
  pub full_name : String
  pub cluster_name : String
  pub role_name : String
  pub role_group_name : String

abbrev pub role_group_config_map_name : RoleGroupInfo → String
role_group_config_map_name info = info.full_name

abbrev pub service_account_name : String → String
service_account_name cr_name = cr_name

unfoldable pub bootstrap_listener_name : RoleGroupInfo → String
bootstrap_listener_name info = info.full_name <> "-bootstrap"

unfoldable pub kafka_container_ports : KafkaSecurity → List ContainerPort
kafka_container_ports k =
    let ports : List ContainerPort =
      record { name = client_port_name k; container_port = client_port k; protocol = "TCP" }
      ∷ record {
        name = Names.metrics_port_name;
        container_port = Names.metrics_port;
        protocol = "TCP";
      }
      ∷ [] in
    if is_kerberos_enabled k
    then ports
      ++ record {
        name = Names.bootstrap_port_name;
        container_port = bootstrap_port k;
        protocol = "TCP";
      }
        ∷ []
    else ports
