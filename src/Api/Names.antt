-- ===== src/Api/Names.antt =====
-- api/v1alpha1/kafkacluster_types.go: port names and numbers, volume names and directories.
use kafka_operator.Prelude.{ℕ, String, ◌<>◌}

-- image.go
abbrev pub default_product_version : String
default_product_version = "3.9.0"

abbrev pub default_product_name : String
default_product_name = "kafka"

-- config file names
abbrev pub log4j_file_name : String
log4j_file_name = "log4j.properties"

abbrev pub server_file_name : String
server_file_name = "server.properties"

-- ports
abbrev pub client_port_name : String
client_port_name = "kafka"

abbrev pub secure_client_port_name : String
secure_client_port_name = "kafka-tls"

abbrev pub metrics_port_name : String
metrics_port_name = "metrics"

abbrev pub bootstrap_port_name : String
bootstrap_port_name = "bootstrap"

abbrev pub client_port : ℕ
client_port = 9092

abbrev pub security_client_port : ℕ
security_client_port = 9093

abbrev pub internal_port : ℕ
internal_port = 19092

abbrev pub security_internal_port : ℕ
security_internal_port = 19093

abbrev pub metrics_port : ℕ
metrics_port = 9606

abbrev pub bootstrap_port : ℕ
bootstrap_port = 9094

abbrev pub bootstrap_secure_port : ℕ
bootstrap_secure_port = 9095

-- volumes
abbrev pub data_dir_name : String
data_dir_name = "data"

abbrev pub log_config_dir_name : String
log_config_dir_name = "log-config"

abbrev pub config_dir_name : String
config_dir_name = "config"

abbrev pub log_dir_name : String
log_dir_name = "log"

abbrev pub listener_broker : String
listener_broker = "listener-broker"

abbrev pub listener_bootstrap : String
listener_bootstrap = "listener-bootstrap"

abbrev pub kerberos_name : String
kerberos_name = "listener-kerberos"

-- directories
abbrev pub kubedoop_root : String
kubedoop_root = "/kubedoop"

abbrev pub data_dir : String
data_dir = kubedoop_root <> "/data"

abbrev pub config_dir : String
config_dir = kubedoop_root <> "/config"

abbrev pub log_config_dir : String
log_config_dir = kubedoop_root <> "/log_config"

abbrev pub log_dir : String
log_dir = kubedoop_root <> "/log"

abbrev pub listener_broker_dir : String
listener_broker_dir = kubedoop_root <> "/listener-broker"

abbrev pub listener_bootstrap_dir : String
listener_bootstrap_dir = kubedoop_root <> "/listener-bootstrap"

abbrev pub kerberos_dir : String
kerberos_dir = kubedoop_root <> "/kerberos"

abbrev pub kerberos_krb5_path : String
kerberos_krb5_path = kerberos_dir <> "/krb5.conf"
