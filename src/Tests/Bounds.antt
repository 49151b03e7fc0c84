-- ===== src/Tests/Bounds.antt =====
-- Theorems on the container's ports.
use kafka_operator.Prelude.Lists.{All}
use kafka_operator.Ports.{kafka_container_ports}
use kafka_operator.Ports.Bounds.{AreDistinct, IsAccepted, kafka_container_ports-IsAccepted}
use kafka_operator.Tests.Data.{secured_security}

kafka_container_ports-IsAccepted_example :
    All IsAccepted (kafka_container_ports secured_security)
    × AreDistinct (kafka_container_ports secured_security)
kafka_container_ports-IsAccepted_example = kafka_container_ports-IsAccepted secured_security
