-- ===== src/Service/Metrics.antt =====
-- internal/controller/service.go against internal/controller/util.go: the metrics service and the
-- container's metrics port.
use kafka_operator.Prelude.{
  String, Option, none, some, [], ◌∷◌, ◌≡◌, refl, sym, ap, arith, ok, >>=-eq-ok,
  Result-ok_injective, inl, inr, Bool-cases, ◌==◌, if◌then◌else◌,
}
use kafka_operator.Prelude.Dict.{
  Dict, lookup, set, copy, NodupKeys, lookup-set, lookup-set_self, lookup-copy,
}
use kafka_operator.Prelude.Text.Decimal.{itoa}
use kafka_operator.Api.Library.{Constants}
use kafka_operator.Api.Names
use kafka_operator.Security.{KafkaSecurity, is_kerberos_enabled, client_port_name, tls_enabled}
use kafka_operator.Ports.{RoleGroupInfo, kafka_container_ports}
use kafka_operator.Container.Parts.{numbers_of}
use kafka_operator.ListenerBuilder.{label_value_true}
use kafka_operator.Config.{write}
use kafka_operator.Service.{
  ServiceBuilder, new_role_group_service, new_service_builder, new_role_group_metrics_service,
  copied,
}

metrics_numbers :
    (k : KafkaSecurity)
    → numbers_of Names.metrics_port_name (kafka_container_ports k) ≡ Names.metrics_port ∷ []
unfolding kafka_container_ports client_port_name ◌==◌
metrics_numbers k = elim (Bool-cases (is_kerberos_enabled k)) [
  | inl kerberos ↦ elim (Bool-cases (tls_enabled k)) [
    | inl tls ↦ rw (kerberos, tls) refl
    | inr clear ↦ rw (kerberos, clear) refl
  ]
  | inr plain ↦ elim (Bool-cases (tls_enabled k)) [
    | inl tls ↦ rw (plain, tls) refl
    | inr clear ↦ rw (plain, clear) refl
  ]
]

lookup_empty : (key : String) → lookup {V = String} key [] ≡ none
unfolding lookup
lookup_empty key = refl

-- The metrics service offers the numbers that the container's metrics port has, whatever the
-- security settings; its annotations name that number for Prometheus, and its labels are the role
-- group's with the scrape label, where no label of the role group is repeated.
pub new_role_group_metrics_service-served :
    (c : Constants) (labels : Dict String) (annotations : Option (Dict String))
    (info : RoleGroupInfo) (k : KafkaSecurity)
    → NodupKeys labels
    → (own_labels own_annotations : Dict String) × ((new_role_group_metrics_service c
          (some labels)
          annotations
          info).labels
        ≡ some own_labels)
      × ((new_role_group_metrics_service c (some labels) annotations info).annotations
          ≡ some own_annotations)
      × (numbers_of Names.metrics_port_name
            (new_role_group_metrics_service c (some labels) annotations info).ports
          ≡ numbers_of Names.metrics_port_name (kafka_container_ports k))
      × (lookup "prometheus.io/port" own_annotations ≡ some (itoa Names.metrics_port))
      × ((key : String)
          → lookup key own_labels
            ≡ (if "prometheus.io/scrape" == key then some label_value_true else lookup key labels))
unfolding new_role_group_metrics_service ◌==◌
new_role_group_metrics_service-served c labels annotations info k once = (
  _,
  _,
  refl,
  refl,
  rw metrics_numbers (unfold ◌==◌ in refl),
  ground (
    arith,
    lookup-set "prometheus.io/port" "prometheus.io/scheme" "http" (
        set "prometheus.io/port" (itoa Names.metrics_port)
          (set "prometheus.io/scrape" label_value_true (copied annotations))),
    lookup-set_self "prometheus.io/port" (itoa Names.metrics_port)
        (set "prometheus.io/scrape" label_value_true (copied annotations)),
  ),
  λ key. ground (
    arith,
    lookup-set key "prometheus.io/scrape" label_value_true (copy [] labels),
    lookup-copy key [] labels once,
    lookup_empty key,
  ),
)

-- The service of a role group has its full name.
pub new_role_group_service-name :
    (c : Constants) (labels : Option (Dict String)) (info : RoleGroupInfo) (svc : ServiceBuilder)
    → new_role_group_service c labels info ≡ ok svc
    → svc.base_service_builder.name ≡ info.full_name
unfolding new_role_group_service new_service_builder
new_role_group_service-name c labels info svc h =
    let (own, _, same) = >>=-eq-ok (write "prometheus.io/scrape" label_value_true labels) _ h in
    sym (ap (λ (x : ServiceBuilder). x.base_service_builder.name) (Result-ok_injective same))
