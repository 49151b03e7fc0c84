-- ===== src/Discovery/Bootstrap.antt =====
-- internal/controller/discovery.go against internal/pkg/listener_builder.go: clients split the
-- servers at commas, and discovery looks for what the bootstrap listener offers.
use kafka_operator.Prelude.{
  ℕ, suc, String, ◌<>◌, true, some, List, [], ◌∷◌, map, ◌≡◌, refl, inl, inr, Bool-cases, ok, ◌==◌,
  if◌then◌else◌,
}
use kafka_operator.Prelude.Lists.{All, All-map, All-map_image}
use kafka_operator.Prelude.Dict.{Dict, lookup, set, lookup-set}
use kafka_operator.Prelude.Int.{ℤ, pos, negsuc}
use kafka_operator.Prelude.Text.{split}
use kafka_operator.Prelude.Text.Decimal.{itoa, itoa_int, lacks-itoa}
use kafka_operator.Prelude.Text.Join.{lacks, lacks-append, split-join}
use kafka_operator.Security.{
  KafkaSecurity, client_port, client_port_name, bootstrap_port, bootstrap_port_name,
  is_kerberos_enabled, tls_enabled,
}
use kafka_operator.Ports.{RoleGroupInfo, kafka_container_ports}
use kafka_operator.ListenerBuilder.{
  Listener, PortSpec, get_object, add_labels, role_group_bootstrap_listener, new_listener_builder,
  container_port_to_listener_port, label_listener_bootstrap, label_value_true,
}
use kafka_operator.Discovery.{HostPort, server, make_bootstrap_servers, port_name}

lacks-itoa_int : (n : ℤ) → lacks b',' (itoa_int n) ≡ true
unfolding itoa_int
lacks-itoa_int (pos n) = lacks-itoa n
lacks-itoa_int (negsuc n) =
    lacks-append b',' "-" (itoa (suc n)) (unfold lacks in refl) (lacks-itoa (suc n))

lacks-server : (h : HostPort) → lacks b',' h.host ≡ true → lacks b',' (server h) ≡ true
unfolding server
lacks-server h plain =
    lacks-append b',' h.host (":" <> itoa_int h.port) plain
      (lacks-append b',' ":" (itoa_int h.port) (unfold lacks in refl) (lacks-itoa_int h.port))

-- A client that splits the bootstrap servers at commas gets each server's host and port, if no
-- host has a comma and there is a server.
pub split-make_bootstrap_servers :
    (h : HostPort) (hs : List HostPort)
    → All (λ h. lacks b',' h.host ≡ true) (h ∷ hs)
    → split b',' (make_bootstrap_servers (h ∷ hs)) ≡ map server (h ∷ hs)
unfolding make_bootstrap_servers
split-make_bootstrap_servers h hs plain = split-join "," (server h) (map server hs) (
    All-map_image (λ s. lacks b',' s ≡ true) server (h ∷ hs)
      (All-map (λ h plain. lacks-server h plain) (h ∷ hs) plain))

-- the ports of that name
abbrev pub ports_named : String → List PortSpec → List ℕ
ports_named name [] = []
ports_named name (p ∷ ps) =
    if p.name == name then p.port ∷ ports_named name ps else ports_named name ps

bootstrap_listener_ports :
    (k : KafkaSecurity)
    → ports_named (port_name k) (container_port_to_listener_port (kafka_container_ports k))
      ≡ (if is_kerberos_enabled k then bootstrap_port k else client_port k) ∷ []
unfolding port_name container_port_to_listener_port kafka_container_ports client_port_name
    bootstrap_port_name ◌==◌
bootstrap_listener_ports k = elim (Bool-cases (is_kerberos_enabled k)) [
  | inl kerberos ↦ elim (Bool-cases (tls_enabled k)) [
    | inl tls ↦ rw (kerberos, tls) refl
    | inr clear ↦ rw (kerberos, clear) refl
  ]
  | inr plain ↦ elim (Bool-cases (tls_enabled k)) [
    | inl tls ↦ rw (plain, tls) refl
    | inr clear ↦ rw (plain, clear) refl
  ]
]

-- The bootstrap listener of a role group, whose labels are not nil, has the label that discovery
-- selects by and keeps its other labels; of the port that discovery looks for it has exactly one,
-- the bootstrap port with Kerberos and the client port without.
pub get_object-bootstrap_listener :
    (labels : Dict String) (class : String) (info : RoleGroupInfo) (k : KafkaSecurity)
    → (l : Listener) × (labels' : Dict String) × (get_object
          (role_group_bootstrap_listener (some labels) class info k)
        ≡ ok l)
      × (l.class_name ≡ class)
      × (l.meta.labels ≡ some labels')
      × ((key : String)
          → lookup key labels' ≡ (
              if label_listener_bootstrap == key then some label_value_true else lookup key labels))
      × (ports_named (port_name k) l.ports
          ≡ (if is_kerberos_enabled k then bootstrap_port k else client_port k) ∷ [])
unfolding get_object role_group_bootstrap_listener new_listener_builder add_labels
get_object-bootstrap_listener labels class info k = (
  _,
  set label_listener_bootstrap label_value_true labels,
  refl,
  refl,
  refl,
  λ key. lookup-set key label_listener_bootstrap label_value_true labels,
  bootstrap_listener_ports k,
)
