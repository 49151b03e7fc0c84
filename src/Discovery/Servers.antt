-- ===== src/Discovery/Servers.antt =====
-- internal/controller/discovery.go: which servers the config map names.
use mathlib.Core.List.{append_assoc, append-nil}
use kafka_operator.Prelude.{
  String, ◌<>◌, Bool, true, false, ◌&&◌, none, some, List, [], ◌∷◌, ◌++◌, ◌≡◌, refl, inl, inr,
  arith, Result, ok, err, Option-cases, Result-cases, if◌then◌else◌, ◌>>=◌,
}
use kafka_operator.Prelude.Dict.{lookup, set}
use kafka_operator.ListenerBuilder.{label_listener_bootstrap, label_value_true}
use kafka_operator.Discovery.{
  IngressAddress, ServedListener, HostPort, address_hosts, hosts_from, listener_hosts,
  make_bootstrap_servers, DiscoveryBuilder, build, port_name, kafka_discovery_key,
}

-- all addresses of all listeners that have a status
abbrev pub addresses : List ServedListener → List IngressAddress
addresses [] = []
addresses (l ∷ ls) = (elim l.ingress_addresses [ none ↦ [] | some addrs ↦ addrs ]) ++ addresses ls

-- Every address has the port.
abbrev pub serves : String → List IngressAddress → Bool
serves name [] = true
serves name (a ∷ as') =
    (elim (lookup name a.ports) [ none ↦ false | some p ↦ true ]) && serves name as'

-- the host and port of each address that has the port
abbrev pub servers : String → List IngressAddress → List HostPort
servers name [] = []
servers name (a ∷ as') = elim (lookup name a.ports) [
  | none ↦ servers name as'
  | some p ↦ record { host = a.address; port = p } ∷ servers name as'
]

abbrev pub missing {ℓ} : {A : Type ℓ} → String → Result A
missing name = err ("no service port with name " <> name)

address_hosts-servers :
    (result : List HostPort) (addrs : List IngressAddress) (name : String)
    → address_hosts result addrs name
      ≡ (if serves name addrs then ok (result ++ servers name addrs) else missing name)
unfolding address_hosts
address_hosts-servers result [] name = ground (arith, append-nil result)
address_hosts-servers result (a ∷ as') name = elim (Option-cases (lookup name a.ports)) [
  | inl none' ↦ ground arith
  | inr (p, found) ↦ ground (
    arith,
    append_assoc result (record { host = a.address; port = p } ∷ []) (servers name as'),
    address_hosts-servers (result ++ record { host = a.address; port = p } ∷ []) as' name,
  )
]

serves-append :
    (name : String) (as' bs : List IngressAddress)
    → serves name (as' ++ bs) ≡ (serves name as' && serves name bs)
serves-append name [] bs = refl
serves-append name (a ∷ as') bs = ground (arith, serves-append name as' bs)

servers-append :
    (name : String) (as' bs : List IngressAddress)
    → servers name (as' ++ bs) ≡ servers name as' ++ servers name bs
servers-append name [] bs = refl
servers-append name (a ∷ as') bs = ground (arith, servers-append name as' bs)

hosts_from-servers :
    (result : List HostPort) (ls : List ServedListener) (name : String)
    → hosts_from result ls name ≡ (
        if serves name (addresses ls)
        then ok (result ++ servers name (addresses ls))
        else missing name)
unfolding hosts_from
hosts_from-servers result [] name = ground (arith, append-nil result)
hosts_from-servers result (l ∷ ls) name = elim (Option-cases l.ingress_addresses) [
  | inl unset ↦ ground (arith, hosts_from-servers result ls name)
  | inr (addrs, set') ↦ ground (
    arith,
    address_hosts-servers result addrs name,
    hosts_from-servers (result ++ servers name addrs) ls name,
    serves-append name addrs (addresses ls),
    servers-append name addrs (addresses ls),
    append_assoc result (servers name addrs) (servers name (addresses ls)),
  )
]

-- `Build` fails if the API server's list does, or if an address of a listed listener lacks the
-- port; else it sets the entry KAFKA to the host and port of every address of every listener that
-- has a status, in their order, and leaves the rest.
pub build-servers :
    (list : String → String → Result (List ServedListener)) (b : DiscoveryBuilder)
    → build list b ≡ (
        list label_listener_bootstrap label_value_true >>= λ listeners.
        if serves (port_name b.kafka_security) (addresses listeners)
        then ok (record b {
          items =
              set kafka_discovery_key
                (make_bootstrap_servers
                  (servers (port_name b.kafka_security) (addresses listeners)))
                b.items;
        })
        else missing (port_name b.kafka_security))
unfolding build listener_hosts
build-servers list b = elim (Result-cases (list label_listener_bootstrap label_value_true)) [
  | inl panics ↦ rw panics refl
  | inr (inl (e, fails)) ↦ rw fails refl
  | inr (inr (listeners, listed)) ↦
      ground (arith, hosts_from-servers [] listeners (port_name b.kafka_security))
]
