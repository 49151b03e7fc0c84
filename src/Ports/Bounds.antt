-- ===== src/Ports/Bounds.antt =====
-- internal/controller/util.go: the container's ports are ones that Kubernetes accepts.
use Prim.Native.Char.{Char, code}
use Prim.Native.Nat.{ℕ, ◌+◌, ◌≤◌}
use kafka_operator.Prelude.{
  String, Bool, true, false, not, if◌then◌else◌, ◌&&◌, ◌||◌, List, [], ◌∷◌, map, ◌≡◌, arith, ltb,
  Bool-cases, inl, inr, ◌==◌,
}
use kafka_operator.Prelude.Lists.{All, contains}
use kafka_operator.Api.Library.{ContainerPort}
use kafka_operator.Security.{
  KafkaSecurity, bootstrap_port, client_port, client_port_name, is_kerberos_enabled, tls_enabled,
}
use kafka_operator.Ports.{kafka_container_ports}

abbrev length_of : String → ℕ
length_of String.[] = 0
length_of (String.◌∷◌ c s) = length_of s + 1

abbrev is_between : ℕ → ℕ → Char → Bool
is_between low high c = not (ltb (code c) low) && not (ltb high (code c))

abbrev is_letter : Char → Bool
is_letter c = is_between b'a' b'z' c

abbrev is_dash : Char → Bool
is_dash c = is_between b'-' b'-' c

-- a lower-case letter or a digit
abbrev is_alphanumeric : Char → Bool
is_alphanumeric c = is_letter c || is_between b'0' b'9' c

abbrev has_letter : String → Bool
has_letter String.[] = false
has_letter (String.◌∷◌ c s) = is_letter c || has_letter s

-- Lower-case letters, digits and dashes of which none is at either end or next to another; the
-- first argument tells whether a dash may come next.
abbrev is_dashed : Bool → String → Bool
is_dashed after String.[] = after
is_dashed after (String.◌∷◌ c s) =
    if is_alphanumeric c then is_dashed true s else is_dash c && after && is_dashed false s

-- Kubernetes wants an IANA service name, of one to fifteen such characters with a letter among them,
-- and a number of 1 to 65535.
abbrev pub IsAccepted : ContainerPort → Type 0
IsAccepted p =
    (1 ≤ length_of p.name)
    × (length_of p.name ≤ 15)
    × (is_dashed false p.name ≡ true)
    × (has_letter p.name ≡ true)
    × (1 ≤ p.container_port)
    × (p.container_port ≤ 65535)

abbrev has_number : ℕ → List ContainerPort → Bool
has_number n [] = false
has_number n (p ∷ ps) =
    (not (ltb n p.container_port) && not (ltb p.container_port n)) || has_number n ps

-- No two ports share their name or their number.
abbrev pub AreDistinct : List ContainerPort → Type 0
AreDistinct [] = Unit
AreDistinct (p ∷ ps) =
    (contains (map (λ (q : ContainerPort). q.name) ps) p.name ≡ false)
    × (has_number p.container_port ps ≡ false)
    × AreDistinct ps

-- With and without TLS and Kerberos, every port of the container has a name and a number that
-- Kubernetes accepts, and no two share either.
pub kafka_container_ports-IsAccepted :
    (k : KafkaSecurity)
    → All IsAccepted (kafka_container_ports k) × AreDistinct (kafka_container_ports k)
unfolding kafka_container_ports client_port client_port_name bootstrap_port contains ◌==◌
kafka_container_ports-IsAccepted k = elim (Bool-cases (tls_enabled k)) [
  | inl tls ↦ elim (Bool-cases (is_kerberos_enabled k)) [
    | inl kerberos ↦ rw (tls, kerberos) (ground arith)
    | inr plain ↦ rw (tls, plain) (ground arith)
  ]
  | inr clear ↦ elim (Bool-cases (is_kerberos_enabled k)) [
    | inl kerberos ↦ rw (clear, kerberos) (ground arith)
    | inr plain ↦ rw (clear, plain) (ground arith)
  ]
]
