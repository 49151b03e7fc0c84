-- ===== src/Listener/ProtocolMap.antt =====
-- internal/controller/listener.go: the broker's command line spells the protocol map. Kafka splits it
-- at commas, and each entry at its colon.
use kafka_operator.Prelude.{
  String, ◌<>◌, true, none, List, [], ◌∷◌, map, ◌≡◌, refl, arith, ok, ◌==◌, Result-ok_injective,
  ◌≢◌,
}
use kafka_operator.Prelude.Dict.{Dict, lookup, set, NodupKeys, SameMap, All-lookup, All-of_lookup}
use kafka_operator.Prelude.Lists.{All, All-map, All-map_image}
use kafka_operator.Prelude.Text.{join, split}
use kafka_operator.Prelude.Text.Join.{lacks, lacks-append, split-join}
use kafka_operator.Security.{KafkaSecurity}
use kafka_operator.Listener.{
  KafkaListenerConfig, listener_config, get_kafka_listener_config, protocol_entry,
  listener_security_protocol_map_string,
}

-- the name and the protocol of an entry, split at the colon
name_and_protocol : List String → String × String
name_and_protocol (name ∷ protocol ∷ []) = (name, protocol)
name_and_protocol _ = ("", "")

-- how Kafka reads the value of listener.security.protocol.map
pub read_protocol_map : String → Dict String
read_protocol_map s = map (λ part. name_and_protocol (split b':' part)) (split b',' s)

-- Neither a comma nor a colon occurs in the name and the protocol.
abbrev IsPlain : String × String → Type 0
IsPlain (name, protocol) =
    (lacks b',' name ≡ true)
    × (lacks b':' name ≡ true)
    × (lacks b',' protocol ≡ true)
    × (lacks b':' protocol ≡ true)

lacks-protocol_entry : (e : String × String) → IsPlain e → lacks b',' (protocol_entry e) ≡ true
lacks-protocol_entry (name, protocol) (n, _, p, _) =
    lacks-append b',' name (":" <> protocol) n
      (lacks-append b',' ":" protocol (unfold lacks in refl) p)

protocol_entry-join : (e : String × String) → protocol_entry e ≡ join (e.0 ∷ e.1 ∷ []) ":"
unfolding join
protocol_entry-join e = refl

name_and_protocol-protocol_entry :
    (e : String × String) → IsPlain e → name_and_protocol (split b':' (protocol_entry e)) ≡ e
unfolding name_and_protocol
name_and_protocol-protocol_entry (name, protocol) (_, n, _, p) =
    rw (protocol_entry-join, split-join ":" name (protocol ∷ []) (n, (p, tt))) refl

map_entries :
    (es : Dict String)
    → All IsPlain es
    → map (λ part. name_and_protocol (split b':' part)) (map protocol_entry es) ≡ es
map_entries [] h = refl
map_entries (e ∷ es) (p, h) = rw (name_and_protocol-protocol_entry e p, map_entries es h) refl

split-entries :
    (e : String × String) (es : Dict String)
    → All IsPlain (e ∷ es)
    → split b',' (listener_security_protocol_map_string (e ∷ es)) ≡ map protocol_entry (e ∷ es)
unfolding listener_security_protocol_map_string
split-entries e es (p, h) = split-join "," (protocol_entry e) (map protocol_entry es) (
  lacks-protocol_entry e p,
  All-map_image (λ s. lacks b',' s ≡ true) protocol_entry es (All-map lacks-protocol_entry es h),
)

read_protocol_map-entries :
    (e : String × String) (es : Dict String)
    → All IsPlain (e ∷ es)
    → read_protocol_map (listener_security_protocol_map_string (e ∷ es)) ≡ e ∷ es
unfolding read_protocol_map
read_protocol_map-entries e es h = rw (split-entries e es h) (map_entries (e ∷ es) h)

read_protocol_map_of_ne-nil :
    (es : Dict String)
    → es ≢ []
    → All IsPlain es
    → read_protocol_map (listener_security_protocol_map_string es) ≡ es
read_protocol_map_of_ne-nil [] ne h = absurd (ne refl)
read_protocol_map_of_ne-nil (e ∷ es) ne h = read_protocol_map-entries e es h

module _ (namespace : String) (k : KafkaSecurity) (object_name : String) where
  protocol_map-IsPlain :
      All IsPlain (listener_config namespace k object_name).listener_security_protocol_map
  unfolding listener_config set ◌==◌ lacks
  protocol_map-IsPlain = ground arith

  protocol_map_internal :
      lookup "INTERNAL" (listener_config namespace k object_name).listener_security_protocol_map
      ≢ none
  unfolding listener_config set lookup ◌==◌
  protocol_map_internal = ground arith

module _ (namespace : String) (k : KafkaSecurity) (object_name : String)
    (config : KafkaListenerConfig)
    (found : get_kafka_listener_config namespace k object_name ≡ ok config) where
  -- In whatever order the protocol map of the configuration is enumerated, Kafka reads from its text
  -- exactly the enumerated entries, and so the same map.
  pub read_protocol_map-string :
      (entries : Dict String)
      → NodupKeys entries
      → SameMap entries config.listener_security_protocol_map
      → read_protocol_map (listener_security_protocol_map_string entries) ≡ entries
  unfolding get_kafka_listener_config lookup
  read_protocol_map-string entries once same =
      let e = Result-ok_injective found in
      read_protocol_map_of_ne-nil entries
        (λ nil. protocol_map_internal namespace k object_name (cc (same "INTERNAL")))
        (All-of_lookup IsPlain entries once (λ n p l.
          All-lookup IsPlain _ n p (protocol_map-IsPlain namespace k object_name) (cc (same n))))
