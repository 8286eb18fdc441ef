-- ===== src/Wire/Msgs/Parsing.antt =====
-- The receiving side reads the packets that mqtt_msgs.py builds.
use sidewire.Prelude.{
  ℕ, ◌+◌, ◌/◌, ◌^◌, ◌≤◌, ◌<◌, bit_and, ◌≡◌, ◌⊎◌, inl, inr, refl, ap, Bool, true, false, none, some,
  [], ◌∷◌, ◌++◌, append_assoc, if◌then◌else◌, leb, Bool-cases, length, length-append, arith,
}
use sidewire.Prelude.Results.{ok, Result-cases}
use sidewire.Aionetiface.{Aionetiface, Bytes, Str, Text, str, bytes}
use sidewire.Wire.Struct.{pack}
use sidewire.Wire.Varint.{mqtt_encode_varint, mqtt_decode_varint}
use sidewire.Wire.Packet.{
  MqttEnum, to_int, MqttPacket, mqtt_build_header, new_packet, build, mqtt_parse_packet,
  mqtt_enc_str, mqtt_parse_publish,
}
use sidewire.Wire.Packet.RoundTrip.{first_byte, parsed, parse_framed}
use sidewire.Wire.Packet.Publish.{parse_publish-acked}
use sidewire.Wire.Msgs.{build_publish, build_ping}

qos_of : (d : Bool) → 0 < bit_and ((if d then 10 else 2) / 2) 0x03
qos_of true = omega arith
qos_of false = omega arith

module _ (lib : Aionetiface) (topic : Str) (payload : Text) (packet_id : Bytes) (dup : Bool) where
  abbrev topic_bytes : Bytes
  topic_bytes = lib.to_b (str topic)

  abbrev pub publish_body : Bytes → Bytes
  publish_body prefix = prefix ++ (topic_bytes ++ (packet_id ++ lib.to_b payload))

  abbrev pub publish_flags : ℕ
  publish_flags = if dup then 10 else 2

  -- A PUBLISH is its first byte, the length of the body, and the body.
  build_publish_lem :
      (raw : Bytes)
      → build_publish lib topic payload packet_id dup ≡ ok raw
      → (prefix : Bytes) × (pack 2 (length topic_bytes) ≡ ok prefix)
        × (raw
            ≡ first_byte MqttEnum.publish publish_flags
              ∷ (mqtt_encode_varint (length (publish_body prefix)) ++ publish_body prefix))
  unfolding build_publish mqtt_enc_str first_byte to_int
  build_publish_lem raw h = elim (Result-cases (pack 2 (length topic_bytes))) [
    | inl (x, e) ↦ absurd (ground arith)
    | inr (prefix, e) ↦ (prefix, e, by_dup dup prefix e h)
  ]
    where
      by_dup :
          (d : Bool) (prefix : Bytes)
          → pack 2 (length topic_bytes) ≡ ok prefix
          → build_publish lib topic payload packet_id d ≡ ok raw
          → raw
            ≡ first_byte MqttEnum.publish (if d then 10 else 2)
              ∷ (mqtt_encode_varint (length (publish_body prefix)) ++ publish_body prefix)
      by_dup true prefix e h =
          ground (arith, append_assoc prefix topic_bytes (packet_id ++ lib.to_b payload))
      by_dup false prefix e h =
          ground (arith, append_assoc prefix topic_bytes (packet_id ++ lib.to_b payload))

  -- What build_publish builds, the receiver parses back, whatever follows it on the stream: a PUBLISH
  -- with the topic and the payload as the conversions carry them, and the packet identifier, with or
  -- without the DUP flag. The identifier has two bytes, and the packet is shorter than 128 ^ 4 bytes.
  pub parse-build_publish :
      (raw rest : Bytes)
      → build_publish lib topic payload packet_id dup ≡ ok raw
      → length packet_id ≡ 2
      → length raw < 128 ^ 4
      → (pkt : MqttPacket) × (mqtt_parse_packet (raw ++ rest) ≡ ok pkt)
        × (pkt.type ≡ MqttEnum.publish)
        × (mqtt_parse_publish lib pkt
            ≡ ok (some (lib.to_s (bytes (lib.to_b (str topic))), lib.to_b payload, some packet_id)))
  parse-build_publish raw rest h hid short =
      let (prefix, hp, e) = build_publish_lem raw h in
      let body : Bytes = publish_body prefix in
      let pkt : MqttPacket = parsed MqttEnum.publish publish_flags body in
      let fits : length body < 128 ^ 4 =
        omega (arith, ap length e, length-append (mqtt_encode_varint (length body)) body) in
      (
        pkt,
        rw (e, append_assoc (mqtt_encode_varint (length body)) body rest)
            (parse_framed MqttEnum.publish publish_flags body rest (ground arith) fits),
        refl,
        parse_publish-acked lib pkt prefix topic_bytes packet_id (lib.to_b payload) refl hp hid
            (qos_of dup),
      )

ping_bytes : build (parsed MqttEnum.pingreq 0 []) ≡ 0xc0 ∷ 0x00 ∷ []
unfolding build mqtt_build_header mqtt_encode_varint
ping_bytes = refl

ping_packet : new_packet (to_int MqttEnum.pingreq) 0 ≡ ok (parsed MqttEnum.pingreq 0 [])
unfolding new_packet
ping_packet = refl

ping_parses : mqtt_parse_packet (0xc0 ∷ 0x00 ∷ []) ≡ ok (parsed MqttEnum.pingreq 0 [])
unfolding mqtt_parse_packet mqtt_decode_varint
ping_parses = refl

-- A ping is due exactly if `keep_alive` has elapsed since the last one. If it is due, the time of the
-- last ping becomes now and the bytes parse as a PINGREQ; otherwise nothing changes.
pub build_ping_cases :
    (last_ping keep_alive now : ℕ)
    → ((last_ping + keep_alive ≤ now)
        × (buf : Bytes) × (build_ping last_ping keep_alive now ≡ ok (now, some buf))
        × (mqtt_parse_packet buf ≡ ok (parsed MqttEnum.pingreq 0 [])))
      ⊎ ((now < last_ping + keep_alive)
          × (build_ping last_ping keep_alive now ≡ ok (last_ping, none)))
unfolding build_ping
build_ping_cases last_ping keep_alive now = elim (Bool-cases (leb (last_ping + keep_alive) now)) [
  | inl due ↦
      inl (ground arith, (0xc0 ∷ 0x00 ∷ []), ground (arith, ping_packet, ping_bytes), ping_parses)
  | inr early ↦ inr (ground arith, ground arith)
]
