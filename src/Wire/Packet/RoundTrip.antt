-- ===== src/Wire/Packet/RoundTrip.antt =====
-- mqtt_parse_packet reads back what MQTTPacket.build wrote.
use sidewire.Prelude.{
  ℕ, ◌+◌, ◌*◌, ◌/◌, ◌%◌, ◌^◌, ◌<◌, bit_and, bit_or, ◌≡◌, refl, ap, [], ◌∷◌, ◌++◌, append_assoc,
  length, slice-append_at, arith,
}
use sidewire.Prelude.Results.{ok}
use sidewire.Aionetiface.{Bytes}
use sidewire.Wire.Bits.{and_low4, or_nibbles}
use sidewire.Wire.Varint.{mqtt_encode_varint, mqtt_decode_varint}
use sidewire.Wire.Varint.Coding.{decode-encode}
use sidewire.Wire.Packet.{
  MqttEnum, to_int, mqtt_enum, MqttPacket, new_packet, mqtt_build_header, build, mqtt_parse_packet,
}

mqtt_enum-to_int : (t : MqttEnum) → mqtt_enum (to_int t) ≡ ok t
unfolding mqtt_enum to_int
mqtt_enum-to_int MqttEnum.connect = refl
mqtt_enum-to_int _ = refl

to_int-lt : (t : MqttEnum) → to_int t < 16
unfolding to_int
to_int-lt MqttEnum.connect = omega arith
to_int-lt _ = omega arith

-- The first byte of a header, and its two halves.
unfoldable pub first_byte : (t : MqttEnum) (flags : ℕ) → ℕ
unfolding to_int
first_byte t flags = to_int t * 16 + flags

first_byte-lt : (t : MqttEnum) (flags : ℕ) → flags < 16 → first_byte t flags < 256
unfolding first_byte
first_byte-lt t flags h = omega (arith, to_int-lt t)

join_nibbles : (t f : ℕ) → t < 16 → f < 16 → bit_or (t * 16) f ≡ t * 16 + f
join_nibbles t f ht hf =
    let hi : (t * 16 + f) / 16 ≡ t = omega arith in
    let lo : (t * 16 + f) % 16 ≡ f = omega arith in
    rw (hi, lo) at (or_nibbles (t * 16 + f) (omega arith))

pub build_header_lem :
    (n : ℕ) (t : MqttEnum) (flags : ℕ)
    → flags < 16
    → mqtt_build_header n t flags ≡ first_byte t flags ∷ mqtt_encode_varint n
unfolding mqtt_build_header first_byte
build_header_lem n t flags h =
    ground (arith, and_low4 flags (omega arith), join_nibbles (to_int t) flags, to_int-lt t)

abbrev pub parsed : MqttEnum → ℕ → Bytes → MqttPacket
parsed t flags body = record {
  type = t;
  flags = flags;
  variable_header = [];
  payload = [];
  body = body;
}

new_packet_lem :
    (t : MqttEnum) (flags : ℕ)
    → flags < 16
    → new_packet (first_byte t flags / 16) (bit_and (first_byte t flags) 0x0f)
      ≡ ok (parsed t flags [])
unfolding new_packet
new_packet_lem t flags h =
    let hi : first_byte t flags / 16 ≡ to_int t = unfold first_byte in omega arith in
    let lo : first_byte t flags % 16 ≡ flags = unfold first_byte in omega arith in
    rw (and_low4 (first_byte t flags) (first_byte-lt t flags h), hi, lo, mqtt_enum-to_int)

-- A header, the encoded length of a body, the body, and whatever follows.
pub parse_framed :
    (t : MqttEnum) (flags : ℕ) (body rest : Bytes)
    → flags < 16
    → length body < 128 ^ 4
    → mqtt_parse_packet (first_byte t flags ∷ (mqtt_encode_varint (length body) ++ (body ++ rest)))
      ≡ ok (parsed t flags body)
unfolding mqtt_parse_packet
parse_framed t flags body rest hf hn =
    let encoded : Bytes = mqtt_encode_varint (length body) in
    rw (decode-encode (length body) (first_byte t flags ∷ []) (body ++ rest) hn) (
      rw (new_packet_lem t flags hf) (
        ap (λ b. ok (parsed t flags b))
          (slice-append_at (1 + length encoded) (1 + length encoded + length body)
            (first_byte t flags ∷ encoded) body rest (omega arith) refl)))

-- Parsing a built packet gives its type, flags and body, whatever follows it on the stream, if the
-- flags fit four bits and the body is shorter than 128 ^ 4 bytes.
pub parse-build :
    (pkt : MqttPacket) (rest : Bytes)
    → pkt.flags < 16
    → length (pkt.variable_header ++ pkt.payload) < 128 ^ 4
    → mqtt_parse_packet (build pkt ++ rest)
      ≡ ok (parsed pkt.type pkt.flags (pkt.variable_header ++ pkt.payload))
unfolding build
parse-build pkt rest hf hn =
    let body : Bytes = pkt.variable_header ++ pkt.payload in
    rw
      (
        build_header_lem (length body) pkt.type pkt.flags hf,
        append_assoc (mqtt_encode_varint (length body)) body rest,
      )
      (parse_framed pkt.type pkt.flags body rest hf hn)

-- The first bytes of a stream that starts with a packet say how long the packet is.
pub frame_length :
    (first : ℕ) (body rest : Bytes)
    → length body < 128 ^ 4
    → mqtt_decode_varint (first ∷ (mqtt_encode_varint (length body) ++ (body ++ rest))) 1
      ≡ ok (length body, length (mqtt_encode_varint (length body)))
frame_length first body rest h = decode-encode (length body) (first ∷ []) (body ++ rest) h
