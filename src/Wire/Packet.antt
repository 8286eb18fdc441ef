-- ===== src/Wire/Packet.antt =====
-- src/sidewire/mqtt/mqtt_packet.py and the packet types of mqtt_defs.py.
pub mod RoundTrip
pub mod Publish
use sidewire.Prelude.{
  ℕ, zero, suc, ◌+◌, ◌*◌, ◌/◌, bit_and, bit_or, Option, none, some, List, [], ◌∷◌, ◌++◌,
}
use sidewire.Prelude.{if◌then◌else◌, ltb, ◌==◌, length, take, drop, slice}
use sidewire.Prelude.Results.{Result, ok, raised, value_error, index_error, ◌>>=◌}
use sidewire.Aionetiface.{Aionetiface, Bytes, Str, Text, bytes}
use sidewire.Wire.Struct.{pack, unpack}
use sidewire.Wire.Varint.{mqtt_encode_varint, mqtt_decode_varint}

pub data MqttEnum : Type 0 where
  connect connack publish puback pubrec pubrel pubcomp : MqttEnum
  subscribe suback unsubscribe unsuback pingreq pingresp disconnect : MqttEnum

-- int(packet_type)
unfoldable pub to_int : MqttEnum → ℕ
to_int connect = 1
to_int connack = 2
to_int publish = 3
to_int puback = 4
to_int pubrec = 5
to_int pubrel = 6
to_int pubcomp = 7
to_int subscribe = 8
to_int suback = 9
to_int unsubscribe = 10
to_int unsuback = 11
to_int pingreq = 12
to_int pingresp = 13
to_int disconnect = 14

abbrev all_types : List MqttEnum
all_types =
    connect ∷ connack ∷ publish ∷ puback ∷ pubrec ∷ pubrel ∷ pubcomp ∷ subscribe ∷ suback
    ∷ unsubscribe ∷ unsuback ∷ pingreq ∷ pingresp ∷ disconnect ∷ []

find_type : ℕ → List MqttEnum → Result MqttEnum
unfolding to_int
find_type n [] = raised value_error
find_type n (t ∷ ts) = if to_int t == n then ok t else find_type n ts

-- MQTTEnum(n) raises ValueError for a number that is no packet type.
unfoldable pub mqtt_enum : ℕ → Result MqttEnum
unfolding find_type
mqtt_enum n = find_type n all_types

pub record MqttPacket : Type 0 where
  pub type : MqttEnum
  pub flags : ℕ
  pub variable_header : Bytes
  pub payload : Bytes
  pub body : Bytes

unfoldable pub new_packet : ℕ → ℕ → Result MqttPacket
unfolding mqtt_enum
new_packet packet_type flags = do
  t ← mqtt_enum packet_type
  ok (record { type = t; flags = flags; variable_header = []; payload = []; body = [] })

-- `data` of set_variable_header is an int or bytes.
pub data HeaderValue : Type 0 where
  int : ℕ → HeaderValue
  raw : Bytes → HeaderValue

unfoldable pub set_variable_header : HeaderValue → MqttPacket → Result MqttPacket
set_variable_header (int n) pkt = do b ← pack 2 n; ok (record pkt { variable_header = b })
set_variable_header (raw b) pkt = ok (record pkt { variable_header = b })

unfoldable pub set_payload : Bytes → MqttPacket → MqttPacket
set_payload b pkt = record pkt { payload = b }

unfoldable pub set_packet_id : ℕ → MqttPacket → Result MqttPacket
set_packet_id packet_id pkt = do b ← pack 2 packet_id; ok (record pkt { variable_header = b })

unfoldable pub mqtt_build_header : ℕ → MqttEnum → ℕ → Bytes
unfolding to_int
mqtt_build_header remaining_length packet_type flags =
    let packet_type_part = to_int packet_type * 16 in
    let flags_part = bit_and flags 0x0f in
    bit_or packet_type_part flags_part ∷ mqtt_encode_varint remaining_length

unfoldable pub build : MqttPacket → Bytes
build pkt =
    let body = pkt.variable_header ++ pkt.payload in
    mqtt_build_header (length body) pkt.type pkt.flags ++ body

unfoldable pub mqtt_parse_packet : Bytes → Result MqttPacket
unfolding new_packet
mqtt_parse_packet [] = raised index_error
mqtt_parse_packet (first_byte ∷ bs) = do
  let raw_bytes = first_byte ∷ bs
  (remaining_length, consumed) ← mqtt_decode_varint raw_bytes 1
  let offset = 1 + consumed
  let body' = slice offset (offset + remaining_length) raw_bytes
  pkt ← new_packet (first_byte / 16) (bit_and first_byte 0x0f)
  ok (record pkt { body = body' })

module _ (lib : Aionetiface) where
  -- mqtt_enc_str of utils.py
  unfoldable pub mqtt_enc_str : Text → Result Bytes
  mqtt_enc_str s = do let b = lib.to_b s; prefix ← pack 2 (length b); ok (prefix ++ b)

  -- The part of mqtt_parse_publish behind the topic's length.
  publish_fields : MqttPacket → ℕ → Option (Str × Bytes × Option Bytes)
  publish_fields packet tlen =
      let body = packet.body in
      let offset = 2 + tlen in
      let topic = lib.to_s (bytes (slice 2 offset body)) in
      let qos = bit_and (packet.flags / 2) 0x03 in
      if ltb (length body) offset
      then none
      else if ltb 0 qos
      then (if ltb (length body) (offset + 2)
          then none
          else some (topic, drop (offset + 2) body, some (slice offset (offset + 2) body)))
      else some (topic, drop offset body, none)

  -- `raised` is for `struct.unpack`, which gets two bytes here and so never raises.
  unfoldable pub mqtt_parse_publish : MqttPacket → Result (Option (Str × Bytes × Option Bytes))
  unfolding publish_fields
  mqtt_parse_publish packet =
      if ltb (length packet.body) 2
      then ok none
      else do tlen ← unpack 2 (slice 0 2 packet.body); ok (publish_fields packet tlen)
