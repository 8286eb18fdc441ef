-- ===== src/Wire/Msgs.antt =====
-- src/sidewire/mqtt/mqtt_msgs.py: the packets that the client sends.
pub mod Parsing
use sidewire.Prelude.{
  ℕ, ◌+◌, bit_or, Bool, Option, none, some, List, [], ◌∷◌, ◌++◌, if◌then◌else◌, leb, length,
}
use sidewire.Prelude.Results.{Result, ok, raised, ◌>>=◌}
use sidewire.Aionetiface.{Aionetiface, Bytes, Str, Text, str}
use sidewire.Wire.Struct.{pack}
use sidewire.Wire.Varint.{mqtt_encode_varint}
use sidewire.Wire.Packet.{MqttEnum, to_int, new_packet, build, mqtt_enc_str}

module _ (lib : Aionetiface) where
  unfoldable pub build_connect : Str → ℕ → Result Bytes
  build_connect client_id keep_alive = do
    name ← mqtt_enc_str lib (str (b'M' ∷ b'Q' ∷ b'T' ∷ b'T' ∷ []))
    seconds ← pack 2 keep_alive
    let vh = name ++ (0x04 ∷ 0x02 ∷ seconds)
    pl ← mqtt_enc_str lib (str client_id)
    ok (0x10 ∷ (mqtt_encode_varint (length vh + length pl) ++ (vh ++ pl)))

  unfoldable pub build_subscribe : Str → Bytes → Result Bytes
  build_subscribe topic packet_id = do
    let vh = packet_id
    filter ← mqtt_enc_str lib (str topic)
    let pl = filter ++ (0x01 ∷ [])
    ok (0x82 ∷ (mqtt_encode_varint (length vh + length pl) ++ (vh ++ pl)))

  publish_header : Bool → ℕ
  publish_header dup = let header = bit_or 0x30 0x02 in if dup then bit_or header 0x08 else header

  unfoldable pub build_publish : Str → Text → Bytes → Bool → Result Bytes
  unfolding publish_header
  build_publish topic payload packet_id dup = do
    topic_bytes ← mqtt_enc_str lib (str topic)
    let pl = topic_bytes ++ (packet_id ++ lib.to_b payload)
    ok (publish_header dup ∷ (mqtt_encode_varint (length pl) ++ pl))

-- `now` is what get_time() returned. The subtraction of the source is moved to the other side.
unfoldable pub build_ping : ℕ → ℕ → ℕ → Result (ℕ × Option Bytes)
build_ping last_ping keep_alive now =
    if leb (last_ping + keep_alive) now
    then (do req ← new_packet (to_int MqttEnum.pingreq) 0; ok (now, some (build req)))
    else ok (last_ping, none)

unfoldable pub build_puback : Bytes → Bytes
build_puback packet_id = 0x40 ∷ 0x02 ∷ packet_id

unfoldable pub build_disconnect : Bytes
build_disconnect = 0xe0 ∷ 0x00 ∷ []
