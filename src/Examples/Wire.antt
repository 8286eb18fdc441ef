-- ===== src/Examples/Wire.antt =====
-- The wire format at concrete inputs.
use sidewire.Prelude.{ℕ, ◌+◌, ◌≡◌, refl, ◌⊎◌, false, some, [], ◌∷◌, arith}
use sidewire.Prelude.Results.{ok}
use sidewire.Aionetiface.{bytes}
use sidewire.Wire.Struct.{IsByte}
use sidewire.Wire.Varint.{mqtt_encode_varint, mqtt_decode_varint}
use sidewire.Wire.Packet.{
  MqttEnum, MqttPacket, build, mqtt_parse_packet, mqtt_parse_publish, mqtt_build_header,
}
use sidewire.Wire.Packet.RoundTrip.{parsed}
use sidewire.Wire.Packet.Publish.{parse_publish_cases, Refused, Accepted}
use sidewire.Wire.Msgs.{build_publish}
use sidewire.Wire.Msgs.Parsing.{parse-build_publish}
use sidewire.Wire.Reader.{next_frame, mqtt_packet_reader}
use sidewire.Wire.Reader.Stream.{feed, feed-join}
use sidewire.Wire.Reader.Packets.{handle_all, feed-stream}
use sidewire.Examples.{toy}

encode_321 : mqtt_encode_varint 321 ≡ 0xc1 ∷ 0x02 ∷ []
unfolding mqtt_encode_varint
encode_321 = refl

decode_321 : mqtt_decode_varint (0x30 ∷ 0xc1 ∷ 0x02 ∷ []) 1 ≡ ok (321, 2)
unfolding mqtt_decode_varint
decode_321 = refl

abbrev puback_packet : MqttPacket
puback_packet = record {
  type = MqttEnum.puback;
  flags = 0;
  variable_header = 0 ∷ 7 ∷ [];
  payload = [];
  body = [];
}

puback_bytes : build puback_packet ≡ 0x40 ∷ 2 ∷ 0 ∷ 7 ∷ []
unfolding build mqtt_build_header mqtt_encode_varint
puback_bytes = refl

abbrev pub publish_packet : MqttPacket
publish_packet = parsed MqttEnum.publish 2 (0 ∷ 1 ∷ b'a' ∷ 0 ∷ 5 ∷ b'h' ∷ b'i' ∷ [])

parse_publish_cases_example : Refused toy publish_packet ⊎ Accepted toy publish_packet
parse_publish_cases_example = parse_publish_cases toy publish_packet

publish_run :
    build_publish toy (b'a' ∷ []) (bytes (b'h' ∷ b'i' ∷ [])) (0 ∷ 5 ∷ []) false
    ≡ ok (0x32 ∷ 7 ∷ 0 ∷ 1 ∷ b'a' ∷ 0 ∷ 5 ∷ b'h' ∷ b'i' ∷ [])
unfolding build_publish mqtt_encode_varint sidewire.Wire.Packet.mqtt_enc_str
    sidewire.Wire.Struct.pack
publish_run = refl

parse-build_publish_example :
    (pkt : MqttPacket) × (mqtt_parse_packet (0x32 ∷ 7 ∷ 0 ∷ 1 ∷ b'a' ∷ 0 ∷ 5 ∷ b'h' ∷ b'i' ∷ [])
      ≡ ok pkt)
    × (pkt.type ≡ MqttEnum.publish)
    × (mqtt_parse_publish toy pkt ≡ ok (some (b'a' ∷ [], b'h' ∷ b'i' ∷ [], some (0 ∷ 5 ∷ []))))
parse-build_publish_example =
    parse-build_publish toy (b'a' ∷ []) (bytes (b'h' ∷ b'i' ∷ [])) (0 ∷ 5 ∷ []) false
      (0x32 ∷ 7 ∷ 0 ∷ 1 ∷ b'a' ∷ 0 ∷ 5 ∷ b'h' ∷ b'i' ∷ []) [] publish_run refl (omega arith)

-- A handler that counts packets, and one packet in two chunks.
abbrev count : MqttPacket → ℕ → ℕ
count pkt n = n + 1

feed-join_example : feed count ((0x40 ∷ 2 ∷ 0 ∷ []) ∷ (7 ∷ []) ∷ []) ([], 0) ≡ ([], 1)
unfolding mqtt_packet_reader next_frame mqtt_decode_varint mqtt_parse_packet
feed-join_example = feed-join count ((0x40 ∷ 2 ∷ 0 ∷ []) ∷ (7 ∷ []) ∷ []) [] 0 ([], 1) refl

feed-stream_example :
    feed count ((0x40 ∷ 2 ∷ 0 ∷ []) ∷ (7 ∷ []) ∷ []) ([], 0)
    ≡ ([], handle_all count (puback_packet ∷ []) 0)
unfolding build mqtt_build_header mqtt_encode_varint
feed-stream_example =
    feed-stream count (puback_packet ∷ []) ((0x40 ∷ 2 ∷ 0 ∷ []) ∷ (7 ∷ []) ∷ []) 0 (omega arith)
      refl
