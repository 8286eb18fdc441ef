-- ===== src/Examples/Experiments.antt =====
-- The small client at a socket that gives at most three bytes at a time.
use sidewire.Prelude.{
  ℕ, ◌<◌, min, ◌≡◌, refl, none, some, List, [], ◌∷◌, ◌++◌, length, take, drop, length-take,
  take-append-drop, arith,
}
use sidewire.Prelude.Results.{ok}
use sidewire.Aionetiface.{Bytes, Str}
use sidewire.Wire.Varint.{mqtt_encode_varint}
use sidewire.Wire.Packet.{
  MqttEnum, MqttPacket, build, mqtt_build_header, mqtt_parse_packet, mqtt_parse_publish,
}
use sidewire.Wire.Packet.RoundTrip.{parsed}
use sidewire.Wire.Reader.Packets.{stream}
use sidewire.Experiments.Codec.{enc_varint}
use sidewire.Experiments.Session.{Python, Mqtt, new_mqtt, with_sock, publish, loop}
use sidewire.Experiments.Reading.{connected, Reads}
use sidewire.Experiments.Heard.{Heard, print, loop-Heard}
use sidewire.Experiments.Same.{publish-Received}
use sidewire.Examples.{toy}

abbrev some_of : ℕ → Bytes → Bytes
some_of n s = take (min n 3) s

abbrev socket : Python Bytes
socket = record {
  create_connection = λ host port. ok [];
  recv = λ n s. (ok (some_of n s), drop (min n 3) s);
  sendall = λ bs s. (ok tt, s);
  encode = λ s. ok s;
  decode_ignore = λ bs. bs;
}

abbrev left : Bytes → Bytes
left s = s

socket-Reads : (n : ℕ) (s : Bytes) → Reads socket left n s
socket-Reads n s =
    let size : length (some_of n s) ≡ min (min n 3) (length s) = length-take (min n 3) s in
    Reads.reads (some_of n s) (drop (min n 3) s) refl (take-append-drop (min n 3) s)
      (omega (arith, size)) (λ h k. omega (arith, size))

abbrev client : Mqtt Bytes
client = new_mqtt (b'h' ∷ []) 1883 (b'm' ∷ [])

abbrev pingresp : MqttPacket
pingresp = parsed MqttEnum.pingresp 0 []

abbrev hello : MqttPacket
hello = record {
  type = MqttEnum.publish;
  flags = 0;
  variable_header = 0 ∷ 1 ∷ b'a' ∷ [];
  payload = b'h' ∷ b'e' ∷ b'l' ∷ b'l' ∷ b'o' ∷ [];
  body = [];
}

abbrev lines : List (Str × Str)
lines = (b'a' ∷ [], b'h' ∷ b'e' ∷ b'l' ∷ b'l' ∷ b'o' ∷ []) ∷ []

hello-Heard : Heard toy (pingresp ∷ hello ∷ []) lines
unfolding mqtt_parse_publish sidewire.Wire.Struct.unpack
hello-Heard =
    Heard.other pingresp (hello ∷ []) lines (omega arith) (λ e. cc e)
      (Heard.message hello [] [] (b'a' ∷ []) (b'h' ∷ b'e' ∷ b'l' ∷ b'l' ∷ b'o' ∷ []) (omega arith)
        refl refl Heard.nothing)

abbrev incoming : Bytes
incoming = stream (pingresp ∷ hello ∷ [])

incoming-lt : length incoming < 13
unfolding build mqtt_build_header mqtt_encode_varint
incoming-lt = omega arith

loop-Heard_example :
    (s : Bytes) × (loop socket 13 (connected client incoming)
      ≡ some (ok tt, connected (print client lines) s))
loop-Heard_example =
    loop-Heard socket left socket-Reads toy (λ bs. refl) (pingresp ∷ hello ∷ []) lines 13 client
      incoming hello-Heard refl incoming-lt

enc_300 : enc_varint 300 ≡ 0xac ∷ 0x02 ∷ []
unfolding enc_varint
enc_300 = refl

publish-Received_example :
    (pkt : Bytes) × (received : MqttPacket) × (publish socket
        (b'a' ∷ [])
        (b'h' ∷ [])
        (connected client [])
      ≡ with_sock client (socket.sendall pkt []))
    × (mqtt_parse_packet (pkt ++ (0xd0 ∷ [])) ≡ ok received)
    × (received.type ≡ MqttEnum.publish)
    × (mqtt_parse_publish toy received ≡ ok (some (b'a' ∷ [], b'h' ∷ [], none)))
publish-Received_example =
    publish-Received socket toy (b'a' ∷ []) (b'h' ∷ []) (b'a' ∷ []) (b'h' ∷ []) (0xd0 ∷ []) client
      [] refl refl (omega arith) (omega arith)
