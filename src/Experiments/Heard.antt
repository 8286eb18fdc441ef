-- ===== src/Experiments/Heard.antt =====
-- The loop of the small client on a stream of packets that the library's MQTTPacket.build wrote.
use sidewire.Prelude.{
  ℕ, zero, suc, ◌+◌, ◌*◌, ◌/◌, ◌≤◌, ◌<◌, ◌≡◌, ◌≢◌, refl, ap, ◌∙◌, inl, inr, true, none, some, List,
  [], ◌∷◌, ◌++◌, append-nil, append_assoc, Bool-cases, if◌then◌else◌, ◌==◌, length, length-append,
  arith,
}
use sidewire.Prelude.Results.{ok}
use sidewire.Aionetiface.{Aionetiface, Bytes, Str, bytes}
use sidewire.Wire.Varint.{mqtt_encode_varint}
use sidewire.Wire.Varint.Coding.{lt-pow}
use sidewire.Wire.Varint.Laws.{groups, encode-groups}
use sidewire.Wire.Packet.{
  MqttEnum, to_int, MqttPacket, mqtt_build_header, build, mqtt_parse_publish,
}
use sidewire.Wire.Packet.RoundTrip.{first_byte, build_header_lem}
use sidewire.Wire.Packet.Publish.{parse_publish-plain}
use sidewire.Wire.Reader.Packets.{stream, received}
use sidewire.Experiments.Session.{
  Python, Mqtt, Run, dec_varint, print_publish, read_packet, loop, done, ◌>>=◌,
}
use sidewire.Experiments.Reading.{
  connected, Reads, recv-one, recv-end, dec_loop-groups, recv_rest-whole,
}

-- What the library makes of packets: the topics and texts of the messages of QoS 0 among them.
pub data Heard (lib : Aionetiface) : List MqttPacket → List (Str × Str) → Type 0 where
  nothing : Heard lib [] []
  other :
      (pkt : MqttPacket) (pkts : List MqttPacket) (out : List (Str × Str))
      → pkt.flags < 16
      → pkt.type ≢ MqttEnum.publish
      → Heard lib pkts out
      → Heard lib (pkt ∷ pkts) out
  message :
      (pkt : MqttPacket) (pkts : List MqttPacket) (out : List (Str × Str)) (topic : Str)
      (payload : Bytes)
      → pkt.flags < 16
      → pkt.type ≡ MqttEnum.publish
      → mqtt_parse_publish lib (received pkt) ≡ ok (some (topic, payload, none))
      → Heard lib pkts out
      → Heard lib (pkt ∷ pkts) ((topic, lib.to_s (bytes payload)) ∷ out)

-- Three is the number of PUBLISH alone.
to_int-publish : (t : MqttEnum) → to_int t ≡ 3 → t ≡ MqttEnum.publish
unfolding to_int
to_int-publish MqttEnum.publish h = refl
to_int-publish _ h = absurd (omega arith)

abbrev pub print : {S : Type 0} → Mqtt S → List (Str × Str) → Mqtt S
print m out = record m { printed = m.printed ++ out }

print-print :
    {S : Type 0} (m : Mqtt S) (a b : List (Str × Str)) → print (print m a) b ≡ print m (a ++ b)
print-print m a b = rw (append_assoc m.printed a b) refl

build-positive : (pkt : MqttPacket) → 0 < length (build pkt)
unfolding build mqtt_build_header
build-positive pkt = omega arith

module _ {S : Type 0} (py : Python S) where
  -- What is printed of a packet that was read.
  shown : ℕ → Bytes → Run S (Unit {0})
  shown first body = if first / 16 == 3 then print_publish py body else done tt

module _ {S : Type 0} (py : Python S) (left : S → Bytes) where
  module _ (sound : (n : ℕ) (s : S) → Reads py left n s) where
    dec_varint-lem :
        (fuel v : ℕ) (m : Mqtt S) (s : S) (rest : Bytes)
        → left s ≡ mqtt_encode_varint v ++ rest
        → length (mqtt_encode_varint v) ≤ fuel
        → (s' : S) × (dec_varint py fuel (connected m s) ≡ some (ok v, connected m s'))
          × (left s' ≡ rest)
    unfolding dec_varint
    dec_varint-lem fuel v m s rest e h =
        let g : mqtt_encode_varint v ≡ groups v v = encode-groups v v (lt-pow v) in
        let (s', r, l) =
          dec_loop-groups py left sound v fuel v 1 0 m s rest (rw g at e) (lt-pow v) (rw g at h) in
        (s', r ∙ ap (λ n. some (ok n, connected m s')) (omega arith), l)

    -- A packet is read to its end.
    read_packet-body :
        (fuel first : ℕ) (body rest : Bytes) (m : Mqtt S) (s : S)
        → left s ≡ mqtt_encode_varint (length body) ++ (body ++ rest)
        → length (mqtt_encode_varint (length body)) + length body < fuel
        → (s' : S) × (read_packet py fuel first (connected m s)
            ≡ shown py first body (connected m s'))
          × (left s' ≡ rest)
    unfolding read_packet shown ◌>>=◌
    read_packet-body fuel first body rest m s e h =
        let (s1, number, l1) =
          dec_varint-lem fuel (length body) m s (body ++ rest) e (omega arith) in
        let (s2, whole, l2) =
          recv_rest-whole py left sound fuel (length body) [] body rest m s1 l1 (omega arith)
            (omega arith) in
        (s2, rw (number, whole) refl, l2)

    loop-turn :
        (fuel b : ℕ) (m m' : Mqtt S) (s s' : S)
        → py.recv 1 s ≡ (ok (b ∷ []), s')
        → read_packet py fuel b (connected m s') ≡ some (ok tt, m')
        → loop py (suc fuel) (connected m s) ≡ loop py fuel m'
    unfolding loop ◌>>=◌
    loop-turn fuel b m m' s s' r e = rw (r, e) refl

    loop-end :
        (fuel : ℕ) (m : Mqtt S) (s s' : S)
        → py.recv 1 s ≡ (ok [], s')
        → loop py (suc fuel) (connected m s) ≡ some (ok tt, connected m s')
    unfolding loop ◌>>=◌
    loop-end fuel m s s' r = rw r refl

    -- A turn of the loop on a packet of which `out` is printed.
    loop-packet :
        (fuel : ℕ) (pkt : MqttPacket) (out : List (Str × Str)) (rest : Bytes) (m : Mqtt S) (s : S)
        → pkt.flags < 16
        → left s ≡ build pkt ++ rest
        → length (build pkt) ≤ fuel
        → ((o : Mqtt S)
            → shown py (first_byte pkt.type pkt.flags) (received pkt).body o
              ≡ some (ok tt, print o out))
        → (s' : S) × (loop py (suc fuel) (connected m s)
            ≡ loop py fuel (connected (print m out) s'))
          × (left s' ≡ rest)
    loop-packet fuel pkt out rest m s flags e h says =
        let body : Bytes = pkt.variable_header ++ pkt.payload in
        let encoded : Bytes = mqtt_encode_varint (length body) in
        let first : ℕ = first_byte pkt.type pkt.flags in
        let parts : build pkt ≡ first ∷ (encoded ++ body) =
          unfold build in rw (build_header_lem (length body) pkt.type pkt.flags flags) refl in
        let whole : left s ≡ first ∷ (encoded ++ (body ++ rest)) =
          rw (parts, append_assoc encoded body rest) at e in
        let size : length (build pkt) ≡ 1 + (length encoded + length body) =
          rw parts (omega (arith, length-append encoded body)) in
        let (s1, r, l1) = recv-one py left sound s first (encoded ++ (body ++ rest)) whole in
        let (s2, read, l2) = read_packet-body fuel first body rest m s1 l1 (omega arith) in
        (
          s2,
          loop-turn fuel first m (connected (print m out) s2) s s1 r (read ∙ says (connected m s2)),
          l2,
        )

    module _ (lib : Aionetiface)
        (same_text : (bs : Bytes) → py.decode_ignore bs ≡ lib.to_s (bytes bs)) where
      shown-message :
          (pkt : MqttPacket) (topic : Str) (payload : Bytes) (o : Mqtt S)
          → pkt.flags < 16
          → pkt.type ≡ MqttEnum.publish
          → mqtt_parse_publish lib (received pkt) ≡ ok (some (topic, payload, none))
          → shown py (first_byte pkt.type pkt.flags) (received pkt).body o
            ≡ some (ok tt, print o ((topic, lib.to_s (bytes payload)) ∷ []))
      unfolding shown print_publish ◌>>=◌ first_byte to_int
      shown-message pkt topic payload o flags t e =
          let (size, et, ep) = parse_publish-plain lib (received pkt) topic payload e in
          let is_three : ((to_int MqttEnum.publish * 16 + pkt.flags) / 16 == 3) ≡ true =
            ground arith in
          rw (t, is_three) (rw (size, et, ep, same_text, same_text) refl)

      shown-other :
          (pkt : MqttPacket) (o : Mqtt S)
          → pkt.flags < 16
          → pkt.type ≢ MqttEnum.publish
          → shown py (first_byte pkt.type pkt.flags) (received pkt).body o
            ≡ some (ok tt, print o [])
      unfolding shown ◌>>=◌ first_byte
      shown-other pkt o flags t = elim (Bool-cases ((to_int pkt.type * 16 + pkt.flags) / 16 == 3)) [
        | inl is_three ↦ absurd (t (to_int-publish pkt.type (ground (arith, is_three))))
        | inr is_not ↦ rw (is_not, append-nil) refl
      ]

      -- On a stream of packets from MQTTPacket.build, with flags of four bits and every PUBLISH of
      -- QoS 0 and with a whole topic, in whatever pieces recv gives it: loop ends, and has printed the
      -- topic and text of each PUBLISH, in order, as the library's parser reads them. Fuel above the
      -- length of the stream is enough. This is for a socket that does not fail, and one decoding of
      -- texts on both sides.
      pub loop-Heard :
          (pkts : List MqttPacket) (out : List (Str × Str)) (fuel : ℕ) (m : Mqtt S) (s : S)
          → Heard lib pkts out
          → left s ≡ stream pkts
          → length (stream pkts) < fuel
          → (s' : S) × (loop py fuel (connected m s) ≡ some (ok tt, connected (print m out) s'))
      loop-Heard pkts out zero m s heard e h = absurd (omega arith)
      loop-Heard pkts out (suc fuel) m s nothing e h =
          let (s', r, l) = recv-end py left sound s e in
          (s', rw append-nil (loop-end fuel m s s' r))
      loop-Heard pkts out (suc fuel) m s (other pkt rest out' flags t heard) e h =
          let size = length-append (build pkt) (stream rest) in
          let (s1, turn, l1) =
            loop-packet fuel pkt [] (stream rest) m s flags e (omega arith)
              (λ o. shown-other pkt o flags t) in
          let (s2, more) =
            loop-Heard rest out' fuel (print m []) s1 heard l1
              (omega (arith, build-positive pkt)) in
          (s2, turn ∙ more ∙ ap (λ o. some (ok tt, connected o s2)) (print-print m [] out'))
      loop-Heard pkts out (suc fuel) m s (message pkt rest out' topic payload flags t p heard) e h =
          let line : List (Str × Str) = (topic, lib.to_s (bytes payload)) ∷ [] in
          let size = length-append (build pkt) (stream rest) in
          let (s1, turn, l1) =
            loop-packet fuel pkt line (stream rest) m s flags e (omega arith)
              (λ o. shown-message pkt topic payload o flags t p) in
          let (s2, more) =
            loop-Heard rest out' fuel (print m line) s1 heard l1
              (omega (arith, build-positive pkt)) in
          (s2, turn ∙ more ∙ ap (λ o. some (ok tt, connected o s2)) (print-print m line out'))
