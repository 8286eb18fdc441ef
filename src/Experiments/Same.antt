-- ===== src/Experiments/Same.antt =====
-- What the small client writes is what the library writes and reads.
use sidewire.Prelude.{
  ℕ, zero, suc, ◌+◌, ◌*◌, ◌/◌, ◌%◌, ◌≤◌, ◌<◌, min, bit_and, ◌≡◌, refl, some, none, [], ◌∷◌, ◌++◌,
  append_assoc, ◌^◌, length, length-append, lt_wf, arith,
}
use sidewire.Prelude.Results.{ok}
use sidewire.Aionetiface.{Aionetiface, Bytes, Str, bytes}
use sidewire.Wire.Struct.{pack_lem}
use sidewire.Wire.Varint.{encode_loop, mqtt_encode_varint}
use sidewire.Wire.Packet.{MqttEnum, MqttPacket, mqtt_parse_packet, mqtt_parse_publish}
use sidewire.Wire.Packet.RoundTrip.{parsed, parse_framed, first_byte}
use sidewire.Wire.Packet.Publish.{parse_publish-unacked}
use sidewire.Experiments.Codec.{enc_loop, enc_varint, enc_str}
use sidewire.Experiments.Session.{Python, Mqtt, with_sock, publish, message_packet, ◌>>=◌}
use sidewire.Experiments.Reading.{connected}
use mathlib.Core.WellFounded.{Acc}
use Prim.Native.Nat.{digits, bit_and-bitwise}

-- A mask of low digits, at every number: the operation goes digit by digit.
digits_enough :
    (n m a b : ℕ) → a ≤ n → a ≤ m → digits (λ y. 0) min n a b ≡ digits (λ y. 0) min m a b
digits_enough zero zero a b p q = refl
digits_enough zero (suc m) zero b p q = refl
digits_enough zero (suc m) (suc a) b p q = absurd (omega arith)
digits_enough (suc n) zero zero b p q = refl
digits_enough (suc n) zero (suc a) b p q = absurd (omega arith)
digits_enough (suc n) (suc m) zero b p q = refl
digits_enough (suc n) (suc m) (suc a) b p q =
    omega (arith, digits_enough n m (suc a / 2) (b / 2) (omega arith) (omega arith))

low_digit : (a b : ℕ) → bit_and a b ≡ bit_and (a / 2) (b / 2) * 2 + min (a % 2) (b % 2)
low_digit zero b = omega (arith, bit_and-bitwise 0 b, bit_and-bitwise 0 (b / 2))
low_digit (suc a) b = omega (
  arith,
  bit_and-bitwise (suc a) b,
  bit_and-bitwise (suc a / 2) (b / 2),
  digits_enough a (suc a / 2) (suc a / 2) (b / 2) (omega arith) (omega arith),
)

no_mask : (fuel a : ℕ) → a ≤ fuel → bit_and a 0 ≡ 0
no_mask fuel zero h = refl
no_mask zero (suc a) h = absurd (omega arith)
no_mask (suc fuel) (suc a) h =
    omega (arith, low_digit (suc a) 0, no_mask fuel (suc a / 2) (omega arith))

and_mask3 : (a : ℕ) → bit_and a 0x07 ≡ a % 8
and_mask3 a = omega (
  arith,
  low_digit a 7,
  low_digit (a / 2) 3,
  low_digit (a / 2 / 2) 1,
  no_mask (a / 2 / 2 / 2) (a / 2 / 2 / 2) (omega arith),
)

and_mask7 : (a : ℕ) → bit_and a 0x7f ≡ a % 128
and_mask7 a = omega (
  arith,
  low_digit a 0x7f,
  low_digit (a / 2) 0x3f,
  low_digit (a / 2 / 2) 0x1f,
  low_digit (a / 2 / 2 / 2) 0x0f,
  and_mask3 (a / 2 / 2 / 2 / 2),
)

enc_loop-same :
    (fuel : ℕ) (out : Bytes) (n : ℕ) (w v : Acc ◌<◌ n)
    → n ≤ fuel
    → enc_loop out n w ≡ encode_loop out n v
unfolding enc_loop encode_loop
enc_loop-same zero out n (Acc.intro _ f) (Acc.intro _ g) h = ground (arith, and_mask7 n)
enc_loop-same (suc fuel) out n (Acc.intro _ f) (Acc.intro _ g) h = grind (
  arith,
  and_mask7 n,
  λ (w v : Acc ◌<◌ (n / 128)) (out : Bytes). enc_loop-same fuel out (n / 128) w v (omega arith),
)

pub enc_varint-same : (n : ℕ) → enc_varint n ≡ mqtt_encode_varint n
unfolding enc_varint mqtt_encode_varint
enc_varint-same n = enc_loop-same n [] n (lt_wf.apply n) (lt_wf.apply n) (omega arith)

module _ {S : Type 0} (py : Python S) (lib : Aionetiface) where
  -- publish of the small client, for a topic whose UTF-8 has less than 2 ^ 16 bytes and a packet of a
  -- body below 128 ^ 4 bytes: it sends one packet. Whatever follows this on the stream, the library
  -- reads it as a PUBLISH of QoS 0 with the bytes of the topic and the payload.
  pub publish-Received :
      (topic payload : Str) (t p rest : Bytes) (m : Mqtt S) (s : S)
      → py.encode topic ≡ ok t
      → py.encode payload ≡ ok p
      → length t < 2 ^ 16
      → 2 + (length t + length p) < 128 ^ 4
      → (pkt : Bytes) × (received : MqttPacket) × (publish py topic payload (connected m s)
          ≡ with_sock m (py.sendall pkt s))
        × (mqtt_parse_packet (pkt ++ rest) ≡ ok received)
        × (received.type ≡ MqttEnum.publish)
        × (mqtt_parse_publish lib received ≡ ok (some (lib.to_s (bytes t), p, none)))
  unfolding publish message_packet enc_str ◌>>=◌ first_byte
  publish-Received topic payload t p rest m s et ep ht hp =
      let (size, packed, two, _, _) = pack_lem 2 (length t) ht in
      let body : Bytes = size ++ (t ++ p) in
      let encoded : Bytes = mqtt_encode_varint (length body) in
      let fits : length body < 128 ^ 4 =
        omega (arith, length-append size (t ++ p), length-append t p) in
      (
        0x30 ∷ (encoded ++ body),
        parsed MqttEnum.publish 0 body,
        rw (et, packed, ep, append_assoc size t p, enc_varint-same) refl,
        rw (append_assoc encoded body rest)
            (parse_framed MqttEnum.publish 0 body rest (omega arith) fits),
        refl,
        parse_publish-unacked lib (parsed MqttEnum.publish 0 body) size t p refl packed refl,
      )
