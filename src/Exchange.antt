-- ===== src/Exchange.antt =====
-- A message and its acknowledgement between two clients: src/sidewire/mqtt/mqtt_ordered_send.py on the
-- sending side, mqtt_proto.py and app_proto.py on the side that receives.
pub mod Arrival
pub mod Answer
pub mod Delivered
pub mod Completed
use sidewire.Prelude.{ℕ, ◌*◌, ◌^◌, ◌<◌, ◌≡◌, List, [], ◌∷◌, some, length}
use sidewire.Prelude.Results.{ok}
use sidewire.Aionetiface.{Aionetiface, Bytes, Str, str, bytes}
use sidewire.Wire.Packet.{MqttPacket, mqtt_parse_publish}
use sidewire.Client.{seconds}

-- What the exchange relies on in aionetiface and ecdsa: `h_to_b` reads what `to_h` writes, two digits
-- for a byte; the conversions between str and bytes are inverse; the verifier on an executor agrees with
-- the plain one; and `pipe.send` on an open pipe does not raise.
pub record Conversions (lib : Aionetiface) : Type 0 where
  pub hex_back : (b : Bytes) → lib.h_to_b (lib.to_h b) ≡ ok b
  pub hex_length : (b : Bytes) → length (lib.to_h b) ≡ 2 * length b
  pub bytes_kept : (b : Bytes) → lib.to_b (bytes b) ≡ b
  pub no_text : lib.to_b (str []) ≡ []
  pub text_back : (s : Str) → lib.to_s (bytes (lib.to_b (str s))) ≡ s
  pub async_verifies : (k s m : Bytes) → lib.verify_async k s m ≡ lib.verify k s m
  pub sends : (before : List Bytes) (buf : Bytes) → lib.pipe_send before buf ≡ ok tt
  pub in_range : (n : ℕ) → seconds (lib.clock n) < 256 ^ 8

-- The library on another machine, whose clock differs.
abbrev pub with_clock : (ℕ → ℕ) → Aionetiface → Aionetiface
with_clock clock lib = record lib { clock = clock }

-- What a broker does: a PUBLISH reaches the subscriber of its topic, the hex of a key of 33 bytes, with
-- the topic and the payload as they were, and an identifier of the broker's own.
pub record Forwards (lib : Aionetiface) (carry : Str → Bytes → MqttPacket) : Type 0 where
  pub id_high : Str → Bytes → ℕ
  pub id_low : Str → Bytes → ℕ
  pub carried :
      (key payload : Bytes)
      → length key ≡ 33
      → let topic : Str = lib.to_h key in
        mqtt_parse_publish lib (carry topic payload)
        ≡ ok (some (topic, payload, some (id_high topic payload ∷ id_low topic payload ∷ [])))
