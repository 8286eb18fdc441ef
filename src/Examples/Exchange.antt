-- ===== src/Examples/Exchange.antt =====
-- A message from Alice to Bob, with conversions that are inverse.
use sidewire.Prelude.{
  ℕ, ◌*◌, ◌^◌, ◌<◌, ◌≡◌, refl, ap, ◌∙◌, false, none, [], ◌∷◌, ◌++◌, length, bytes_eq, bytes_eq_iff,
  text_eq, nat_eq, arith,
}
use sidewire.Prelude.Results.{ok}
use sidewire.Prelude.Action.{◌>>=◌}
use sidewire.Prelude.Dict.{has, get, put}
use sidewire.Aionetiface.{Aionetiface, Bytes, Str, str}
use sidewire.Wire.Struct.{pack as struct_pack}
use sidewire.Wire.Packet.{MqttPacket, MqttEnum}
use sidewire.Wire.Packet.Publish.{parse_publish-acked}
use sidewire.AppPacket.{MsgEnum, KeyPair, pack, signed_section}
use sidewire.AppPacket.RoundTrip.{IsKeyPair}
use sidewire.AppPacket.Authentic.{async_signer}
use sidewire.Client.{Client, find_meta, seconds}
use sidewire.Client.Sending.{ordered_ack_send, ordered_ack_send_by, pack_packet, next_seq_no}
use sidewire.Client.Sending.Packed.{ordered_ack_send-Packed}
use sidewire.Exchange.{Conversions, with_clock, Forwards}
use sidewire.Exchange.Completed.{Ready, Awaits, Exchanged, exchange_completes}
use sidewire.Examples.{toy, alice, connected, replicate, toy_sign, toy_verifies}

-- Two digits for a byte: the byte, and zero.
abbrev hex : Bytes → Str
hex [] = []
hex (b ∷ bs) = b ∷ 0 ∷ hex bs

abbrev unhex : Str → Bytes
unhex [] = []
unhex (b ∷ []) = []
unhex (b ∷ d ∷ s) = b ∷ unhex s

unhex-hex : (b : Bytes) → unhex (hex b) ≡ b
unhex-hex [] = refl
unhex-hex (b ∷ bs) = ap (λ s. b ∷ s) (unhex-hex bs)

length-hex : (b : Bytes) → length (hex b) ≡ 2 * length b
length-hex [] = refl
length-hex (b ∷ bs) = omega (arith, length-hex bs)

abbrev noon : ℕ → ℕ
noon n = 1_700_000_000_000_000

abbrev inverse : Aionetiface
inverse = record toy { h_to_b = λ s. ok (unhex s); to_h = hex; clock = noon }

noon-range : (n : ℕ) → seconds (noon n) < 256 ^ 8
noon-range n = omega arith

inverse-Conversions : Conversions inverse
inverse-Conversions = record {
  hex_back = λ b. ap ok (unhex-hex b);
  hex_length = length-hex;
  bytes_kept = λ b. refl;
  no_text = refl;
  text_back = λ s. refl;
  async_verifies = λ k s m. refl;
  sends = λ before buf. refl;
  in_range = noon-range;
}

abbrev bob_keys : KeyPair
bob_keys = record {
  private_key = 2 ∷ [];
  compact_public_key = replicate 33 3;
  public_key_hex = hex (replicate 33 3);
}

alice_keys-IsKeyPair : IsKeyPair inverse alice
alice_keys-IsKeyPair = record { key_length = refl; sig_length = λ m. refl; verifies = toy_verifies }

bob_keys-IsKeyPair : IsKeyPair (async_signer inverse) bob_keys
bob_keys-IsKeyPair = record {
  key_length = refl;
  sig_length = λ m. refl;
  verifies = λ m. rw ((bytes_eq_iff (toy_sign (2 ∷ []) m) (toy_sign (2 ∷ []) m)).1 refl);
}

-- A broker that forwards with QoS 1 and the identifier 7. Topics have 66 characters.
abbrev carry : Str → Bytes → MqttPacket
carry topic payload = record {
  type = MqttEnum.publish;
  flags = 2;
  variable_header = [];
  payload = [];
  body = (0 ∷ 66 ∷ []) ++ (topic ++ ((0 ∷ 7 ∷ []) ++ payload));
}

prefix_of : (topic : Str) → length topic ≡ 66 → struct_pack 2 (length topic) ≡ ok (0 ∷ 66 ∷ [])
unfolding struct_pack
prefix_of topic h = rw h refl

carry-Forwards : Forwards inverse carry
carry-Forwards = record {
  id_high = λ topic payload. 0;
  id_low = λ topic payload. 7;
  carried = λ key payload h.
      parse_publish-acked inverse (carry (hex key) payload) (0 ∷ 66 ∷ []) (hex key) (0 ∷ 7 ∷ [])
        payload refl (prefix_of (hex key) (length-hex key ∙ omega (arith, h))) refl (omega arith);
}

abbrev queue : Bytes
queue = replicate 32 5

abbrev bob_client : Client
bob_client = record connected { kp = bob_keys }

abbrev sent_by_alice : Client
sent_by_alice =
    (ordered_ack_send inverse (str (b'h' ∷ b'i' ∷ [])) (hex (replicate 33 3)) (hex queue)
      MsgEnum.msg none connected).1

sent_ok :
    ordered_ack_send inverse
      (str (b'h' ∷ b'i' ∷ []))
      (hex (replicate 33 3))
      (hex queue)
      MsgEnum.msg
      none
      connected
    ≡ (ok ((hex queue, 0), 0), sent_by_alice)
unfolding ordered_ack_send ordered_ack_send_by ◌>>=◌ has pack_packet pack signed_section struct_pack
    next_seq_no get put bytes_eq
sent_ok = refl

bob-Ready :
    Ready (with_clock noon inverse) bob_client (b'h' ∷ b'i' ∷ []) (hex queue) 0 noon connected.ticks
unfolding has find_meta get
bob-Ready = record {
  closed = false;
  pipe = refl;
  unknown = refl;
  unanswered = refl;
  recent = λ j h. omega arith;
}

alice-Awaits : Awaits connected sent_by_alice (hex (replicate 33 3)) (hex queue) 0 0
unfolding ordered_ack_send ordered_ack_send_by ◌>>=◌ has pack_packet pack signed_section struct_pack
    next_seq_no get put bytes_eq
alice-Awaits =
    let p =
      ordered_ack_send-Packed inverse (str (b'h' ∷ b'i' ∷ [])) (hex (replicate 33 3)) (hex queue)
        MsgEnum.msg connected sent_by_alice (hex queue, 0) 0 sent_ok in
    record {
      closed = false;
      pipe = refl;
      same_keys = refl;
      entry = p.entry;
      queued = p.stored;
      addressee = p.addressee;
      reference = p.reference;
      awaited = refl;
    }

exchange_completes_example :
    Exchanged inverse noon carry [] connected sent_by_alice sent_by_alice bob_client
      (b'h' ∷ b'i' ∷ [])
      (hex queue)
      0
      0
exchange_completes_example =
    exchange_completes inverse noon carry [] queue (b'h' ∷ b'i' ∷ []) connected sent_by_alice
      sent_by_alice bob_client (hex queue, 0) 0 inverse-Conversions noon-range carry-Forwards
      alice_keys-IsKeyPair bob_keys-IsKeyPair refl sent_ok bob-Ready alice-Awaits
