-- ===== src/Exchange/Completed.antt =====
-- A message from the call that sends it to the future that its acknowledgement resolves.
use sidewire.Prelude.{
  ℕ, ◌+◌, ◌*◌, ◌^◌, ◌<◌, ◌≤◌, ◌≡◌, refl, sym, ap, ◌∙◌, none, some, [], ◌∷◌, length, Bool, false,
  text_eq,
}
use sidewire.Prelude.Results.{ok}
use sidewire.Prelude.Dict.{has}
use sidewire.Aionetiface.{Aionetiface, Bytes, Str, Text, str, bytes}
use sidewire.Wire.Packet.{MqttPacket, mqtt_parse_publish}
use sidewire.AppPacket.{
  MsgEnum, AppPacket, Inbound, KeyPair, pack, signed_section, unpack_async, unpack_by, parse_fields,
}
use sidewire.AppPacket.RoundTrip.{IsKeyPair}
use sidewire.AppPacket.Authentic.{async_signer}
use sidewire.Client.{Client, Meta, find_meta, result, pending, yes_ack, seconds}
use sidewire.Client.Sending.{new_packet, ack_text, ordered_ack_send}
use sidewire.Client.Sending.Packed.{Packed, ordered_ack_send-Packed}
use sidewire.Proto.{handle_publish}
use sidewire.Exchange.{Conversions, with_clock, Forwards}
use sidewire.Exchange.Arrival.{Read, unpack_async-pack}
use sidewire.Exchange.Answer.{Acked}
use sidewire.Exchange.Delivered.{Answered, packed-range, receive, resolve}

-- The laws hold on another machine, too, if its clock is in range.
Conversions-with_clock :
    (lib : Aionetiface) (clock : ℕ → ℕ)
    → Conversions lib
    → ((n : ℕ) → seconds (clock n) < 256 ^ 8)
    → Conversions (with_clock clock lib)
Conversions-with_clock lib clock laws range = record {
  hex_back = laws.hex_back;
  hex_length = laws.hex_length;
  bytes_kept = laws.bytes_kept;
  no_text = laws.no_text;
  text_back = laws.text_back;
  async_verifies = laws.async_verifies;
  sends = laws.sends;
  in_range = range;
}

Conversions-async_signer : (lib : Aionetiface) → Conversions lib → Conversions (async_signer lib)
Conversions-async_signer lib laws = record {
  hex_back = laws.hex_back;
  hex_length = laws.hex_length;
  bytes_kept = laws.bytes_kept;
  no_text = laws.no_text;
  text_back = laws.text_back;
  async_verifies = laws.async_verifies;
  sends = laws.sends;
  in_range = laws.in_range;
}

unpack_async-async_signer :
    (lib : Aionetiface) (t : Text) → unpack_async (async_signer lib) t ≡ unpack_async lib t
unfolding unpack_async unpack_by parse_fields
unpack_async-async_signer lib (str s) = refl
unpack_async-async_signer lib (bytes b) = refl

Read-async_signer :
    (lib : Aionetiface) (kp : KeyPair) (q : Bytes) (n : ℕ) (t : MsgEnum) (msg : Str) (time : ℕ)
    (i : Inbound)
    → Read (async_signer lib) kp q n t msg time i
    → Read lib kp q n t msg time i
Read-async_signer lib kp q n t msg time i r = record {
  signer = r.signer;
  queue = r.queue;
  number = r.number;
  kind = r.kind;
  text = r.text;
  stamped = r.stamped;
}

Forwards-with_clock :
    (lib : Aionetiface) (clock : ℕ → ℕ) (carry : Str → Bytes → MqttPacket)
    → Forwards lib carry
    → Forwards (with_clock clock lib) carry
unfolding mqtt_parse_publish
Forwards-with_clock lib clock carry f = record {
  id_high = f.id_high;
  id_low = f.id_low;
  carried = f.carried;
}

unpack_async-with_clock :
    (lib : Aionetiface) (clock : ℕ → ℕ) (t : Text)
    → unpack_async (with_clock clock lib) t ≡ unpack_async lib t
unfolding unpack_async unpack_by parse_fields
unpack_async-with_clock lib clock (str s) = refl
unpack_async-with_clock lib clock (bytes b) = refl

pack-with_clock :
    (lib : Aionetiface) (clock : ℕ → ℕ) (kp : KeyPair) (p : AppPacket) (now : ℕ)
    → pack (with_clock clock lib) kp p now ≡ pack lib kp p now
unfolding pack signed_section
pack-with_clock lib clock kp p now = refl

Read-with_clock :
    (lib : Aionetiface) (clock : ℕ → ℕ) (kp : KeyPair) (q : Bytes) (n : ℕ) (t : MsgEnum) (msg : Str)
    (time : ℕ) (i : Inbound)
    → Read lib kp q n t msg time i
    → Read (with_clock clock lib) kp q n t msg time i
Read-with_clock lib clock kp q n t msg time i r = record {
  signer = r.signer;
  queue = r.queue;
  number = r.number;
  kind = r.kind;
  text = r.text;
  stamped = r.stamped;
}

-- A later state `a'` of a client `a` that still waits for the acknowledgement, by the peer `dest`, of
-- the message with number `n` of queue `q`, and has a pipe.
pub record Awaits (a a' : Client) (dest q : Str) (n fut : ℕ) : Type 0 where
  pub closed : Bool
  pub pipe : a'.pipe ≡ some closed
  pub same_keys : a'.kp ≡ a.kp
  pub entry : Meta
  pub queued : find_meta MsgEnum.msg q n a'.msg_queues ≡ some entry
  pub addressee : entry.dest_pk_hex ≡ dest
  pub reference : entry.app_ack ≡ fut
  pub awaited : a'.futures fut ≡ pending

-- The client that a message is for: it has a pipe, does not know the message, has no acknowledgement
-- of it queued, and its clock is not too far ahead of the sender's, which gives `times`, the first one
-- after the call at `from`.
pub record Ready (lib : Aionetiface) (b : Client) (msg q : Str) (n : ℕ) (times : ℕ → ℕ) (from : ℕ)
    : Type 0 where
  pub closed : Bool
  pub pipe : b.pipe ≡ some closed
  pub unknown : has (lib.sha256_hex (lib.to_b (str msg))) b.recv_msg_ids ≡ false
  pub unanswered : find_meta MsgEnum.msgack q n b.msg_queues ≡ none
  pub recent :
      (j : ℕ)
      → from ≤ j
      → seconds (lib.clock b.ticks) ≤ seconds (times j) + 2 * b.republish_duration

-- A whole exchange: the packet that was queued, what it does at the peer, and what the peer's answer
-- does at the sender.
pub record Exchanged (lib : Aionetiface) (clock : ℕ → ℕ) (carry : Str → Bytes → MqttPacket)
    (fresh : Bytes) (a a1 a2 b : Client) (msg q : Str) (n fut : ℕ) : Type 0 where
  pub sent : Packed lib a a1 (str msg) MsgEnum.msg (lib.to_h b.kp.compact_public_key) q n fut
  pub answered :
      Answered
        (with_clock clock lib)
        b
        (handle_publish
          (with_clock clock lib)
          fresh
          (carry sent.entry.dest_pk_hex sent.entry.out)
          b).1
        msg
        (lib.to_h a.kp.compact_public_key)
        q
        n
  pub resolved :
      (handle_publish lib fresh
          (carry answered.acked.entry.dest_pk_hex answered.acked.entry.out)
          a2).1.futures
        fut
      ≡ result yes_ack

abbrev ack_str : Str
ack_str = b'a' ∷ b'c' ∷ b'k' ∷ []

module _ (lib : Aionetiface) (clock : ℕ → ℕ) (carry : Str → Bytes → MqttPacket) (fresh q : Bytes)
    (msg : Str) (a b : Client) (n fut : ℕ) (laws : Conversions lib) (f : Forwards lib carry)
    (hq : length q ≡ 32) where
  abbrev peer : Aionetiface
  peer = with_clock clock lib

  -- The packet that was queued, at the client that it is for.
  answer_of :
      (a1 : Client)
      → ((k : ℕ) → seconds (clock k) < 256 ^ 8)
      → IsKeyPair lib a.kp
      → IsKeyPair (async_signer lib) b.kp
      → (p : Packed lib a a1
          (str msg)
          MsgEnum.msg
          (lib.to_h b.kp.compact_public_key)
          (lib.to_h q)
          n
          fut)
      → Ready peer b msg (lib.to_h q) n lib.clock a.ticks
      → Answered peer b
          (handle_publish peer fresh (carry p.entry.dest_pk_hex p.entry.out) b).1
          msg
          (lib.to_h a.kp.compact_public_key)
          (lib.to_h q)
          n
  answer_of a1 range sound sound_b p ready =
      let now : ℕ = seconds (lib.clock p.tick) in
      let out : Bytes = p.entry.out in
      let packet : AppPacket = new_packet (lib.to_h q) n MsgEnum.msg (str msg) in
      let (i, read, r) =
        unpack_async-pack lib laws a.kp q n MsgEnum.msg msg now p.packet out sound hq p.packed in
      let answered : Answered peer b
          (handle_publish peer fresh (carry (lib.to_h b.kp.compact_public_key) out) b).1 msg
          (lib.to_h a.kp.compact_public_key) (lib.to_h q) n =
        receive peer (Conversions-with_clock lib clock laws range) carry fresh out a.kp q n msg now
          i b ready.closed (Forwards-with_clock lib clock carry f) sound_b.key_length ready.pipe
          (unpack_async-with_clock lib clock (bytes out) ∙ read)
          (Read-with_clock lib clock a.kp q n MsgEnum.msg msg now i r) hq sound.key_length
          (packed-range lib laws a.kp packet p.packet now out p.packed)
          (ready.recent p.tick p.later) ready.unknown ready.unanswered in
      rw p.addressee answered

  -- The acknowledgement that the peer queued, at the client that awaits it.
  resolve_of :
      (a2 b' : Client)
      → IsKeyPair lib a.kp
      → IsKeyPair (async_signer lib) b.kp
      → (answered : Answered peer b b' msg (lib.to_h a.kp.compact_public_key) (lib.to_h q) n)
      → Awaits a a2 (lib.to_h b.kp.compact_public_key) (lib.to_h q) n fut
      → (handle_publish lib fresh
            (carry answered.acked.entry.dest_pk_hex answered.acked.entry.out)
            a2).1.futures
          fut
        ≡ result yes_ack
  resolve_of a2 b' sound_a sound answered awaits =
      let acked : Acked peer b.kp (lib.to_h a.kp.compact_public_key) (lib.to_h q) n b'.msg_queues =
        answered.acked in
      let ack : Bytes = acked.entry.out in
      let packet : AppPacket = new_packet (lib.to_h q) n MsgEnum.msgack ack_text in
      let packed : pack (async_signer lib) b.kp packet acked.now ≡ ok (acked.packet, ack) =
        sym (pack-with_clock (async_signer lib) clock b.kp packet acked.now) ∙ acked.packed in
      let (i, read, r) =
        unpack_async-pack (async_signer lib) (Conversions-async_signer lib laws) b.kp q n
          MsgEnum.msgack ack_str acked.now acked.packet ack sound hq packed in
      let own : acked.entry.dest_pk_hex ≡ lib.to_h a2.kp.compact_public_key =
        acked.addressee
        ∙ sym (ap (λ (k : KeyPair). lib.to_h k.compact_public_key) awaits.same_keys) in
      let hk : length a2.kp.compact_public_key ≡ 33 =
        ap (λ (k : KeyPair). length k.compact_public_key) awaits.same_keys ∙ sound_a.key_length in
      let resolved =
        resolve lib laws carry fresh ack b.kp q n ack_str acked.now i a2 awaits.closed awaits.entry
          f hk awaits.pipe (sym (unpack_async-async_signer lib (bytes ack)) ∙ read)
          (Read-async_signer lib b.kp q n MsgEnum.msgack ack_str acked.now i r) awaits.queued
          awaits.addressee (rw awaits.reference awaits.awaited) in
      rw (own, ← awaits.reference) resolved

-- A message that ordered_ack_send took reaches each handler of the peer once, with the key of the
-- sender and its queue, when a broker carries its packet there, if the peer has a pipe, its table has
-- no hash of this text, no acknowledgement of this queue and number is queued there, and its clock is
-- not ahead of the sender's by more than twice its republish duration. And when a broker carries the
-- signed answer that the peer has queued then, the future that the call returned becomes True, if the
-- sender has a pipe and the message is still queued, for this peer, with this future pending. This is
-- for key pairs that are sound with the signers that are used (the plain one here, the one of the
-- executor for the answer), inverse conversions, equal verifiers, a pipe.send that never raises, a
-- broker that keeps topic and payload, and clocks below 256 ^ 8 seconds.
pub exchange_completes :
    (lib : Aionetiface) (clock : ℕ → ℕ) (carry : Str → Bytes → MqttPacket) (fresh q : Bytes)
    (msg : Str) (a a1 a2 b : Client) (key : Str × ℕ) (fut : ℕ)
    → Conversions lib
    → ((n : ℕ) → seconds (clock n) < 256 ^ 8)
    → Forwards lib carry
    → IsKeyPair lib a.kp
    → IsKeyPair (async_signer lib) b.kp
    → length q ≡ 32
    → ordered_ack_send lib
        (str msg)
        (lib.to_h b.kp.compact_public_key)
        (lib.to_h q)
        MsgEnum.msg
        none
        a
      ≡ (ok (key, fut), a1)
    → Ready (with_clock clock lib) b msg (lib.to_h q) key.1 lib.clock a.ticks
    → Awaits a a2 (lib.to_h b.kp.compact_public_key) (lib.to_h q) key.1 fut
    → Exchanged lib clock carry fresh a a1 a2 b msg (lib.to_h q) key.1 fut
exchange_completes lib clock carry fresh q msg a a1 a2 b key fut laws range f sound_a sound_b hq
      sent ready awaits =
    let p =
      ordered_ack_send-Packed lib (str msg) (lib.to_h b.kp.compact_public_key) (lib.to_h q)
        MsgEnum.msg a a1 key fut sent in
    let answered =
      answer_of lib clock carry fresh q msg a b key.1 fut laws f hq a1 range sound_a sound_b p
        ready in
    record {
      sent = p;
      answered = answered;
      resolved =
          resolve_of lib clock carry fresh q msg a b key.1 fut laws f hq a2 _ sound_a sound_b
            answered awaits;
    }
