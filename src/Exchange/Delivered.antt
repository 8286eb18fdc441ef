-- ===== src/Exchange/Delivered.antt =====
-- The two ends of an exchange: a message at the peer, and the acknowledgement at the sender.
use sidewire.Prelude.{
  ℕ, ◌+◌, ◌*◌, ◌^◌, ◌<◌, ◌≤◌, ◌≡◌, refl, sym, ap, ◌∙◌, none, some, [], ◌∷◌, ◌++◌, length, List, map,
  Bool, false, text_eq, arith,
}
use sidewire.Prelude.Results.{Result, ok}
use sidewire.Prelude.Dict.{has, put}
use sidewire.Aionetiface.{Aionetiface, Bytes, Str, str, bytes}
use sidewire.Wire.Struct.{pack_range}
use sidewire.Wire.Packet.{MqttPacket}
use sidewire.Wire.Msgs.{build_puback}
use sidewire.AppPacket.{MsgEnum, AppPacket, Inbound, KeyPair, pack, unpack_async}
use sidewire.AppPacket.RoundTrip.{pack_inv, signed_section_inv}
use sidewire.Client.{Client, Meta, find_meta, done, result, pending, yes_ack, seconds}
use sidewire.Proto.{handle_publish, process_app_msg}
use sidewire.Proto.AppAck.{Acknowledges, process_app_ack_resolves}
use sidewire.Proto.AppMsg.{calls}
use sidewire.Proto.Inbox.{Received, inbox}
use sidewire.Proto.Delivery.{expected_of, queued_ack, process_app_msg-inbox}
use sidewire.Exchange.{Conversions, Forwards}
use sidewire.Exchange.Arrival.{Read, handle_publish-carried, check_age-msg, check_age-ack}
use sidewire.Exchange.Answer.{Acked, process_app_msg-Acked}

-- The call of one handler with a message.
abbrev pub call_of : Str → Str → Str → ℕ → ℕ × Str × Str × Str
call_of msg src q h = (h, msg, src, q)

calls-map :
    (hs : List ℕ) (i : Inbound) → calls hs i ≡ map (call_of i.msg i.src_pk_hex i.queue_id_hex) hs
calls-map [] i = refl
calls-map (h ∷ hs) i = ap (λ r. call_of i.msg i.src_pk_hex i.queue_id_hex h ∷ r) (calls-map hs i)

-- What the client `b` with the keys `kp` has become by a message of the signer `src`: every handler of
-- it was called once with the message, and an acknowledgement is queued for the signer.
pub record Answered (lib : Aionetiface) (b b' : Client) (msg src q : Str) (n : ℕ) : Type 0 where
  pub delivered : b'.delivered ≡ b.delivered ++ map (call_of msg src q) b.msg_handlers
  pub acked : Acked lib b.kp src q n b'.msg_queues

module _ (lib : Aionetiface) (laws : Conversions lib) where
  -- A number that was packed has 32 bits.
  pub packed-range :
      (kp : KeyPair) (p p' : AppPacket) (now : ℕ) (out : Bytes)
      → pack lib kp p now ≡ ok (p', out)
      → p.seq_no < 256 ^ 4
  packed-range kp p p' now out h =
      let (signed, section, _, _, _, _) = pack_inv lib kp p p' now out h in
      let (q, s, t, k, eq, es, et, ek, e) = signed_section_inv lib kp p _ _ signed section in
      pack_range 4 p.seq_no s es

  -- A signed message for the client, new and not too old, is delivered and answered.
  pub receive :
      (carry : Str → Bytes → MqttPacket) (fresh payload : Bytes) (src : KeyPair) (q : Bytes) (n : ℕ)
      (msg : Str) (time : ℕ) (i : Inbound) (b : Client) (closed : Bool)
      → Forwards lib carry
      → length b.kp.compact_public_key ≡ 33
      → b.pipe ≡ some closed
      → unpack_async lib (bytes payload) ≡ ok (some i)
      → Read lib src q n MsgEnum.msg msg time i
      → length q ≡ 32
      → length src.compact_public_key ≡ 33
      → n < 256 ^ 4
      → seconds (lib.clock b.ticks) ≤ time + 2 * b.republish_duration
      → has (lib.sha256_hex (lib.to_b (str msg))) b.recv_msg_ids ≡ false
      → find_meta MsgEnum.msgack (lib.to_h q) n b.msg_queues ≡ none
      → Answered lib b
          (handle_publish lib fresh (carry (lib.to_h b.kp.compact_public_key) payload) b).1
          msg
          (lib.to_h src.compact_public_key)
          (lib.to_h q)
          n
  unfolding inbox
  receive carry fresh payload src q n msg time i b closed f hk open_pipe read r hq hs hn recent new
        unused =
      let topic : Str = lib.to_h b.kp.compact_public_key in
      let b2 : Client = record b {
        sent =
            b.sent ++ (build_puback (f.id_high topic payload ∷ f.id_low topic payload ∷ []) ∷ []);
        ticks = b.ticks + 1;
      } in
      let recent' : seconds (lib.clock b.ticks) ≤ i.timestamp + 2 * b.republish_duration =
        omega (arith, recent, r.stamped) in
      let run : handle_publish lib fresh (carry topic payload) b ≡ process_app_msg lib fresh i b2 =
        handle_publish-carried lib laws carry fresh payload i b closed f hk open_pipe read
        ∙ check_age-msg lib laws fresh i (record b2 { ticks = b.ticks }) r.kind recent' in
      let after : (handle_publish lib fresh (carry topic payload) b).1
          ≡ (process_app_msg lib fresh i b2).1 =
        ap (λ (x : Result (Unit {0}) × Client). x.1) run in
      let unused' : queued_ack lib fresh i b2 ≡ none = rw (r.queue, r.number) unused in
      let new' : has (lib.sha256_hex (lib.to_b (str i.msg))) b.recv_msg_ids ≡ false =
        rw r.text new in
      let hn' : i.seq_no < 256 ^ 4 = omega (arith, hn, r.number) in
      let acked : Acked lib b.kp i.src_pk_hex i.queue_id_hex i.seq_no
          (process_app_msg lib fresh i b2).1.msg_queues =
        process_app_msg-Acked lib laws fresh i q src.compact_public_key hq hs r.queue r.signer hn'
          b2 unused' in
      let fresh_inbox : expected_of lib fresh i b2 none ≡ record (inbox b) {
        delivered = b.delivered ++ calls b.msg_handlers i;
        recv_msg_ids =
            put (lib.sha256_hex (lib.to_b (str i.msg))) (lib.clock b2.ticks) b.recv_msg_ids;
      } =
        rw new' refl in
      let called : (process_app_msg lib fresh i b2).1.delivered
          ≡ b.delivered ++ calls b.msg_handlers i =
        ap (λ (x : Received). x.delivered)
          (process_app_msg-inbox lib fresh i b2
            ∙ ap (expected_of lib fresh i b2) unused'
            ∙ fresh_inbox) in
      let answered : Answered lib b (process_app_msg lib fresh i b2).1 i.msg i.src_pk_hex
          i.queue_id_hex i.seq_no =
        record {
          delivered = called ∙ ap (λ cs. b.delivered ++ cs) (calls-map b.msg_handlers i);
          acked = acked;
        } in
      rw (after, ← r.text, ← r.signer, ← r.queue, ← r.number) answered

  -- The signed acknowledgement of a message that is queued and awaited resolves its future.
  pub resolve :
      (carry : Str → Bytes → MqttPacket) (fresh payload : Bytes) (src : KeyPair) (q : Bytes) (n : ℕ)
      (msg : Str) (time : ℕ) (i : Inbound) (a : Client) (closed : Bool) (m : Meta)
      → Forwards lib carry
      → length a.kp.compact_public_key ≡ 33
      → a.pipe ≡ some closed
      → unpack_async lib (bytes payload) ≡ ok (some i)
      → Read lib src q n MsgEnum.msgack msg time i
      → find_meta MsgEnum.msg (lib.to_h q) n a.msg_queues ≡ some m
      → m.dest_pk_hex ≡ lib.to_h src.compact_public_key
      → a.futures m.app_ack ≡ pending
      → (handle_publish lib fresh (carry (lib.to_h a.kp.compact_public_key) payload) a).1.futures
          m.app_ack
        ≡ result yes_ack
  unfolding done
  resolve carry fresh payload src q n msg time i a closed m f hk open_pipe read r queued dest
        awaited =
      let topic : Str = lib.to_h a.kp.compact_public_key in
      let a' : Client = record a {
        sent =
            a.sent ++ (build_puback (f.id_high topic payload ∷ f.id_low topic payload ∷ []) ∷ []);
      } in
      let acknowledges : Acknowledges i a' MsgEnum.msg m = record {
        queued = rw (r.queue, r.number) queued;
        addressee = dest ∙ sym r.signer;
        awaited = rw awaited refl;
      } in
      ap (λ (x : Result (Unit {0}) × Client). x.1.futures m.app_ack)
        (handle_publish-carried lib laws carry fresh payload i a closed f hk open_pipe read
          ∙ check_age-ack lib laws fresh i a' r.kind)
      ∙ process_app_ack_resolves i a' m acknowledges
