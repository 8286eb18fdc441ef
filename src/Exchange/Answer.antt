-- ===== src/Exchange/Answer.antt =====
-- What the client that receives a message does: it delivers it and queues a signed acknowledgement.
use sidewire.Prelude.{
  ℕ, zero, ◌+◌, ◌^◌, ◌<◌, ◌≡◌, refl, sym, ap, subst, ◌∙◌, none, some, [], ◌∷◌, ◌==◌, length, List,
  bytes_eq_iff, inl, inr, true, false, Bool-cases, nat_eq, text_eq, arith,
}
use sidewire.Prelude.Results.{Result, ok, Result-cases, map_ok}
use sidewire.Prelude.Action.{◌>>=◌, pure, catch, continue}
use sidewire.Prelude.Dict.{has, put}
use sidewire.Aionetiface.{Aionetiface, Bytes, Str, Text, str}
use sidewire.Wire.Struct.{pack_lem}
use sidewire.AppPacket.{
  MsgEnum, AppPacket, Inbound, KeyPair, to_int, pack, pack_async, signed_section,
}
use sidewire.AppPacket.Authentic.{pack_async-pack, async_signer}
use sidewire.Client.{Client, Meta, Queues, find_meta, get_time, put_sub, seconds}
use sidewire.Client.Sending.{
  new_packet, ack_text, ensure_queue, or_random, queue_msg_async, ordered_ack_send_async,
  ordered_ack_send_by, note_sent, touch, pack_packet_async, new_meta,
}
use sidewire.Client.Sending.Queueing.{after, find_meta-after, enqueue_new, find_meta-ensure_queue}
use sidewire.Proto.{
  deliver, queue_ack, answer_msg, process_app_msg, forget_acks, call_handlers, value_or_key,
}
use sidewire.Proto.Delivery.{queued_ack, queued_ack-forget}
use sidewire.Exchange.{Conversions}

-- The entry of an acknowledgement: it is for the peer, and holds the packet "ack", which the signer of
-- the executor has signed.
pub record Acked (lib : Aionetiface) (kp : KeyPair) (peer q : Str) (n : ℕ) (queues : Queues)
    : Type 0 where
  pub entry : Meta
  pub stored : find_meta MsgEnum.msgack q n queues ≡ some entry
  pub addressee : entry.dest_pk_hex ≡ peer
  pub now : ℕ
  pub packet : AppPacket
  pub packed :
      pack (async_signer lib) kp (new_packet q n MsgEnum.msgack ack_text) now
      ≡ ok (packet, entry.out)

-- The keys and the queues.
abbrev keys_and_queues : Client → KeyPair × Queues
keys_and_queues c = (c.kp, c.msg_queues)

ensure_queue-kp : (t : MsgEnum) (q : Str) (c : Client) → (ensure_queue t q c).kp ≡ c.kp
unfolding ensure_queue put_sub
ensure_queue-kp t q c = ground arith

forget_acks-kp : (q : Str) (n : ℕ) (c : Client) → (forget_acks q n c).kp ≡ c.kp
unfolding forget_acks put_sub
forget_acks-kp q n c = ground arith

call_handlers-keys :
    (hs : List ℕ) (msg src q : Str) (c : Client)
    → keys_and_queues (call_handlers hs msg src q c) ≡ keys_and_queues c
unfolding call_handlers
call_handlers-keys [] msg src q c = refl
call_handlers-keys (h ∷ hs) msg src q c = call_handlers-keys hs msg src q _

or_random-queue :
    (lib : Aionetiface) (q : Str) (fresh : Bytes) → length q ≡ 64 → or_random lib (some q) fresh ≡ q
or_random-queue lib [] fresh h = absurd (omega (arith, h))
or_random-queue lib (x ∷ q) fresh h = refl

small_type : (t : MsgEnum) → to_int t < 256 ^ 1
unfolding to_int
small_type MsgEnum.msg = omega arith
small_type MsgEnum.msgack = omega arith
small_type MsgEnum.probe = omega arith

module _ (lib : Aionetiface) (laws : Conversions lib) where
  -- A packet for a queue of 32 bytes with a number of 32 bits is packed.
  pack_succeeds :
      (kp : KeyPair) (q_hex : Str) (q : Bytes) (n : ℕ) (t : MsgEnum) (m : Text) (now : ℕ)
      → q_hex ≡ lib.to_h q
      → length q ≡ 32
      → n < 256 ^ 4
      → now < 256 ^ 8
      → (r : AppPacket × Bytes) × (pack (async_signer lib) kp (new_packet q_hex n t m) now ≡ ok r)
  unfolding pack signed_section
  pack_succeeds kp q_hex q n t m now hex hq hn ht =
      let (s, es, _, _, _) = pack_lem 4 n hn in
      let (ts, et, _, _, _) = pack_lem 8 now ht in
      let (k, ek, _, _, _) = pack_lem 1 (to_int t) (small_type t) in
      let fits : length (lib.to_h q) == 64 ≡ true = ground (arith, laws.hex_length q) in
      let run : map_ok (λ (r : AppPacket × Bytes). zero)
            (pack (async_signer lib) kp (new_packet q_hex n t m) now)
          ≡ ok zero =
        rw hex (rw (fits, laws.hex_back q, es, et, ek) refl) in
      elim (Result-cases (pack (async_signer lib) kp (new_packet q_hex n t m) now)) [
        | inl (x, e) ↦ absurd (cc (run, ap (map_ok (λ (r : AppPacket × Bytes). zero)) e))
        | inr done ↦ done
      ]

  pack_async_succeeds :
      (kp : KeyPair) (p p' : AppPacket) (now : ℕ) (out : Bytes)
      → pack (async_signer lib) kp p now ≡ ok (p', out)
      → (p'' : AppPacket) × (pack_async lib kp p now ≡ ok (p'', out))
  pack_async_succeeds kp p p' now out h =
      let same = pack_async-pack lib laws.no_text (laws.bytes_kept []) kp p now in
      let value : map_ok (λ r. r.1) (pack_async lib kp p now) ≡ ok out =
        same ∙ ap (map_ok (λ r. r.1)) h in
      elim (Result-cases (pack_async lib kp p now)) [
        | inl (x, e) ↦ absurd (cc (value, ap (map_ok (λ r. r.1)) e))
        | inr ((p'', out''), e) ↦
            let both : ok out'' ≡ ok out = sym (ap (map_ok (λ r. r.1)) e) ∙ value in
            let here : out'' ≡ out = cc both in (p'', e ∙ ap (λ o. ok (p'', o)) here)
      ]

  module _ (fresh : Bytes) (i : Inbound) where
    deliver-keys :
        (c : Client)
        → (s : Client) × (deliver lib fresh i.msg i.src_pk_hex i.queue_id_hex c ≡ (ok tt, s))
          × (keys_and_queues s ≡ keys_and_queues c)
    unfolding deliver ◌>>=◌ get_time
    deliver-keys c =
        elim (Bool-cases (has (lib.sha256_hex (lib.to_b (str i.msg))) c.recv_msg_ids)) [
          | inl old ↦ (c, rw old refl, refl)
          | inr new ↦ (
            call_handlers c.msg_handlers i.msg i.src_pk_hex i.queue_id_hex (record c {
              ticks = c.ticks + 1;
              recv_msg_ids =
                  put (lib.sha256_hex (lib.to_b (str i.msg))) (lib.clock c.ticks) c.recv_msg_ids;
            }),
            rw new refl,
            call_handlers-keys c.msg_handlers i.msg i.src_pk_hex i.queue_id_hex _,
          )
        ]

    -- The client when the acknowledgement is packed.
    abbrev touched : Client → Client
    touched s =
        ensure_queue MsgEnum.msgack i.queue_id_hex
          (record s { last_send = some (lib.clock s.ticks); ticks = s.ticks + 1 })

    queue_ack-run :
        (s : Client) (p' : AppPacket) (out : Bytes)
        → length i.queue_id_hex ≡ 64
        → length i.src_pk_hex ≡ 66
        → find_meta MsgEnum.msgack i.queue_id_hex i.seq_no s.msg_queues ≡ none
        → pack_async lib
            (touched s).kp
            (new_packet i.queue_id_hex i.seq_no MsgEnum.msgack ack_text)
            (seconds (lib.clock (touched s).ticks))
          ≡ ok (p', out)
        → queue_ack lib fresh i s ≡ (
          ok tt,
          after lib MsgEnum.msgack i.queue_id_hex i.seq_no i.src_pk_hex out
              (record (touched s) { ticks = (touched s).ticks + 1 }),
        )
    unfolding queue_ack queue_msg_async touch ordered_ack_send_async ordered_ack_send_by note_sent
        pack_packet_async ◌>>=◌ get_time
    queue_ack-run s p' out hq hs unused packed =
        let q64 : length i.queue_id_hex == 64 ≡ true = ground (arith, hq) in
        let s66 : length i.src_pk_hex == 66 ≡ true = ground (arith, hs) in
        let unused' : find_meta MsgEnum.msgack i.queue_id_hex i.seq_no (touched s).msg_queues
            ≡ none =
          find_meta-ensure_queue MsgEnum.msgack MsgEnum.msgack i.queue_id_hex i.queue_id_hex
            i.seq_no (record s { last_send = some (lib.clock s.ticks); ticks = s.ticks + 1 })
          ∙ unused in
        rw (or_random-queue lib i.queue_id_hex fresh hq) (
          rw (q64, s66)
            (rw packed (
              rw unused' (
                ap
                  (λ (r : Result ((Str × ℕ) × ℕ) × Client).
                    catch value_or_key (pure tt) (continue r (λ x. pure tt)))
                  (enqueue_new lib MsgEnum.msgack i.queue_id_hex i.seq_no i.src_pk_hex out
                    (record (touched s) { ticks = (touched s).ticks + 1 }))))))

    module _ (q src : Bytes) (hq : length q ≡ 32) (hs : length src ≡ 33)
        (queue : i.queue_id_hex ≡ lib.to_h q) (signer : i.src_pk_hex ≡ lib.to_h src)
        (hn : i.seq_no < 256 ^ 4) where
      queue_ack-Acked :
          (s : Client)
          → find_meta MsgEnum.msgack i.queue_id_hex i.seq_no s.msg_queues ≡ none
          → Acked lib s.kp i.src_pk_hex i.queue_id_hex i.seq_no
              (queue_ack lib fresh i s).1.msg_queues
      queue_ack-Acked s unused =
          let kp : KeyPair = (touched s).kp in
          let p : AppPacket = new_packet i.queue_id_hex i.seq_no MsgEnum.msgack ack_text in
          let now : ℕ = seconds (lib.clock (touched s).ticks) in
          let ((p', out), packed) =
            pack_succeeds kp i.queue_id_hex q i.seq_no MsgEnum.msgack ack_text now queue hq hn
              (laws.in_range (touched s).ticks) in
          let (p'', packed'') = pack_async_succeeds kp p p' now out packed in
          let s' : Client = record (touched s) { ticks = (touched s).ticks + 1 } in
          let same_kp : kp ≡ s.kp =
            ensure_queue-kp MsgEnum.msgack i.queue_id_hex
              (record s { last_send = some (lib.clock s.ticks); ticks = s.ticks + 1 }) in
          let q64 : length i.queue_id_hex ≡ 64 =
            omega (arith, ap length queue, laws.hex_length q, hq) in
          let s66 : length i.src_pk_hex ≡ 66 =
            omega (arith, ap length signer, laws.hex_length src, hs) in
          let run = queue_ack-run s p'' out q64 s66 unused packed'' in
          record {
            entry = new_meta s'.next_future i.src_pk_hex i.seq_no out (lib.clock s'.ticks) false;
            stored =
                ap
                  (λ (r : Result (Unit {0}) × Client).
                    find_meta MsgEnum.msgack i.queue_id_hex i.seq_no r.1.msg_queues)
                  run
                ∙ find_meta-after lib MsgEnum.msgack MsgEnum.msgack i.queue_id_hex i.queue_id_hex
                    i.seq_no i.seq_no i.src_pk_hex out s'
                ∙ ground (arith, bytes_eq_iff i.queue_id_hex i.queue_id_hex);
            addressee = refl;
            now = now;
            packet = p';
            packed =
                subst (λ (k : KeyPair). pack (async_signer lib) k p now ≡ ok (p', out)) same_kp
                  packed;
          }

      answer_msg-Acked :
          (c : Client)
          → queued_ack lib fresh i c ≡ none
          → Acked lib c.kp i.src_pk_hex i.queue_id_hex i.seq_no
              (answer_msg lib fresh i none c).1.msg_queues
      unfolding answer_msg ◌>>=◌
      answer_msg-Acked c unused =
          let (s, run, same) = deliver-keys c in
          let kp : s.kp ≡ c.kp = ap (λ (r : KeyPair × Queues). r.0) same in
          let queues : s.msg_queues ≡ c.msg_queues = ap (λ (r : KeyPair × Queues). r.1) same in
          let unused' : find_meta MsgEnum.msgack i.queue_id_hex i.seq_no s.msg_queues ≡ none =
            ap (find_meta MsgEnum.msgack i.queue_id_hex i.seq_no) queues ∙ unused in
          rw run (
            subst
              (λ (k : KeyPair).
                Acked lib k i.src_pk_hex i.queue_id_hex i.seq_no
                  (queue_ack lib fresh i s).1.msg_queues)
              kp (queue_ack-Acked s unused'))

      -- A message whose acknowledgement is not queued gets one: an entry for its signer, under the
      -- message's queue and number, that holds the signed packet "ack".
      pub process_app_msg-Acked :
          (c : Client)
          → queued_ack lib fresh i c ≡ none
          → Acked lib c.kp i.src_pk_hex i.queue_id_hex i.seq_no
              (process_app_msg lib fresh i c).1.msg_queues
      unfolding process_app_msg ◌>>=◌
      process_app_msg-Acked c unused =
          let c' : Client = forget_acks i.queue_id_hex i.seq_no c in
          let unused' : queued_ack lib fresh i c' ≡ none =
            queued_ack-forget lib fresh i c ∙ unused in
          rw unused' (
            subst
              (λ (k : KeyPair).
                Acked lib k i.src_pk_hex i.queue_id_hex i.seq_no
                  (answer_msg lib fresh i none c').1.msg_queues)
              (forget_acks-kp i.queue_id_hex i.seq_no c) (answer_msg-Acked c' unused'))
