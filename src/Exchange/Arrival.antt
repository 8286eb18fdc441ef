-- ===== src/Exchange/Arrival.antt =====
-- What a signed packet becomes at the client that it is for.
use sidewire.Prelude.{
  ℕ, ◌+◌, ◌*◌, ◌≤◌, ◌≡◌, refl, sym, ap, ◌∙◌, some, [], ◌∷◌, ◌++◌, ltb, length, bytes_eq,
  bytes_eq_iff, Bool, true, false, arith,
}
use sidewire.Prelude.Results.{ok}
use sidewire.Prelude.Action.{◌>>=◌}
use sidewire.Aionetiface.{Aionetiface, Bytes, Str, Text, str, bytes}
use sidewire.Wire.Packet.{MqttPacket}
use sidewire.Wire.Msgs.{build_puback}
use sidewire.AppPacket.{
  MsgEnum, AppPacket, Inbound, KeyPair, to_int, pack, unpack, unpack_async, unpack_by,
}
use sidewire.AppPacket.RoundTrip.{IsKeyPair, unpack-pack_lem, bytes_of_msg, pack_inv}
use sidewire.Client.{Client, pipe_send, get_time, seconds}
use sidewire.Client.Sending.{new_packet}
use sidewire.Proto.{
  authenticate, acknowledge, handle_publish, check_age, route, process_app_msg, process_app_ack,
}
use sidewire.Exchange.{Conversions, Forwards}

-- A packet that was read: who signed it, its queue, number, type and message.
pub record Read (lib : Aionetiface) (kp : KeyPair) (q : Bytes) (n : ℕ) (t : MsgEnum) (msg : Str)
    (time : ℕ) (i : Inbound) : Type 0 where
  pub signer : i.src_pk_hex ≡ lib.to_h kp.compact_public_key
  pub queue : i.queue_id_hex ≡ lib.to_h q
  pub number : i.seq_no ≡ n
  pub kind : i.msg_type ≡ to_int t
  pub text : i.msg ≡ msg
  pub stamped : i.timestamp ≡ time

module _ (lib : Aionetiface) (laws : Conversions lib) where
  async_unpacks : (t : Text) → unpack_async lib t ≡ unpack lib t
  unfolding unpack_async unpack unpack_by
  async_unpacks (str s) = refl
  async_unpacks (bytes b) = rw laws.async_verifies

  text_kept :
      (kp : KeyPair) (q : Str) (n : ℕ) (t : MsgEnum) (msg : Str)
      → bytes_of_msg lib kp (new_packet q n t (str msg)) ≡ lib.to_b (str msg)
  text_kept kp q n t [] = sym laws.no_text
  text_kept kp q n t (x ∷ xs) = refl

  -- What was packed for a message is read as that message.
  pub unpack_async-pack :
      (kp : KeyPair) (q : Bytes) (n : ℕ) (t : MsgEnum) (msg : Str) (now : ℕ) (p' : AppPacket)
      (out : Bytes)
      → IsKeyPair lib kp
      → length q ≡ 32
      → pack lib kp (new_packet (lib.to_h q) n t (str msg)) now ≡ ok (p', out)
      → (i : Inbound) × (unpack_async lib (bytes out) ≡ ok (some i)) × Read lib kp q n t msg now i
  unpack_async-pack kp q n t msg now p' out sound hq h =
      let p : AppPacket = new_packet (lib.to_h q) n t (str msg) in
      let (i, read, key, sig, time, queue, number, kind, text) =
        unpack-pack_lem lib kp p p' now q out sound (laws.hex_back q) hq h in
      let (signed, section, e_out, e_key, e_sig, e_time) = pack_inv lib kp p p' now out h in
      (
        i,
        async_unpacks (bytes out) ∙ read,
        record {
          signer = cc (key, e_key);
          queue = queue;
          number = number;
          kind = kind;
          text =
              text
              ∙ ap (λ b. lib.to_s (bytes b)) (text_kept kp (lib.to_h q) n t msg)
              ∙ laws.text_back msg;
          stamped = cc (time, e_time);
        },
      )

  -- A PUBLISH that the broker forwards to the client whose key its topic names, with a payload that
  -- unpacks: it is acknowledged to the broker, and the packet goes on to the age check.
  pub handle_publish-carried :
      (carry : Str → Bytes → MqttPacket) (fresh : Bytes) (payload : Bytes) (i : Inbound)
      (c : Client) (closed : Bool)
      → (f : Forwards lib carry) → length c.kp.compact_public_key ≡ 33
      → c.pipe ≡ some closed
      → unpack_async lib (bytes payload) ≡ ok (some i)
      → let topic : Str = lib.to_h c.kp.compact_public_key in
        let puback : Bytes = build_puback (f.id_high topic payload ∷ f.id_low topic payload ∷ []) in
        handle_publish lib fresh (carry topic payload) c
        ≡ check_age lib fresh i (record c { sent = c.sent ++ (puback ∷ []) })
  unfolding handle_publish ◌>>=◌ authenticate acknowledge pipe_send
  handle_publish-carried carry fresh payload i c closed f hk open_pipe read =
      let own : bytes_eq c.kp.compact_public_key c.kp.compact_public_key ≡ true =
        (bytes_eq_iff c.kp.compact_public_key c.kp.compact_public_key).1 refl in
      rw (f.carried c.kp.compact_public_key payload hk) (
        rw (open_pipe, laws.sends)
          (rw (laws.hex_back c.kp.compact_public_key) (rw own (rw read refl))))

  -- A message that is not too old, and an acknowledgement of any age, reach their handlers.
  pub check_age-msg :
      (fresh : Bytes) (i : Inbound) (c : Client)
      → i.msg_type ≡ to_int MsgEnum.msg
      → seconds (lib.clock c.ticks) ≤ i.timestamp + 2 * c.republish_duration
      → check_age lib fresh i c ≡ process_app_msg lib fresh i (record c { ticks = c.ticks + 1 })
  unfolding check_age route ◌>>=◌ get_time to_int
  check_age-msg fresh i c kind recent =
      let young : ltb (i.timestamp + 2 * c.republish_duration) (seconds (lib.clock c.ticks))
          ≡ false =
        ground arith in
      rw kind (rw young refl)

  pub check_age-ack :
      (fresh : Bytes) (i : Inbound) (c : Client)
      → i.msg_type ≡ to_int MsgEnum.msgack
      → check_age lib fresh i c ≡ (ok tt, process_app_ack i c)
  unfolding check_age route ◌>>=◌ to_int
  check_age-ack fresh i c kind = rw kind refl
