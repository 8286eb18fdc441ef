-- ===== src/Proto/Link/Packets.antt =====
-- Handling a packet from the broker leaves the connection alone.
use sidewire.Prelude.{
  ℕ, zero, suc, ◌≡◌, refl, ◌∙◌, Option, none, some, [], ◌∷◌, ◌++◌, Option-cases, Bool-cases, inl,
  inr, arith, text_eq, nat_eq,
}
use sidewire.Prelude.Results.{Result-cases}
use sidewire.Prelude.Action.{◌>>=◌}
use sidewire.Prelude.Frame.{
  Leaves, Leaves-pure, Leaves-lift, Leaves-gets, Leaves-if, Leaves-modify, Leaves-try, Leaves-bind,
}
use sidewire.Prelude.Dict.{has}
use sidewire.Aionetiface.{Aionetiface, Bytes, Str, str, bytes}
use sidewire.Wire.Packet.{MqttEnum, MqttPacket, mqtt_parse_packet}
use sidewire.Wire.Reader.{next_frame, read_loop, mqtt_packet_reader}
use sidewire.AppPacket.{MsgEnum, Inbound}
use sidewire.Client.{
  Client, Meta, suback, puback, get_time, pipe_send, async_wrap_errors, get_msg_from_queue,
}
use sidewire.Client.Sending.{queue_msg_async}
use sidewire.Proto.{
  by_type, route_unpacked, handle_parsed, resend, deliver, queue_ack, answer_msg, process_app_msg,
  process_app_probe, route, check_age, authenticate, acknowledge, handle_publish,
  handle_mqtt_packet, on_chunk,
}
use sidewire.Proto.Link.{
  link, forget_acks-link, call_handlers-link, process_app_ack-link, handle_broker_ack-link,
  get_time-link, pipe_send-link, async_wrap_errors-link, publish-link, touch-link,
  ordered_ack_send_async-link, send_probe_ack-link,
}

module _ (lib : Aionetiface) (fresh : Bytes) where
  resend-link : (out : Bytes) → Leaves link (resend lib fresh out)
  unfolding resend link async_wrap_errors pipe_send
  resend-link out = record { at = λ s. ground arith }

  deliver-link : (msg src q : Str) → Leaves link (deliver lib fresh msg src q)
  unfolding deliver link ◌>>=◌ get_time
  deliver-link msg src q = record {
    at = λ s. elim (Bool-cases (has (lib.sha256_hex (lib.to_b (str msg))) s.recv_msg_ids)) [
      | inl old ↦ rw old refl
      | inr new ↦ rw new (unfold link in call_handlers-link s.msg_handlers msg src q _)
    ];
  }

  queue_ack-link : (p : Inbound) → Leaves link (queue_ack lib fresh p)
  unfolding queue_ack queue_msg_async
  queue_ack-link p =
      Leaves-try _ _ _
        (Leaves-bind _ _
          (Leaves-bind _ _ (touch-link lib) λ u. ordered_ack_send_async-link lib _ _ _ _ _)
          λ r. Leaves-pure tt)
        (Leaves-pure tt)

  answer_msg-link : (p : Inbound) (o : Option Meta) → Leaves link (answer_msg lib fresh p o)
  unfolding answer_msg
  answer_msg-link p (some m) =
      Leaves-bind _ _ (publish-link lib m.dest_pk_hex (bytes m.out)) λ r. resend-link r.0
  answer_msg-link p none =
      Leaves-bind _ _ (deliver-link p.msg p.src_pk_hex p.queue_id_hex) λ u. queue_ack-link p

  process_app_msg-link : (p : Inbound) → Leaves link (process_app_msg lib fresh p)
  unfolding process_app_msg
  process_app_msg-link p =
      Leaves-bind _ _ (Leaves-modify _ (forget_acks-link p.queue_id_hex p.seq_no))
        λ u. Leaves-bind _ _ (Leaves-gets _) λ queued. answer_msg-link p queued

  process_app_probe-link : (p : Inbound) → Leaves link (process_app_probe lib fresh p)
  unfolding process_app_probe
  process_app_probe-link p = record {
    at = λ s. elim (Option-cases (get_msg_from_queue MsgEnum.msgack p.queue_id_hex p.seq_no s)) [
      | inr (m, e) ↦ rw (e, process_app_probe) refl
      | inl e ↦
          rw (e, process_app_probe)
            ((Leaves-try _ _ _ (send_probe_ack-link lib p.src_pk_hex p.queue_id_hex p.seq_no)
                (Leaves-pure tt)).at
              s)
    ];
  }

  route-link : (p : Inbound) → Leaves link (route lib fresh p)
  unfolding route
  route-link p = Leaves-if _ _ _ (process_app_msg-link p) (
      Leaves-if _ _ _ (Leaves-modify _ (process_app_ack-link p))
        (Leaves-if _ _ _ (process_app_probe-link p) (Leaves-pure tt)))

  check_age-link : (p : Inbound) → Leaves link (check_age lib fresh p)
  unfolding check_age
  check_age-link p =
      Leaves-if _ _ _
        (Leaves-bind _ _ (Leaves-gets _) λ duration. Leaves-bind _ _ (get_time-link lib) λ now.
          Leaves-if _ _ _ (Leaves-bind _ _ (get_time-link lib) λ now'. Leaves-pure tt)
            (route-link p))
        (route-link p)

  route_unpacked-link : (o : Option Inbound) → Leaves link (route_unpacked lib fresh o)
  route_unpacked-link none = Leaves-pure tt
  route_unpacked-link (some p) = check_age-link p

  authenticate-link :
      (topic : Str) (payload : Bytes) → Leaves link (authenticate lib fresh topic payload)
  unfolding authenticate
  authenticate-link topic payload = Leaves-bind _ _ (Leaves-lift _) λ key.
      Leaves-bind _ _ (Leaves-gets _) λ own.
        Leaves-if _ _ _ (Leaves-bind _ _ (Leaves-lift _) λ unpacked. route_unpacked-link unpacked)
          (Leaves-pure tt)

  acknowledge-link : (pid : Option Bytes) → Leaves link (acknowledge lib fresh pid)
  unfolding acknowledge
  acknowledge-link none = Leaves-pure tt
  acknowledge-link (some []) = Leaves-pure tt
  acknowledge-link (some (b ∷ bs)) = pipe_send-link lib _

  handle_parsed-link :
      (o : Option (Str × Bytes × Option Bytes)) → Leaves link (handle_parsed lib fresh o)
  handle_parsed-link none = Leaves-pure tt
  handle_parsed-link (some (topic, payload, pid)) =
      Leaves-bind _ _ (acknowledge-link pid) λ u. authenticate-link topic payload

  handle_publish-link : (packet : MqttPacket) → Leaves link (handle_publish lib fresh packet)
  unfolding handle_publish
  handle_publish-link packet = Leaves-bind _ _ (Leaves-lift _) λ parsed. handle_parsed-link parsed

  by_type-link : (t : MqttEnum) (packet : MqttPacket) → Leaves link (by_type lib fresh t packet)
  by_type-link MqttEnum.puback packet = Leaves-modify _ (handle_broker_ack-link puback packet.body)
  by_type-link MqttEnum.suback packet = Leaves-modify _ (handle_broker_ack-link suback packet.body)
  by_type-link MqttEnum.publish packet = handle_publish-link packet
  by_type-link _ packet = Leaves-pure tt

  handle_mqtt_packet-link :
      (packet : MqttPacket) → Leaves link (handle_mqtt_packet lib fresh packet)
  unfolding handle_mqtt_packet
  handle_mqtt_packet-link packet = by_type-link packet.type packet

  module _ (handle : MqttPacket → Client → Client)
      (keeps : (packet : MqttPacket) (c : Client) → link (handle packet c) ≡ link c) where
    read_loop-link :
        (fuel : ℕ) (buf : Bytes) (c : Client) → link (read_loop handle fuel buf c).1.1 ≡ link c
    unfolding read_loop
    read_loop-link zero buf c = refl
    read_loop-link (suc fuel) buf c = elim (Option-cases (next_frame buf)) [
      | inl e ↦ rw (e, read_loop) refl
      | inr (frame, e) ↦ elim (Result-cases (mqtt_parse_packet frame.0)) [
        | inl (x, p) ↦ rw (e, read_loop) (rw p refl)
        | inr (packet, p) ↦
            rw (e, read_loop)
              (rw p (read_loop-link fuel frame.1 (handle packet c) ∙ keeps packet c))
      ]
    ]

    reader-link :
        (chunk buf : Bytes) (c : Client)
        → link (mqtt_packet_reader handle chunk (buf, c)).1.1 ≡ link c
    unfolding mqtt_packet_reader
    reader-link [] buf c = refl
    reader-link (b ∷ chunk) buf c = read_loop-link _ (buf ++ (b ∷ chunk)) c

  -- A chunk of the stream leaves the pipe, the closing flag, the dispatcher and the keys alone.
  pub on_chunk-link : (chunk : Bytes) → Leaves link (on_chunk lib fresh chunk)
  unfolding on_chunk link
  on_chunk-link chunk = record {
    at = λ s.
        reader-link (λ packet c. (async_wrap_errors lib (handle_mqtt_packet lib fresh packet) c).1)
          (λ packet c. (async_wrap_errors-link lib _ (handle_mqtt_packet-link packet)).at c) chunk
          s.buf s;
  }
