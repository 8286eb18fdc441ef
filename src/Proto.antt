-- ===== src/Proto.antt =====
-- What the client does with a packet from the broker: src/sidewire/mqtt/app_proto.py and
-- src/sidewire/mqtt/mqtt_proto.py, and the reader of mqtt_reader.py on the client's buffer.
pub mod AppAck
pub mod AppMsg
pub mod Delivery
pub mod Publish
pub mod Inbox
pub mod Link
use sidewire.Prelude.{
  ℕ, zero, suc, ◌+◌, ◌*◌, Bool, true, false, ◌&&◌, not, Option, none, some, List, [], ◌∷◌, ◌++◌,
  if◌then◌else◌, ltb, ◌==◌, bytes_eq, nat_eq, text_eq,
}
use sidewire.Prelude.Results.{
  Exn, value_error, key_error, os_error, connection_error, attribute_error, Result, ok, raised,
}
use sidewire.Prelude.Action.{Action, pure, throw, lift, gets, modify, try_except, ◌>>=◌, ◌>>◌}
use sidewire.Prelude.Dict.{Dict, get, put, del, has}
use sidewire.Aionetiface.{Aionetiface, Bytes, Str, Text, str, bytes}
use sidewire.Wire.Packet.{MqttEnum, MqttPacket, mqtt_parse_publish}
use sidewire.Wire.Msgs.{build_puback}
use sidewire.Wire.Reader.{mqtt_packet_reader}
use sidewire.AppPacket.{MsgEnum, to_int, Inbound, unpack_async}
use sidewire.Client.{
  Client, Meta, SubQueue, Queue, yes_ack, done, suback, puback, queue_of, sub_queue, find_meta,
  get_msg_from_queue, put_sub, del_sub, set_result, get_time, pipe_send, pipe_open,
  async_wrap_errors, seconds,
}
use sidewire.Client.PacketIds.{handle_broker_ack}
use sidewire.Client.Sending.{sub_or_empty, publish, queue_msg_async, send_probe_ack, ack_text}

-- except (ValueError, KeyError), and except (ValueError, KeyError, OSError)
unfoldable pub value_or_key : Exn → Bool
value_or_key value_error = true
value_or_key key_error = true
value_or_key _ = false

unfoldable pub value_key_or_os : Exn → Bool
value_key_or_os value_error = true
value_key_or_os key_error = true
value_key_or_os os_error = true
value_key_or_os connection_error = true
value_key_or_os _ = false

-- for old_seq in list(ack_queue.keys()): if old_seq < seq_no: del ack_queue[old_seq]
unfoldable pub drop_older : ℕ → SubQueue → SubQueue
drop_older seq_no [] = []
drop_older seq_no ((n, m) ∷ d) =
    let rest = drop_older seq_no d in if ltb n seq_no then rest else (n, m) ∷ rest

abbrev older_dropped : Str → ℕ → Option SubQueue → Client → Client
older_dropped queue_id seq_no none c = c
older_dropped queue_id seq_no (some d) c = put_sub MsgEnum.msgack queue_id (drop_older seq_no d) c

-- Acknowledgements that are older than the message are no longer sent.
unfoldable pub forget_acks : Str → ℕ → Client → Client
unfolding sub_queue drop_older put_sub
forget_acks queue_id seq_no c =
    older_dropped queue_id seq_no (sub_queue MsgEnum.msgack queue_id c.msg_queues) c

-- for msg_handler in client.msg_handlers: await async_wrap_errors(msg_handler(…))
unfoldable pub call_handlers : List ℕ → Str → Str → Str → Client → Client
call_handlers [] msg src_pk queue_id c = c
call_handlers (h ∷ hs) msg src_pk queue_id c =
    call_handlers hs msg src_pk queue_id
      (record c { delivered = c.delivered ++ ((h, msg, src_pk, queue_id) ∷ []) })

-- `del queue[seq_no]` has left these entries: a queue without any is deleted, too.
unfoldable pub keep_left : MsgEnum → Str → SubQueue → Client → Client
unfolding put_sub del_sub
keep_left t queue_id [] c = del_sub t queue_id c
keep_left t queue_id (x ∷ xs) c = put_sub t queue_id (x ∷ xs) c

-- process_app_ack in one of the two queues; `true` says that the function returns.
unfoldable pub ack_in : MsgEnum → Str → ℕ → Str → Client → Bool × Client
unfolding find_meta sub_queue keep_left done set_result
ack_in t queue_id seq_no src_pk c = elim (find_meta t queue_id seq_no c.msg_queues) [
  | none ↦ (false, c)
  | some m ↦
      let c' : Client = (set_result m.app_ack yes_ack c).1 in
      let queued : SubQueue = sub_or_empty (sub_queue t queue_id c'.msg_queues) in
      let left : SubQueue = del seq_no queued in
      let emptied : Client = keep_left t queue_id left c' in
      if bytes_eq m.dest_pk_hex src_pk
      then (if done (c.futures m.app_ack)
          then (true, c)
          else if m.probe_one_shot
          then (true, emptied)
          else (true, c'))
      else (false, c)
]

unfoldable pub process_app_ack : Inbound → Client → Client
unfolding ack_in
process_app_ack p c =
    let (returned, c') = ack_in MsgEnum.msg p.queue_id_hex p.seq_no p.src_pk_hex c in
    if returned then c' else (ack_in MsgEnum.probe p.queue_id_hex p.seq_no p.src_pk_hex c').1

-- `fresh` is what rand_b(32) returns, in case that it is called.
module _ (lib : Aionetiface) (fresh : Bytes) where
  -- `await async_wrap_errors(client.pipe.send(out))`: that `pipe` is None is met outside the wrapper.
  unfoldable pub resend : Bytes → Action Client (Unit {0})
  unfolding pipe_send async_wrap_errors
  resend out c = elim c.pipe [
    | none ↦ (raised attribute_error, c)
    | some closed ↦ async_wrap_errors lib (pipe_send lib out) c
  ]

  -- A message whose hash is unknown is stamped and goes to the handlers.
  unfoldable pub deliver : Str → Str → Str → Action Client (Unit {0})
  unfolding call_handlers get_time
  deliver msg src_pk queue_id c =
      let msg_hash = lib.sha256_hex (lib.to_b (str msg)) in
      if has msg_hash c.recv_msg_ids
      then (ok tt, c)
      else ((do
        now ← get_time lib
        modify (λ c. record c { recv_msg_ids = put msg_hash now c.recv_msg_ids })
        modify (λ c. call_handlers c.msg_handlers msg src_pk queue_id c))
          c)

  abbrev ignore : {A : Type 0} → Action Client A → Action Client (Unit {0})
  ignore m = m >>= λ _. pure tt

  unfoldable pub queue_ack : Inbound → Action Client (Unit {0})
  unfolding value_or_key
  queue_ack p =
      try_except value_or_key
        (ignore (
          queue_msg_async lib fresh ack_text p.src_pk_hex (some p.queue_id_hex) MsgEnum.msgack
            (some p.seq_no)))
        (pure tt)

  -- The rest of process_app_msg, by the acknowledgement that is queued for this message.
  unfoldable pub answer_msg : Inbound → Option Meta → Action Client (Unit {0})
  unfolding resend deliver queue_ack
  answer_msg p (some m) = do (out, packet_ack) ← publish lib m.dest_pk_hex (bytes m.out); resend out
  answer_msg p none = do deliver p.msg p.src_pk_hex p.queue_id_hex; queue_ack p

  unfoldable pub process_app_msg : Inbound → Action Client (Unit {0})
  unfolding forget_acks find_meta
  process_app_msg p = do
    modify (forget_acks p.queue_id_hex p.seq_no)
    queued ← gets (λ c. find_meta MsgEnum.msgack p.queue_id_hex p.seq_no c.msg_queues)
    answer_msg p queued

  unfoldable pub process_app_probe : Inbound → Action Client (Unit {0})
  unfolding get_msg_from_queue value_key_or_os
  process_app_probe p c = elim (get_msg_from_queue MsgEnum.msgack p.queue_id_hex p.seq_no c) [
    | some m ↦ (ok tt, c)
    | none ↦
        try_except value_key_or_os (send_probe_ack lib p.src_pk_hex p.queue_id_hex p.seq_no)
          (pure tt) c
  ]

  -- The application logic for a packet, by its type.
  unfoldable pub route : Inbound → Action Client (Unit {0})
  unfolding to_int process_app_ack
  route p =
      if p.msg_type == to_int MsgEnum.msg
      then process_app_msg p
      else if p.msg_type == to_int MsgEnum.msgack
      then modify (process_app_ack p)
      else if p.msg_type == to_int MsgEnum.probe
      then process_app_probe p
      else pure tt

  -- The age check is for MSG only. Times here are whole seconds, and the subtraction is moved to the
  -- other side. The log line of a message that is too old reads the clock again.
  unfoldable pub check_age : Inbound → Action Client (Unit {0})
  unfolding to_int get_time
  check_age p =
      if p.msg_type == to_int MsgEnum.msg
      then (do
        duration ← gets (λ c. c.republish_duration)
        now ← get_time lib
        if ltb (p.timestamp + 2 * duration) (seconds now)
            then (do now' ← get_time lib; pure tt)
            else route p)
      else route p

  abbrev route_unpacked : Option Inbound → Action Client (Unit {0})
  route_unpacked none = pure tt
  route_unpacked (some p) = check_age p

  -- handle_publish behind the PUBACK: is the message for us, and is it signed?
  unfoldable pub authenticate : Str → Bytes → Action Client (Unit {0})
  authenticate topic payload = do
    key ← lift (lib.h_to_b topic)
    own ← gets (λ c. c.kp.compact_public_key)
    if bytes_eq key own
        then (do unpacked ← lift (unpack_async lib (bytes payload)); route_unpacked unpacked)
        else pure tt

  -- `if packet_id:`, which is false for None and for b""
  unfoldable pub acknowledge : Option Bytes → Action Client (Unit {0})
  unfolding pipe_send
  acknowledge none = pure tt
  acknowledge (some []) = pure tt
  acknowledge (some (b ∷ bs)) = pipe_send lib (build_puback (b ∷ bs))

  abbrev handle_parsed : Option (Str × Bytes × Option Bytes) → Action Client (Unit {0})
  handle_parsed none = pure tt
  handle_parsed (some (topic, payload, packet_id)) = do
    acknowledge packet_id
    authenticate topic payload

  unfoldable pub handle_publish : MqttPacket → Action Client (Unit {0})
  unfolding authenticate acknowledge
  handle_publish packet = do parsed ← lift (mqtt_parse_publish lib packet); handle_parsed parsed

  -- The PINGRESP handler does nothing; other types have no handler.
  abbrev by_type : MqttEnum → MqttPacket → Action Client (Unit {0})
  by_type MqttEnum.puback packet = modify (handle_broker_ack puback packet.body)
  by_type MqttEnum.suback packet = modify (handle_broker_ack suback packet.body)
  by_type MqttEnum.publish packet = handle_publish packet
  by_type _ packet = pure tt

  unfoldable pub handle_mqtt_packet : MqttPacket → Action Client (Unit {0})
  unfolding handle_publish
  handle_mqtt_packet packet = by_type packet.type packet

  -- A chunk of the stream: the reader on the client's own buffer. The handler leaves `buf` alone.
  unfoldable pub on_chunk : Bytes → Action Client (Unit {0})
  unfolding async_wrap_errors
  on_chunk chunk c =
      let handle =
        λ (pkt : MqttPacket) (s : Client). (async_wrap_errors lib (handle_mqtt_packet pkt) s).1 in
      let (r, (left, c')) = mqtt_packet_reader handle chunk (c.buf, c) in
      (r, record c' { buf = left })
