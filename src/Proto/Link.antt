-- ===== src/Proto/Link.antt =====
-- What handling a packet never touches: the connection itself.
pub mod Packets
use sidewire.Prelude.{
  ℕ, zero, suc, ◌+◌, ◌%◌, ◌≡◌, refl, ap, ◌∙◌, Bool, true, false, Option, none, some, List, [], ◌∷◌,
  ◌++◌, Option-cases, Bool-cases, inl, inr, arith, text_eq, nat_eq,
}
use sidewire.Prelude.Results.{Result, ok, raised}
use sidewire.Prelude.Action.{Action, throw, ◌>>=◌}
use sidewire.Prelude.Frame.{
  Leaves, Leaves-pure, Leaves-throw, Leaves-lift, Leaves-gets, Leaves-if, Leaves-modify, Leaves-try,
  Leaves-bind,
}
use sidewire.Prelude.Dict.{Dict, has, del}
use sidewire.Aionetiface.{Aionetiface, Bytes, Str, Text, str, bytes}
use sidewire.Wire.Packet.{MqttEnum, MqttPacket, mqtt_parse_packet}
use sidewire.Wire.Reader.{next_frame, read_loop, mqtt_packet_reader}
use sidewire.AppPacket.{MsgEnum, AppPacket, KeyPair, Inbound}
use sidewire.Client.{
  Client, Meta, SubQueue, Queues, AckKind, suback, puback, set_ids, new_future, get_time, pipe_send,
  async_wrap_errors, put_sub, del_sub, set_future, set_result, sub_queue, find_meta, yes_ack,
  get_msg_from_queue,
}
use sidewire.Client.PacketIds.{packet_id_loop, get_packet_id, packet_ack_future, handle_broker_ack}
use sidewire.Client.Sending.{
  sub_or_empty, subscribe, publish, ensure_queue, note_sent, enqueue, pack_packet,
  pack_packet_async, touch, ordered_ack_send_by, ordered_ack_send_async, queue_msg_async,
  send_if_open, new_probe_ack, send_probe_ack, put_meta,
}
use sidewire.Proto.{
  forget_acks, call_handlers, keep_left, ack_in, process_app_ack, resend, deliver, queue_ack,
  answer_msg, process_app_msg, process_app_probe, route, check_age, authenticate, acknowledge,
  handle_publish, handle_mqtt_packet, on_chunk,
}

pub record Link : Type 0 where
  pub pipe : Option Bool
  pub open_pipes : ℕ
  pub is_closed : Bool
  pub dispatcher_task : Option Bool
  pub kp : KeyPair

unfoldable pub link : Client → Link
link c = record {
  pipe = c.pipe;
  open_pipes = c.open_pipes;
  is_closed = c.is_closed;
  dispatcher_task = c.dispatcher_task;
  kp = c.kp;
}

packet_id_loop-link : (rounds : ℕ) (c : Client) → link (packet_id_loop rounds c).1 ≡ link c
unfolding link packet_id_loop throw
packet_id_loop-link zero c = refl
packet_id_loop-link (suc rounds) c =
    ground (arith, packet_id_loop-link rounds (record c { packet_id = c.packet_id % 65535 + 1 }))

set_ids-link : (kind : AckKind) (d : Dict Bytes ℕ) (c : Client) → link (set_ids kind d c) ≡ link c
unfolding set_ids link
set_ids-link suback d c = refl
set_ids-link puback d c = refl

new_future-link : Leaves link new_future
unfolding new_future link
new_future-link = record { at = λ s. refl }

packet_ack_future-link : (kind : AckKind) → Leaves link (packet_ack_future kind)
unfolding packet_ack_future get_packet_id
packet_ack_future-link kind =
    Leaves-bind _ _ (record { at = packet_id_loop-link 65535 })
      λ pid. Leaves-bind _ _ new_future-link λ i.
        Leaves-bind _ _ (Leaves-modify _ (λ c. set_ids-link kind _ c)) λ u. Leaves-pure (pid, i)

ensure_queue-link : (t : MsgEnum) (q : Str) (c : Client) → link (ensure_queue t q c) ≡ link c
unfolding ensure_queue put_sub link
ensure_queue-link t q c = ground arith

forget_acks-link : (q : Str) (n : ℕ) (c : Client) → link (forget_acks q n c) ≡ link c
unfolding forget_acks put_sub link
forget_acks-link q n c = ground arith

call_handlers-link :
    (hs : List ℕ) (msg src q : Str) (c : Client) → link (call_handlers hs msg src q c) ≡ link c
unfolding call_handlers link
call_handlers-link [] msg src q c = refl
call_handlers-link (h ∷ hs) msg src q c =
    call_handlers-link hs msg src q
      (record c { delivered = c.delivered ++ ((h, msg, src, q) ∷ []) })

keep_left-link :
    (t : MsgEnum) (q : Str) (d : SubQueue) (c : Client) → link (keep_left t q d c) ≡ link c
unfolding keep_left put_sub del_sub link
keep_left-link t q [] c = refl
keep_left-link t q (x ∷ xs) c = refl

ack_in-link :
    (t : MsgEnum) (q : Str) (n : ℕ) (src : Str) (c : Client) → link (ack_in t q n src c).1 ≡ link c
unfolding ack_in link set_result set_future
ack_in-link t q n src c = elim (Option-cases (find_meta t q n c.msg_queues)) [
  | inl e ↦ rw (e, ack_in) refl
  | inr (m, e) ↦
      let c' : Client = (set_result m.app_ack yes_ack c).1 in
      let left : SubQueue = del n (sub_or_empty (sub_queue t q c'.msg_queues)) in
      rw (e, ack_in) (ground (arith, keep_left-link t q left c'))
]

process_app_ack-link : (p : Inbound) (c : Client) → link (process_app_ack p c) ≡ link c
unfolding process_app_ack
process_app_ack-link p c =
    let q = p.queue_id_hex in
    let n = p.seq_no in
    let src = p.src_pk_hex in
    let first : Bool × Client = ack_in MsgEnum.msg q n src c in
    elim (Bool-cases first.0) [
      | inl yes' ↦ rw yes' (ack_in-link MsgEnum.msg q n src c)
      | inr no' ↦
          rw no' (ack_in-link MsgEnum.probe q n src first.1 ∙ ack_in-link MsgEnum.msg q n src c)
    ]

handle_broker_ack-link :
    (kind : AckKind) (body : Bytes) (c : Client) → link (handle_broker_ack kind body c) ≡ link c
unfolding handle_broker_ack link set_ids set_future
handle_broker_ack-link kind body c = ground arith

module _ (lib : Aionetiface) where
  get_time-link : Leaves link (get_time lib)
  unfolding get_time link
  get_time-link = record { at = λ s. refl }

  pipe_send-link : (buf : Bytes) → Leaves link (pipe_send lib buf)
  unfolding pipe_send link
  pipe_send-link buf = record { at = λ s. ground arith }

  send_if_open-link : (buf : Bytes) → Leaves link (send_if_open lib buf)
  unfolding send_if_open pipe_send link
  send_if_open-link buf = record { at = λ s. ground arith }

  async_wrap_errors-link :
      (m : Action Client (Unit {0})) → Leaves link m → Leaves link (async_wrap_errors lib m)
  unfolding async_wrap_errors
  async_wrap_errors-link m h = record { at = h.at }

  pub subscribe-link : (topic : Text) → Leaves link (subscribe lib topic)
  unfolding subscribe
  subscribe-link (bytes b) = Leaves-throw _
  subscribe-link (str s) =
      Leaves-bind _ _ (packet_ack_future-link suback)
        λ r. Leaves-bind _ _ (Leaves-lift _) λ buf. Leaves-pure (buf, r.1)

  publish-link : (topic : Str) (payload : Text) → Leaves link (publish lib topic payload)
  unfolding publish
  publish-link topic (str s) = Leaves-if (lib.is_ascii topic) _ _ (Leaves-throw _) (Leaves-throw _)
  publish-link topic (bytes b) =
      Leaves-if (lib.is_ascii topic) _ _
        (Leaves-bind _ _ (packet_ack_future-link puback)
          λ r. Leaves-bind _ _ (Leaves-lift _) λ buf. Leaves-pure (buf, r.1))
        (Leaves-throw _)

  note_sent-link : (t : MsgEnum) (m : Text) → Leaves link (note_sent lib t m)
  unfolding note_sent link ◌>>=◌ get_time
  note_sent-link MsgEnum.msg m = record { at = λ s. ground arith }
  note_sent-link MsgEnum.msgack m = record { at = λ s. refl }
  note_sent-link MsgEnum.probe m = record { at = λ s. refl }

  put_meta-link :
      (t : MsgEnum) (q : Str) (n : ℕ) (m : Meta) (c : Client) → link (put_meta t q n m c) ≡ link c
  unfolding put_meta put_sub link
  put_meta-link t q n m c = refl

  enqueue-link :
      (t : MsgEnum) (q : Str) (n : ℕ) (dest : Str) (out : Bytes) (one_shot : Bool)
      (old : Option Meta)
      → Leaves link (enqueue lib t q n dest out one_shot old)
  unfolding enqueue
  enqueue-link t q n dest out one_shot none = Leaves-bind _ _ new_future-link λ i.
      Leaves-bind _ _ get_time-link
        λ now. Leaves-bind _ _ (Leaves-modify _ (put_meta-link t q n _)) λ u. Leaves-pure _
  enqueue-link t q n dest out one_shot (some m) = Leaves-pure _

  pack_packet-link : (p : AppPacket) → Leaves link (pack_packet lib p)
  unfolding pack_packet
  pack_packet-link p = Leaves-bind _ _ (Leaves-gets _) λ kp.
      Leaves-bind _ _ get_time-link λ now. Leaves-bind _ _ (Leaves-lift _) λ r. Leaves-pure r.1

  pack_packet_async-link : (p : AppPacket) → Leaves link (pack_packet_async lib p)
  unfolding pack_packet_async
  pack_packet_async-link p = Leaves-bind _ _ (Leaves-gets _) λ kp.
      Leaves-bind _ _ get_time-link λ now. Leaves-bind _ _ (Leaves-lift _) λ r. Leaves-pure r.1

  touch-link : Leaves link (touch lib)
  unfolding touch link ◌>>=◌ get_time
  touch-link = record { at = λ s. refl }

  ordered_ack_send_async-link :
      (m : Text) (dest q : Str) (t : MsgEnum) (n : Option ℕ)
      → Leaves link (ordered_ack_send_async lib m dest q t n)
  unfolding ordered_ack_send_async ordered_ack_send_by
  ordered_ack_send_async-link m dest q t n =
      Leaves-if _ _ _
        (Leaves-if _ _ _
          (Leaves-bind _ _ (note_sent-link t m) λ u.
            Leaves-bind _ _ (Leaves-modify _ (ensure_queue-link t q)) λ u'.
              Leaves-bind _ _ (Leaves-gets _) λ queued.
                Leaves-bind _ _ (pack_packet_async-link _) λ out.
                  Leaves-bind _ _ (Leaves-gets _) λ old. enqueue-link t q _ dest out false old)
          (Leaves-throw _))
        (Leaves-throw _)

  new_probe_ack-link : (dest q : Str) (n : ℕ) → Leaves link (new_probe_ack lib dest q n)
  unfolding new_probe_ack
  new_probe_ack-link dest q n = Leaves-bind _ _ (pack_packet-link _) λ out.
      Leaves-bind _ _ (enqueue-link MsgEnum.msgack q n dest out true none)
        λ key. Leaves-bind _ _ (publish-link dest (bytes out)) λ r. send_if_open-link r.0

  send_probe_ack-link : (dest q : Str) (n : ℕ) → Leaves link (send_probe_ack lib dest q n)
  unfolding send_probe_ack
  send_probe_ack-link dest q n = Leaves-bind _ _ touch-link λ u.
      Leaves-bind _ _ (Leaves-modify _ (ensure_queue-link MsgEnum.msgack q)) λ u'.
        Leaves-bind _ _ (Leaves-gets _)
          λ queued. Leaves-if (has n queued) _ _ (Leaves-pure tt) (new_probe_ack-link dest q n)
