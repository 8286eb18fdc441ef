-- ===== src/Proto/Inbox.antt =====
-- Which operations leave the record of received messages alone, and which leave the queues alone.
use sidewire.Prelude.{
  ℕ, zero, suc, ◌+◌, ◌%◌, ◌≡◌, refl, ap, Bool, false, Option, none, some, List, arith,
}
use sidewire.Prelude.Action.{Action, throw, ◌>>=◌}
use sidewire.Prelude.Frame.{
  Leaves, Leaves-pure, Leaves-throw, Leaves-lift, Leaves-gets, Leaves-if, Leaves-modify, Leaves-try,
  Leaves-bind,
}
use sidewire.Prelude.Dict.{Dict}
use sidewire.Aionetiface.{Aionetiface, Bytes, Str, Text, str, bytes}
use sidewire.AppPacket.{MsgEnum, AppPacket, Inbound}
use sidewire.Client.{
  Client, Meta, Queues, AckKind, suback, puback, set_ids, new_future, get_time, pipe_send,
  async_wrap_errors, put_sub, SubQueue,
}
use sidewire.Client.PacketIds.{packet_id_loop, get_packet_id, packet_ack_future}
use sidewire.Client.Sending.{
  publish, ensure_queue, note_sent, enqueue, pack_packet_async, touch, ordered_ack_send_by,
  ordered_ack_send_async, queue_msg_async,
}
use sidewire.Proto.{resend, queue_ack}

-- The parts of the state that the sending side does not write.
pub record Received : Type 0 where
  pub delivered : List (ℕ × Str × Str × Str)
  pub recv_msg_ids : Dict Str ℕ
  pub handlers : List ℕ

unfoldable pub inbox : Client → Received
inbox c = record {
  delivered = c.delivered;
  recv_msg_ids = c.recv_msg_ids;
  handlers = c.msg_handlers;
}

-- What publishing a packet leaves alone: the record of received messages and the queues.
unfoldable pub inbox_and_queues : Client → Received × Queues
unfolding inbox
inbox_and_queues c = (inbox c, c.msg_queues)

packet_id_loop-Leaves :
    (rounds : ℕ) (c : Client) → inbox_and_queues (packet_id_loop rounds c).1 ≡ inbox_and_queues c
unfolding inbox_and_queues packet_id_loop throw
packet_id_loop-Leaves zero c = refl
packet_id_loop-Leaves (suc rounds) c =
    ground (arith, packet_id_loop-Leaves rounds (record c { packet_id = c.packet_id % 65535 + 1 }))

get_packet_id-Leaves : Leaves inbox_and_queues get_packet_id
unfolding get_packet_id
get_packet_id-Leaves = record { at = packet_id_loop-Leaves 65535 }

new_future-Leaves : Leaves inbox_and_queues new_future
unfolding new_future inbox_and_queues
new_future-Leaves = record { at = λ s. refl }

set_ids-Leaves :
    (kind : AckKind) (d : Dict Bytes ℕ) (c : Client)
    → inbox_and_queues (set_ids kind d c) ≡ inbox_and_queues c
unfolding set_ids inbox_and_queues
set_ids-Leaves suback d c = refl
set_ids-Leaves puback d c = refl

packet_ack_future-Leaves : (kind : AckKind) → Leaves inbox_and_queues (packet_ack_future kind)
unfolding packet_ack_future
packet_ack_future-Leaves kind = Leaves-bind _ _ get_packet_id-Leaves λ pid.
    Leaves-bind _ _ new_future-Leaves λ i.
      Leaves-bind _ _ (Leaves-modify _ (λ c. set_ids-Leaves kind _ c)) λ u. Leaves-pure (pid, i)

module _ (lib : Aionetiface) where
  get_time-Leaves : Leaves inbox_and_queues (get_time lib)
  unfolding get_time inbox_and_queues
  get_time-Leaves = record { at = λ s. refl }

  pipe_send-Leaves : (buf : Bytes) → Leaves inbox_and_queues (pipe_send lib buf)
  unfolding pipe_send inbox_and_queues
  pipe_send-Leaves buf = record { at = λ s. ground arith }

  async_wrap_errors-Leaves :
      (m : Action Client (Unit {0}))
      → Leaves inbox_and_queues m
      → Leaves inbox_and_queues (async_wrap_errors lib m)
  unfolding async_wrap_errors
  async_wrap_errors-Leaves m h = record { at = h.at }

  pub publish-Leaves :
      (topic : Str) (payload : Text) → Leaves inbox_and_queues (publish lib topic payload)
  unfolding publish
  publish-Leaves topic (str s) =
      Leaves-if (lib.is_ascii topic) _ _ (Leaves-throw _) (Leaves-throw _)
  publish-Leaves topic (bytes b) =
      Leaves-if (lib.is_ascii topic) _ _
        (Leaves-bind _ _ (packet_ack_future-Leaves puback)
          λ r. Leaves-bind _ _ (Leaves-lift _) λ buf. Leaves-pure (buf, r.1))
        (Leaves-throw _)

  pub resend-Leaves : (fresh out : Bytes) → Leaves inbox_and_queues (resend lib fresh out)
  unfolding resend inbox_and_queues
  resend-Leaves fresh out = record { at = λ s. ground arith }

-- The queues aside, queueing a message leaves the record of received messages alone.
pub Leaves-inbox : {A : Type 0} {m : Action Client A} → Leaves inbox_and_queues m → Leaves inbox m
unfolding inbox_and_queues
Leaves-inbox h = record { at = λ s. ap (λ (r : Received × Queues). r.0) (h.at s) }

put_sub-inbox :
    (t : MsgEnum) (q : Str) (d : SubQueue) (c : Client) → inbox (put_sub t q d c) ≡ inbox c
unfolding put_sub inbox
put_sub-inbox t q d c = refl

ensure_queue-inbox : (t : MsgEnum) (q : Str) (c : Client) → inbox (ensure_queue t q c) ≡ inbox c
unfolding ensure_queue inbox
ensure_queue-inbox t q c = ground arith

module _ (lib : Aionetiface) where
  note_sent-Leaves : (t : MsgEnum) (m : Text) → Leaves inbox (note_sent lib t m)
  unfolding note_sent inbox ◌>>=◌
  note_sent-Leaves MsgEnum.msg m = record { at = λ s. ground arith }
  note_sent-Leaves MsgEnum.msgack m = record { at = λ s. refl }
  note_sent-Leaves MsgEnum.probe m = record { at = λ s. refl }

  enqueue-Leaves :
      (t : MsgEnum) (q : Str) (n : ℕ) (dest : Str) (out : Bytes) (one_shot : Bool)
      (old : Option Meta)
      → Leaves inbox (enqueue lib t q n dest out one_shot old)
  unfolding enqueue inbox ◌>>=◌
  enqueue-Leaves t q n dest out one_shot none = record { at = λ s. refl }
  enqueue-Leaves t q n dest out one_shot (some m) = record { at = λ s. refl }

  pack_packet_async-Leaves : (p : AppPacket) → Leaves inbox (pack_packet_async lib p)
  unfolding pack_packet_async
  pack_packet_async-Leaves p = Leaves-bind _ _ (Leaves-gets _) λ kp.
      Leaves-bind _ _ (Leaves-inbox (get_time-Leaves lib))
        λ now. Leaves-bind _ _ (Leaves-lift _) λ r. Leaves-pure r.1

  touch-Leaves : Leaves inbox (touch lib)
  unfolding touch inbox ◌>>=◌
  touch-Leaves = record { at = λ s. refl }

  ordered_ack_send_async-Leaves :
      (m : Text) (dest q : Str) (t : MsgEnum) (n : Option ℕ)
      → Leaves inbox (ordered_ack_send_async lib m dest q t n)
  unfolding ordered_ack_send_async ordered_ack_send_by
  ordered_ack_send_async-Leaves m dest q t n =
      Leaves-if _ _ _
        (Leaves-if _ _ _
          (Leaves-bind _ _ (note_sent-Leaves t m) λ u.
            Leaves-bind _ _ (Leaves-modify _ (ensure_queue-inbox t q)) λ u'.
              Leaves-bind _ _ (Leaves-gets _) λ queued.
                Leaves-bind _ _ (pack_packet_async-Leaves _) λ out.
                  Leaves-bind _ _ (Leaves-gets _) λ old. enqueue-Leaves t q _ dest out false old)
          (Leaves-throw _))
        (Leaves-throw _)

  pub queue_ack-Leaves : (fresh : Bytes) (p : Inbound) → Leaves inbox (queue_ack lib fresh p)
  unfolding queue_ack queue_msg_async
  queue_ack-Leaves fresh p =
      Leaves-try _ _ _
        (Leaves-bind _ _ (Leaves-bind _ _ touch-Leaves λ u. ordered_ack_send_async-Leaves _ _ _ _ _)
          λ r. Leaves-pure tt)
        (Leaves-pure tt)
