-- ===== src/Client/Sending.antt =====
-- The operations that queue and send messages: subscribe, publish, queue_msg, send_probe,
-- send_probe_ack and dequeue_msg of src/sidewire/mqtt/mqtt_client.py, and
-- src/sidewire/mqtt/mqtt_ordered_send.py.
pub mod Queueing
pub mod Ordered
pub mod Packed
use sidewire.Prelude.{
  ℕ, zero, suc, ◌+◌, ◌*◌, Bool, true, false, Option, none, some, List, [], ◌∷◌, if◌then◌else◌, ltb,
  ◌==◌, length, nat_eq, text_eq,
}
use sidewire.Prelude.Results.{Exn, value_error, type_error, key_error, Result, ok, raised}
use sidewire.Prelude.Action.{Action, pure, throw, lift, gets, modify, ◌>>=◌, ◌>>◌}
use sidewire.Prelude.Dict.{Dict, get, put, has}
use sidewire.Aionetiface.{Aionetiface, Bytes, Str, Text, str, bytes}
use sidewire.Wire.Msgs.{build_subscribe, build_publish}
use sidewire.AppPacket.{MsgEnum, AppPacket, pack, pack_async}
use sidewire.Client.{
  Client, Meta, SubQueue, Queue, Answer, yes_ack, done, suback, puback, queue_of, sub_queue,
  find_meta, put_sub, del_sub, new_future, set_result, get_time, pipe_send, pipe_open, seconds,
}
use sidewire.Client.PacketIds.{packet_ack_future}

-- max(d.keys()) + 1 of a dict that is not empty, and 0 of an empty one
unfoldable pub next_seq_no : SubQueue → ℕ
next_seq_no [] = 0
next_seq_no ((n, m) ∷ d) = let rest = next_seq_no d in if ltb n rest then rest else n + 1

-- if queue_id_hex not in client.msg_queues[msg_type]: client.msg_queues[msg_type][queue_id_hex] = {}
unfoldable pub ensure_queue : MsgEnum → Str → Client → Client
unfolding queue_of put_sub
ensure_queue t queue_id c =
    if has queue_id (queue_of t c.msg_queues) then c else put_sub t queue_id [] c

abbrev pub sub_or_empty : Option SubQueue → SubQueue
sub_or_empty none = []
sub_or_empty (some d) = d

-- client.msg_queues[msg_type][queue_id_hex], where it is known to be there
unfoldable pub existing : MsgEnum → Str → Client → SubQueue
unfolding sub_queue
existing t queue_id c = sub_or_empty (sub_queue t queue_id c.msg_queues)

-- client.msg_queues[msg_type][queue_id_hex][seq_no] = meta
unfoldable pub put_meta : MsgEnum → Str → ℕ → Meta → Client → Client
unfolding existing put_sub
put_meta t queue_id seq_no m c = put_sub t queue_id (put seq_no m (existing t queue_id c)) c

abbrev pub new_meta : ℕ → Str → ℕ → Bytes → ℕ → Bool → Meta
new_meta app_ack dest_pk_hex seq_no out created one_shot = record {
  app_ack = app_ack;
  dest_pk_hex = dest_pk_hex;
  seq_no = seq_no;
  out = out;
  updated = 0;
  created = created;
  attempts = 0;
  probe_one_shot = one_shot;
}

-- `seq_no` is None, or given by the caller.
abbrev pub choose_seq_no : Option ℕ → SubQueue → ℕ
choose_seq_no none d = next_seq_no d
choose_seq_no (some n) d = n

-- AppPacket(queue_id_hex=…, seq_no=…, msg_type=…, msg=…)
abbrev pub new_packet : Str → ℕ → MsgEnum → Text → AppPacket
new_packet queue_id_hex seq_no msg_type msg = record {
  src_pk_hex = none;
  sig_hex = none;
  queue_id_hex = queue_id_hex;
  seq_no = seq_no;
  timestamp = none;
  msg_type = msg_type;
  msg = some msg;
}

-- The message of an acknowledgement: "ack".
abbrev pub ack_text : Text
ack_text = str (b'a' ∷ b'c' ∷ b'k' ∷ [])

module _ (lib : Aionetiface) where
  -- packet.pack(client), for a packet with no timestamp: the clock is read.
  unfoldable pub pack_packet : AppPacket → Action Client Bytes
  unfolding get_time
  pack_packet p = do
    kp ← gets (λ c. c.kp)
    now ← get_time lib
    r ← lift (pack lib kp p (seconds now))
    pure r.1

  unfoldable pub pack_packet_async : AppPacket → Action Client Bytes
  unfolding get_time
  pack_packet_async p = do
    kp ← gets (λ c. c.kp)
    now ← get_time lib
    r ← lift (pack_async lib kp p (seconds now))
    pure r.1

  unfoldable pub subscribe : Text → Action Client (Bytes × ℕ)
  subscribe (bytes b) = throw type_error
  subscribe (str topic) = do
    (packet_id, packet_ack) ← packet_ack_future suback
    buf ← lift (build_subscribe lib topic packet_id)
    pure (buf, packet_ack)

  -- `payload` is what the queue holds: bytes. `dup` is False at every call.
  unfoldable pub publish : Str → Text → Action Client (Bytes × ℕ)
  publish topic (str s) = if lib.is_ascii topic then throw type_error else throw value_error
  publish topic (bytes payload) =
      if lib.is_ascii topic
      then (do
        (packet_id, packet_ack) ← packet_ack_future puback
        buf ← lift (build_publish lib topic (bytes payload) packet_id false)
        pure (buf, packet_ack))
      else throw value_error

  -- The duplicate check of ordered_ack_send: a message that is new is stamped, another is logged.
  unfoldable pub note_sent : MsgEnum → Text → Action Client (Unit {0})
  unfolding get_time
  note_sent MsgEnum.msg m = λ c.
      let sent_msg_id = lib.sha256_hex (lib.to_b m) in
      if has sent_msg_id c.sent_msg_ids
      then (ok tt, c)
      else ((do
        now ← get_time lib
        modify (λ c. record c { sent_msg_ids = put sent_msg_id now c.sent_msg_ids }))
          c)
  note_sent MsgEnum.msgack m = pure tt
  note_sent MsgEnum.probe m = pure tt

  -- What follows the packing: the old entry's future, or a new entry.
  unfoldable pub enqueue :
      MsgEnum → Str → ℕ → Str → Bytes → Bool → Option Meta → Action Client ((Str × ℕ) × ℕ)
  unfolding get_time new_future put_meta
  enqueue t queue_id seq_no dest_pk_hex out one_shot (some m) = pure ((queue_id, seq_no), m.app_ack)
  enqueue t queue_id seq_no dest_pk_hex out one_shot none = do
    app_ack ← new_future
    created ← get_time lib
    modify (put_meta t queue_id seq_no (new_meta app_ack dest_pk_hex seq_no out created one_shot))
    pure ((queue_id, seq_no), app_ack)

  -- ordered_ack_send and ordered_ack_send_async; `packer` is their only difference.
  unfoldable pub ordered_ack_send_by :
      (AppPacket → Action Client Bytes)
      → Text
      → Str
      → Str
      → MsgEnum
      → Option ℕ
      → Action Client ((Str × ℕ) × ℕ)
  unfolding note_sent ensure_queue existing enqueue find_meta
  ordered_ack_send_by packer msg dest_pk_hex queue_id_hex msg_type seq_no =
      if length queue_id_hex == 64
      then (if length dest_pk_hex == 66
          then (do
            note_sent msg_type msg
            modify (ensure_queue msg_type queue_id_hex)
            queued ← gets (existing msg_type queue_id_hex)
            let n = choose_seq_no seq_no queued
            out ← packer (new_packet queue_id_hex n msg_type msg)
            old ← gets (λ c. find_meta msg_type queue_id_hex n c.msg_queues)
            enqueue msg_type queue_id_hex n dest_pk_hex out false old)
          else throw value_error)
      else throw value_error

  unfoldable pub ordered_ack_send :
      Text → Str → Str → MsgEnum → Option ℕ → Action Client ((Str × ℕ) × ℕ)
  ordered_ack_send = ordered_ack_send_by pack_packet

  unfoldable pub ordered_ack_send_async :
      Text → Str → Str → MsgEnum → Option ℕ → Action Client ((Str × ℕ) × ℕ)
  ordered_ack_send_async = ordered_ack_send_by pack_packet_async

  -- self.last_send = self.get_time()
  unfoldable pub touch : Action Client (Unit {0})
  unfolding get_time
  touch = do now ← get_time lib; modify (λ c. record c { last_send = some now })

  -- `queue_id_hex or to_h(rand_b(32))`: None and "" count as false. `fresh` is what rand_b returns.
  abbrev pub or_random : Option Str → Bytes → Str
  or_random none fresh = lib.to_h fresh
  or_random (some []) fresh = lib.to_h fresh
  or_random (some (ch ∷ s)) fresh = ch ∷ s

  unfoldable pub queue_msg :
      Bytes → Text → Str → Option Str → MsgEnum → Option ℕ → Action Client ((Str × ℕ) × ℕ)
  unfolding touch
  queue_msg fresh msg dest_pk_hex queue_id_hex msg_type seq_no = do
    touch
    ordered_ack_send msg dest_pk_hex (or_random queue_id_hex fresh) msg_type seq_no

  unfoldable pub queue_msg_async :
      Bytes → Text → Str → Option Str → MsgEnum → Option ℕ → Action Client ((Str × ℕ) × ℕ)
  unfolding touch
  queue_msg_async fresh msg dest_pk_hex queue_id_hex msg_type seq_no = do
    touch
    ordered_ack_send_async msg dest_pk_hex (or_random queue_id_hex fresh) msg_type seq_no

  -- `if self.pipe and not self.pipe.on_close.is_set(): await self.pipe.send(buf)`
  unfoldable pub send_if_open : Bytes → Action Client (Unit {0})
  unfolding pipe_send
  send_if_open buf c = if pipe_open c.pipe then pipe_send lib buf c else (ok tt, c)

  unfoldable pub send_probe : Bytes → Str → Option Str → Action Client ((Str × ℕ) × ℕ)
  unfolding touch ensure_queue existing enqueue send_if_open
  send_probe fresh dest_pk_hex queue_id_hex =
      let queue_id = or_random queue_id_hex fresh in
      if length queue_id == 64
      then (if length dest_pk_hex == 66
          then (do
            touch
            modify (ensure_queue MsgEnum.probe queue_id)
            queued ← gets (existing MsgEnum.probe queue_id)
            let n = length queued
            out ← pack_packet (new_packet queue_id n MsgEnum.probe (str []))
            key ← enqueue MsgEnum.probe queue_id n dest_pk_hex out true none
            (buf, packet_ack) ← publish dest_pk_hex (bytes out)
            send_if_open buf
            pure key)
          else throw value_error)
      else throw value_error

  -- The part of send_probe_ack for an acknowledgement that is not queued yet.
  unfoldable pub new_probe_ack : Str → Str → ℕ → Action Client (Unit {0})
  unfolding enqueue send_if_open
  new_probe_ack dest_pk_hex queue_id seq_no = do
    out ← pack_packet (new_packet queue_id seq_no MsgEnum.msgack ack_text)
    key ← enqueue MsgEnum.msgack queue_id seq_no dest_pk_hex out true none
    (buf, packet_ack) ← publish dest_pk_hex (bytes out)
    send_if_open buf

  unfoldable pub send_probe_ack : Str → Str → ℕ → Action Client (Unit {0})
  unfolding touch ensure_queue existing
  send_probe_ack dest_pk_hex queue_id seq_no = do
    touch
    modify (ensure_queue MsgEnum.msgack queue_id)
    queued ← gets (existing MsgEnum.msgack queue_id)
    if has seq_no queued then pure tt else new_probe_ack dest_pk_hex queue_id seq_no

-- dequeue_msg without a seq_no deletes the queue; with one it resolves the message's future.
unfoldable pub dequeue_msg : Str → Option ℕ → MsgEnum → Client → Client
unfolding queue_of del_sub done set_result
dequeue_msg queue_id none t c =
    if has queue_id (queue_of t c.msg_queues) then del_sub t queue_id c else c
dequeue_msg queue_id (some seq_no) t c = elim (find_meta t queue_id seq_no c.msg_queues) [
  | none ↦ c
  | some m ↦ if done (c.futures m.app_ack) then c else (set_result m.app_ack yes_ack c).1
]
