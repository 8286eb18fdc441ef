-- ===== src/Client.antt =====
-- The state of MQTTClient (src/sidewire/mqtt/mqtt_client.py) and the steps that every operation is
-- made of. An operation is an action on that state: it runs from one `await` of a network
-- acknowledgement to the next, and other tasks do not run in between.
pub mod Lookup
pub mod PacketIds
pub mod Sending
use sidewire.Prelude.{
  ℕ, zero, suc, ◌+◌, ◌*◌, ◌/◌, Bool, true, false, Option, none, some, List, [], ◌∷◌, ◌++◌,
  if◌then◌else◌, ◌==◌, nat_eq, text_eq,
}
use sidewire.Prelude.Results.{Exn, attribute_error, Result, ok, raised}
use sidewire.Prelude.Action.{Action}
use sidewire.Prelude.Dict.{Dict, get, put, del}
use sidewire.Aionetiface.{Aionetiface, Bytes, Str}
use sidewire.AppPacket.{MsgEnum, KeyPair}

-- What an asyncio.Future is resolved with: True, or the return codes of a SUBACK.
pub data Answer : Type 0 where
  yes_ack : Answer
  codes : Bytes → Answer

pub data Future : Type 0 where
  pending : Future
  result : Answer → Future
  cancelled : Future

-- future.done()
unfoldable pub done : Future → Bool
done pending = false
done (result a) = true
done cancelled = true

-- An entry of `msg_queues`. Times are numbers of microseconds; `attempts` is 0 where the key is missing
-- and `probe_one_shot` is false where it is. A future is a reference into the store of futures.
pub record Meta : Type 0 where
  pub app_ack : ℕ
  pub dest_pk_hex : Str
  pub seq_no : ℕ
  pub out : Bytes
  pub updated : ℕ
  pub created : ℕ
  pub attempts : ℕ
  pub probe_one_shot : Bool

abbrev pub SubQueue : Type 0
SubQueue = Dict ℕ Meta

abbrev pub Queue : Type 0
Queue = Dict Str SubQueue

-- `msg_queues`, which has exactly these three keys.
pub record Queues : Type 0 where
  pub of_msg : Queue
  pub of_msgack : Queue
  pub of_probe : Queue

-- msg_queues[msg_type]
unfoldable pub queue_of : MsgEnum → Queues → Queue
queue_of MsgEnum.msg q = q.of_msg
queue_of MsgEnum.msgack q = q.of_msgack
queue_of MsgEnum.probe q = q.of_probe

unfoldable pub set_queue : MsgEnum → Queue → Queues → Queues
set_queue MsgEnum.msg d q = record q { of_msg = d }
set_queue MsgEnum.msgack d q = record q { of_msgack = d }
set_queue MsgEnum.probe d q = record q { of_probe = d }

-- The packet types whose identifiers are tracked: the keys of `packet_ids`.
pub data AckKind : Type 0 where
  suback puback : AckKind

pub record Client : Type 0 where
  -- the broker: its address family, host and port
  pub af : ℕ
  pub host : Str
  pub port : ℕ
  pub client_id : Option Str
  pub kp : KeyPair
  -- the futures, and the next unused reference
  pub futures : ℕ → Future
  pub next_future : ℕ
  pub msg_queues : Queues
  pub sent_msg_ids : Dict Str ℕ
  pub recv_msg_ids : Dict Str ℕ
  pub subacks : Dict Bytes ℕ
  pub pubacks : Dict Bytes ℕ
  pub packet_id : ℕ
  -- None, or a pipe with its on_close event
  pub pipe : Option Bool
  -- what was handed to pipe.send, oldest first
  pub sent : List Bytes
  pub buf : Bytes
  pub is_closed : Bool
  -- None, or a task and whether it is done
  pub dispatcher_task : Option Bool
  -- the router's mark of the last connect that failed
  pub last_connect : Option ℕ
  -- how many of the pipes that mqtt_connect opened were not told to close by it
  pub open_pipes : ℕ
  pub republish_duration : ℕ
  pub last_send : Option ℕ
  pub msg_handlers : List ℕ
  -- the calls of message handlers: the handler, the message, the sender's key and the queue
  pub delivered : List (ℕ × Str × Str × Str)
  -- how often get_time was called
  pub ticks : ℕ

-- packet_ids[packet_type]
unfoldable pub ids_of : AckKind → Client → Dict Bytes ℕ
ids_of suback c = c.subacks
ids_of puback c = c.pubacks

unfoldable pub set_ids : AckKind → Dict Bytes ℕ → Client → Client
set_ids suback d c = record c { subacks = d }
set_ids puback d c = record c { pubacks = d }

unfoldable pub set_future : ℕ → Future → Client → Client
set_future i f c = record c { futures = λ j. if i == j then f else c.futures j }

-- asyncio.Future()
unfoldable pub new_future : Action Client ℕ
unfolding set_future
new_future c = (
  ok c.next_future,
  record (set_future c.next_future pending c) { next_future = c.next_future + 1 },
)

-- future.set_result(a)
unfoldable pub set_result : ℕ → Answer → Action Client (Unit {0})
unfolding set_future
set_result i a c = (ok tt, set_future i (result a) c)

-- One second, in microseconds, and int(t) of a time.
abbrev pub second : ℕ
second = 1_000_000

abbrev pub seconds : ℕ → ℕ
seconds t = t / second

module _ (lib : Aionetiface) where
  unfoldable pub get_time : Action Client ℕ
  get_time c = (ok (lib.clock c.ticks), record c { ticks = c.ticks + 1 })

  -- client.pipe.send(buf); None has no attribute `send`
  unfoldable pub pipe_send : Bytes → Action Client (Unit {0})
  pipe_send buf c = elim c.pipe [
    | none ↦ (raised attribute_error, c)
    | some closed ↦ (lib.pipe_send c.sent buf, record c { sent = c.sent ++ (buf ∷ []) })
  ]

  -- async_wrap_errors: an exception is logged, and the result is dropped.
  unfoldable pub async_wrap_errors : Action Client (Unit {0}) → Action Client (Unit {0})
  async_wrap_errors m c = (ok tt, (m c).1)

-- `client.pipe and not client.pipe.on_close.is_set()`
abbrev pub pipe_open : Option Bool → Bool
pipe_open none = false
pipe_open (some true) = false
pipe_open (some false) = true

-- msg_queues[msg_type].get(queue_id), and the same for a message of it
unfoldable pub sub_queue : MsgEnum → Str → Queues → Option SubQueue
unfolding queue_of
sub_queue t queue_id q = get queue_id (queue_of t q)

abbrev from_sub : ℕ → Option SubQueue → Option Meta
from_sub seq_no none = none
from_sub seq_no (some d) = get seq_no d

unfoldable pub find_meta : MsgEnum → Str → ℕ → Queues → Option Meta
unfolding sub_queue
find_meta t queue_id seq_no q = from_sub seq_no (sub_queue t queue_id q)

-- get_msg_from_queue of utils.py
unfoldable pub get_msg_from_queue : MsgEnum → Str → ℕ → Client → Option Meta
get_msg_from_queue queue_type queue_id seq_no c = find_meta queue_type queue_id seq_no c.msg_queues

-- msg_queues[t][queue_id] = d
unfoldable pub put_sub : MsgEnum → Str → SubQueue → Client → Client
unfolding queue_of set_queue
put_sub t queue_id d c = record c {
  msg_queues = set_queue t (put queue_id d (queue_of t c.msg_queues)) c.msg_queues;
}

-- del msg_queues[t][queue_id]
unfoldable pub del_sub : MsgEnum → Str → Client → Client
unfolding queue_of set_queue
del_sub t queue_id c = record c {
  msg_queues = set_queue t (del queue_id (queue_of t c.msg_queues)) c.msg_queues;
}
