-- ===== src/Examples/Proto.antt =====
-- Packets from the broker at concrete inputs.
use sidewire.Prelude.{◌≡◌, none, [], ◌∷◌, if◌then◌else◌}
use sidewire.Aionetiface.{Str}
use sidewire.AppPacket.{MsgEnum, Inbound}
use sidewire.Client.{Client, Meta, find_meta, done, result, yes_ack}
use sidewire.Prelude.{bytes_eq, refl, false, ◌⊎◌}
use sidewire.Prelude.Dict.{get}
use sidewire.Proto.{forget_acks, process_app_msg, process_app_ack}
use sidewire.Proto.AppAck.{
  Acknowledges, Resolved, process_app_ack_resolves, process_app_ack_authentic,
}
use sidewire.Proto.AppAck.Entries.{Removed, find_meta-process_app_ack}
use sidewire.Proto.Inbox.{inbox}
use sidewire.Proto.AppMsg.{is_forgotten, find_meta-forget_acks}
use sidewire.Proto.Delivery.{process_app_msg-inbox, process_app_msg_once, expected_of, queued_ack}
use sidewire.Examples.{toy, connected, replicate}
use sidewire.Proto.{handle_publish}
use sidewire.Proto.Publish.{Authentic, app_state, handle_publish-Authentic}
use sidewire.Examples.{alice}
use sidewire.Examples.Wire.{publish_packet}
use sidewire.Examples.Clients.{bob, queue_b}

abbrev queue_a : Str
queue_a = replicate 64 b'a'

abbrev pub from_bob : Inbound
from_bob = record {
  src_pk_hex = replicate 66 b'3';
  sig_hex = replicate 128 b'0';
  queue_id_hex = queue_a;
  seq_no = 4;
  timestamp = 1_700_000_000;
  msg_type = 1;
  msg = b'h' ∷ b'i' ∷ [];
}

process_app_msg-inbox_example :
    inbox (process_app_msg toy [] from_bob connected).1
    ≡ expected_of toy [] from_bob connected (queued_ack toy [] from_bob connected)
process_app_msg-inbox_example = process_app_msg-inbox toy [] from_bob connected

process_app_msg_once_example :
    inbox (process_app_msg toy [] from_bob (process_app_msg toy [] from_bob connected).1).1
    ≡ inbox (process_app_msg toy [] from_bob connected).1
process_app_msg_once_example = process_app_msg_once toy [] from_bob connected

find_meta-forget_acks_example :
    find_meta MsgEnum.msgack queue_a 3 (forget_acks queue_a 4 connected).msg_queues ≡ (
      if is_forgotten queue_a 4 MsgEnum.msgack queue_a 3
      then none
      else find_meta MsgEnum.msgack queue_a 3 connected.msg_queues)
find_meta-forget_acks_example = find_meta-forget_acks queue_a 4 connected MsgEnum.msgack queue_a 3

-- Bob acknowledges the first message of the queue.
abbrev pub from_bob_ack : Inbound
from_bob_ack = record from_bob { queue_id_hex = queue_b; seq_no = 0; msg_type = 2 }

abbrev pub entry_of_bob : Meta
entry_of_bob = record {
  app_ack = 0;
  dest_pk_hex = bob;
  seq_no = 0;
  out = [];
  updated = 0;
  created = 1;
  attempts = 0;
  probe_one_shot = false;
}

abbrev pub waiting : Client
waiting = record connected {
  msg_queues = record {
    of_msg = (queue_b, (0, entry_of_bob) ∷ []) ∷ [];
    of_msgack = [];
    of_probe = [];
  };
  next_future = 1;
}

bob-Acknowledges : Acknowledges from_bob_ack waiting MsgEnum.msg entry_of_bob
unfolding find_meta get bytes_eq done
bob-Acknowledges = record { queued = refl; addressee = refl; awaited = refl }

process_app_ack_resolves_example : (process_app_ack from_bob_ack waiting).futures 0 ≡ result yes_ack
process_app_ack_resolves_example =
    process_app_ack_resolves from_bob_ack waiting entry_of_bob bob-Acknowledges

process_app_ack_authentic_example :
    ((process_app_ack from_bob_ack waiting).futures 0 ≡ waiting.futures 0)
    ⊎ Resolved from_bob_ack waiting 0 (process_app_ack from_bob_ack waiting)
process_app_ack_authentic_example = process_app_ack_authentic from_bob_ack waiting 0

find_meta-process_app_ack_example :
    (find_meta MsgEnum.msg queue_b 0 (process_app_ack from_bob_ack waiting).msg_queues
      ≡ find_meta MsgEnum.msg queue_b 0 waiting.msg_queues)
    ⊎ Removed from_bob_ack waiting MsgEnum.msg queue_b 0 (process_app_ack from_bob_ack waiting)
find_meta-process_app_ack_example =
    find_meta-process_app_ack from_bob_ack waiting MsgEnum.msg queue_b 0

-- A PUBLISH on another topic.
handle_publish-Authentic_example :
    (app_state (handle_publish toy [] publish_packet connected).1 ≡ app_state connected)
    ⊎ Authentic toy [] alice.compact_public_key publish_packet
handle_publish-Authentic_example = handle_publish-Authentic toy [] publish_packet connected
