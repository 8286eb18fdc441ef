-- ===== src/Examples/Clients.antt =====
-- The client's own operations at concrete inputs.
use sidewire.Prelude.{◌≡◌, refl, [], ◌∷◌, arith}
use sidewire.Prelude.Results.{ok}
use sidewire.Wire.Struct.{pack as struct_pack}
use sidewire.Prelude.Dict.{has, get, put}
use sidewire.Client.PacketIds.{get_packet_id, in_flight}
use sidewire.Client.PacketIds.Fresh.{IsFree, Found, get_packet_id_total}
use sidewire.Prelude.{bytes_eq, none}
use sidewire.Prelude.Action.{◌>>=◌}
use sidewire.Aionetiface.{Str, str}
use sidewire.AppPacket.{MsgEnum, pack, signed_section}
use sidewire.Client.{Client, puback, new_future}
use sidewire.Client.PacketIds.{packet_ack_future}
use sidewire.Prelude.{text_eq}
use sidewire.Client.PacketIds.Acks.Issued.{Answered, packet_ack_future-Answered}
use sidewire.Client.Sending.{next_seq_no, ordered_ack_send, ordered_ack_send_by, pack_packet}
use sidewire.Client.Sending.Ordered.{Queued, ordered_ack_send-Queued}
use sidewire.Examples.{new_client, connected, toy, replicate}

IsFree-one : IsFree new_client (0 ∷ 1 ∷ [])
unfolding struct_pack in_flight has
IsFree-one = record { number = 1; valid = omega arith; bytes_of = refl; unused = refl }

first_id : get_packet_id new_client ≡ (ok (0 ∷ 1 ∷ []), record new_client { packet_id = 1 })
unfolding get_packet_id struct_pack has
first_id = refl

get_packet_id_total_example : Found new_client (get_packet_id new_client)
get_packet_id_total_example = get_packet_id_total new_client (0 ∷ 1 ∷ []) (omega arith) IsFree-one

-- A publish that awaits its acknowledgement.
abbrev awaiting_one : Client
awaiting_one = (packet_ack_future puback new_client).1

issued_one : packet_ack_future puback new_client ≡ (ok (0 ∷ 1 ∷ [], 0), awaiting_one)
unfolding packet_ack_future get_packet_id struct_pack has ◌>>=◌ new_future
issued_one = refl

packet_ack_future-Answered_example : Answered puback new_client awaiting_one (0 ∷ 1 ∷ []) [] 0
packet_ack_future-Answered_example =
    packet_ack_future-Answered puback new_client awaiting_one (0 ∷ 1 ∷ []) [] 0 issued_one

-- A message to bob is the first one of its queue.
abbrev pub bob : Str
bob = replicate 66 b'3'

abbrev pub queue_b : Str
queue_b = replicate 64 b'b'

abbrev to_bob : Client
to_bob = (ordered_ack_send toy (str (b'h' ∷ [])) bob queue_b MsgEnum.msg none connected).1

first_message :
    ordered_ack_send toy (str (b'h' ∷ [])) bob queue_b MsgEnum.msg none connected
    ≡ (ok ((queue_b, 0), 0), to_bob)
unfolding ordered_ack_send ◌>>=◌ pack has bytes_eq get put ordered_ack_send_by pack_packet
    signed_section struct_pack next_seq_no
first_message = refl

ordered_ack_send-Queued_example :
    (queue_b ≡ queue_b) × Queued connected to_bob MsgEnum.msg bob queue_b 0 0
ordered_ack_send-Queued_example =
    ordered_ack_send-Queued toy (str (b'h' ∷ [])) bob queue_b MsgEnum.msg connected to_bob
      (queue_b, 0) 0 first_message
