-- ===== src/Client/PacketIds.antt =====
-- Packet identifiers: get_packet_id, packet_ack_future and reset_session_state of
-- src/sidewire/mqtt/utils.py, the method reset_session_state of mqtt_client.py, and
-- handle_broker_ack of mqtt_proto.py.
pub mod Fresh
pub mod Acks
pub mod Reset
use sidewire.Prelude.{
  ℕ, zero, suc, ◌+◌, ◌%◌, Bool, true, false, ◌||◌, Option, none, some, List, [], ◌∷◌, if◌then◌else◌,
  take, drop, text_eq,
}
use sidewire.Prelude.Results.{assertion_error, Result, ok, raised}
use sidewire.Prelude.Action.{Action, pure, throw, lift, gets, modify, ◌>>=◌, ◌>>◌}
use sidewire.Prelude.Dict.{Dict, get, put, del, has}
use sidewire.Aionetiface.{Bytes}
use sidewire.Wire.Struct.{pack}
use sidewire.Client.{
  Client, AckKind, suback, puback, ids_of, set_ids, Future, result, cancelled, Answer, codes,
  yes_ack, done, set_future, new_future, set_result,
}

-- any(pid in client.packet_ids[pt] for pt in client.packet_ids)
unfoldable pub in_flight : Bytes → Client → Bool
in_flight pid c = has pid c.subacks || has pid c.pubacks

-- `rounds` of `for _ in range(65535)` are left. `pack` does not raise: the counter stays below 65536.
unfoldable pub packet_id_loop : ℕ → Action Client Bytes
unfolding in_flight throw
packet_id_loop zero = throw assertion_error
packet_id_loop (suc rounds) = λ c.
    let c' : Client = record c { packet_id = c.packet_id % 65535 + 1 } in
    let more : Result Bytes × Client = packet_id_loop rounds c' in
    elim (pack 2 c'.packet_id) [
      | raised x ↦ (raised x, c')
      | ok pid ↦ if in_flight pid c' then more else (ok pid, c')
    ]

unfoldable pub get_packet_id : Action Client Bytes
unfolding packet_id_loop
get_packet_id = packet_id_loop 65535

unfoldable pub packet_ack_future : AckKind → Action Client (Bytes × ℕ)
unfolding ids_of set_ids
packet_ack_future kind = do
  packet_id ← get_packet_id
  packet_ack ← new_future
  modify (λ c. set_ids kind (put packet_id packet_ack (ids_of kind c)) c)
  pure (packet_id, packet_ack)

-- `if not future.done(): future.cancel()` for every future of a table
unfoldable pub cancel_all : Dict Bytes ℕ → Client → Client
unfolding done set_future
cancel_all [] c = c
cancel_all ((pid, i) ∷ ids) c =
    cancel_all ids (if done (c.futures i) then c else set_future i cancelled c)

-- utils.reset_session_state
unfoldable pub reset_session_state : Client → Client
unfolding cancel_all
reset_session_state c =
    let c' : Client = cancel_all c.pubacks (cancel_all c.subacks (record c { buf = [] })) in
    record c' { subacks = []; pubacks = []; packet_id = 0 }

-- MQTTClient.reset_session_state
unfoldable pub clear_session : Client → Client
unfolding cancel_all
clear_session c =
    let c' : Client = cancel_all c.pubacks (cancel_all c.subacks c) in
    record c' { subacks = []; pubacks = []; sent_msg_ids = [] }

-- What the future of an acknowledged packet is set to.
abbrev answer : AckKind → Bytes → Answer
answer suback body = codes (drop 2 body)
answer puback body = yes_ack

-- handle_broker_ack, for the body of a packet of type `kind`
unfoldable pub handle_broker_ack : AckKind → Bytes → Client → Client
unfolding ids_of set_ids done set_future
handle_broker_ack kind body c =
    let packet_id = take 2 body in
    elim (get packet_id (ids_of kind c)) [
      | none ↦ c
      | some ack_future ↦
          if done (c.futures ack_future)
          then c
          else (let c' : Client = set_future ack_future (result (answer kind body)) c in
              set_ids kind (del packet_id (ids_of kind c')) c')
    ]
