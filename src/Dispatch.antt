-- ===== src/Dispatch.antt =====
-- The background task that republishes queued messages: src/sidewire/mqtt/mqtt_dispatch.py, with
-- iter_all_messages and prune_msg_ids of utils.py.
pub mod Loop
pub mod Pruning
pub mod Republish
pub mod Order
use sidewire.Prelude.{
  ℕ, zero, suc, ◌+◌, ◌*◌, ◌^◌, min, Bool, true, false, ◌&&◌, not, Option, none, some, List, [], ◌∷◌,
  ◌++◌, map, if◌then◌else◌, ltb, leb, text_eq,
}
use sidewire.Prelude.Results.{Result, ok, raised}
use sidewire.Prelude.Action.{Action, pure, throw, lift, gets, modify, ◌>>=◌, ◌>>◌}
use sidewire.Prelude.Dict.{Dict, get, put, del, has}
use sidewire.Aionetiface.{Aionetiface, Bytes, Str, Text, str, bytes}
use sidewire.Wire.Msgs.{build_ping}
use sidewire.AppPacket.{MsgEnum}
use sidewire.Client.{
  Client, Meta, SubQueue, Queue, Queues, done, queue_of, find_meta, get_time, pipe_send, pipe_open,
  async_wrap_errors, second,
}
use sidewire.Client.Sending.{publish, put_meta}

-- Where a message stands in `msg_queues`: type, queue and number. The code holds the entry itself.
abbrev pub Ref : Type 0
Ref = MsgEnum × Str × ℕ

insert_sorted : ℕ → List ℕ → List ℕ
insert_sorted n [] = n ∷ []
insert_sorted n (k ∷ ks) = if leb n k then n ∷ (k ∷ ks) else k ∷ insert_sorted n ks

-- sorted(ks)
unfoldable pub sorted : List ℕ → List ℕ
unfolding insert_sorted
sorted [] = []
sorted (k ∷ ks) = insert_sorted k (sorted ks)

unfoldable pub keys {ℓ} : {K V : Type ℓ} → Dict K V → List K
keys [] = []
keys ((k, v) ∷ d) = k ∷ keys d

unfoldable pub refs_of_queue : MsgEnum → Queue → List Ref
unfolding sorted keys
refs_of_queue t [] = []
refs_of_queue t ((queue_id, d) ∷ q) =
    map (λ n. (t, queue_id, n)) (sorted (keys d)) ++ refs_of_queue t q

unfoldable pub iter_all_messages : Queues → List Ref
unfolding refs_of_queue queue_of
iter_all_messages q =
    refs_of_queue MsgEnum.msg (queue_of MsgEnum.msg q)
    ++ (refs_of_queue MsgEnum.msgack (queue_of MsgEnum.msgack q)
        ++ refs_of_queue MsgEnum.probe (queue_of MsgEnum.probe q))

-- for msg_id, created_time in items: if (now - created_time) > ttl: del id_table[msg_id]
unfoldable pub prune_table : ℕ → ℕ → Dict Str ℕ → Dict Str ℕ → Dict Str ℕ
prune_table now ttl [] table = table
prune_table now ttl ((msg_id, created_time) ∷ items) table =
    prune_table now ttl items (if ltb (created_time + ttl) now then del msg_id table else table)

unfoldable pub prune_msg_ids : ℕ → Client → Client
unfolding prune_table
prune_msg_ids now c =
    let ttl = c.republish_duration * second * 2 in
    record c {
      recv_msg_ids = prune_table now ttl c.recv_msg_ids c.recv_msg_ids;
      sent_msg_ids = prune_table now ttl c.sent_msg_ids c.sent_msg_ids;
    }

-- min(interval * 2 ** attempts, min(60, republish_duration)), in microseconds
unfoldable pub backoff : ℕ → ℕ → ℕ → ℕ
backoff interval attempts republish_duration =
    min (interval * second * 2 ^ attempts) (min (60 * second) (republish_duration * second))

-- Whether republish_meta sends: the guards of the code, in its order. `jitter` is what
-- random.uniform(0, current_backoff) returns.
unfoldable pub is_due : Meta → ℕ → ℕ → Bool → Bool → ℕ → Bool
is_due m now republish_duration ignore_acked acked jitter =
    if m.probe_one_shot
    then false
    else if ignore_acked && acked
    then false
    else if ltb now (m.updated + jitter)
    then false
    else if leb (m.created + republish_duration * second) now
    then false
    else true

module _ (lib : Aionetiface) where
  unfoldable pub safe_pipe_send : Bytes → Action Client Bool
  unfolding pipe_send async_wrap_errors
  safe_pipe_send buf c =
      if pipe_open c.pipe
      then (async_wrap_errors lib (pipe_send lib buf) >>= λ _. pure true) c
      else (ok false, c)

  -- What republish_meta does with a message that is due.
  unfoldable pub send_again : Ref → Meta → ℕ → Action Client (Unit {0})
  unfolding put_meta
  send_again (t, queue_id, seq_no) m now = do
    modify (put_meta t queue_id seq_no (record m { updated = now; attempts = m.attempts + 1 }))
    (buf, packet_ack) ← publish lib m.dest_pk_hex (bytes m.out)
    is_sent ← safe_pipe_send buf
    pure tt

  -- `uniform` is random.uniform(0, _) at this call.
  unfoldable pub republish_meta : (ℕ → ℕ) → Ref → ℕ → ℕ → ℕ → Bool → Action Client (Unit {0})
  unfolding find_meta is_due backoff done
  republish_meta uniform (t, queue_id, seq_no) now interval republish_duration ignore_acked c =
      elim (find_meta t queue_id seq_no c.msg_queues) [
        | none ↦ (ok tt, c)
        | some m ↦
            let jitter = uniform (backoff interval m.attempts republish_duration) in
            let acked = done (c.futures m.app_ack) in
            if is_due m now republish_duration ignore_acked acked jitter
            then send_again (t, queue_id, seq_no) m now c
            else (ok tt, c)
      ]

  -- The loop over the messages, which a closed pipe ends. `uniform k` is the k-th draw.
  unfoldable pub republish_all :
      (ℕ → ℕ → ℕ) → ℕ → List Ref → ℕ → ℕ → ℕ → Bool → Action Client (Unit {0})
  republish_all uniform k [] now interval republish_duration ignore_acked = pure tt
  republish_all uniform k (r ∷ rs) now interval republish_duration ignore_acked = λ c.
      let rest : Action Client (Unit {0}) =
        republish_all uniform (k + 1) rs now interval republish_duration ignore_acked in
      if pipe_open c.pipe
      then (republish_meta (uniform k) r now interval republish_duration ignore_acked >> rest) c
      else (ok tt, c)

  abbrev send_ping : ℕ → ℕ × Option Bytes → Action Client ℕ
  send_ping now (last_ping, none) = pure last_ping
  send_ping now (last_ping, some buf) = do
    is_sent ← safe_pipe_send buf
    modify (prune_msg_ids now)
    pure last_ping

  -- One turn of the dispatcher's loop behind reconnect_loop, from the time of the last ping to the
  -- next one's.
  unfoldable pub dispatch_turn : (ℕ → ℕ → ℕ) → ℕ → ℕ → ℕ → Bool → ℕ → Action Client ℕ
  unfolding get_time iter_all_messages prune_msg_ids
  dispatch_turn uniform republish_duration interval keep_alive ignore_acked last_ping = do
    now ← get_time lib
    refs ← gets (λ c. iter_all_messages c.msg_queues)
    republish_all uniform 0 refs now interval republish_duration ignore_acked
    later ← get_time lib
    ping ← lift (build_ping last_ping (keep_alive * second) later)
    send_ping now ping
