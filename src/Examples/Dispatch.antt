-- ===== src/Examples/Dispatch.antt =====
-- The dispatcher at concrete inputs.
use sidewire.Prelude.{ℕ, ◌*◌, ◌≡◌, refl, ◌⊎◌, true, some, [], ◌∷◌, bytes_eq, arith, text_eq}
use sidewire.Prelude.Dict.{get, put}
use sidewire.AppPacket.{MsgEnum}
use sidewire.Client.{Client, find_meta, done, second}
use sidewire.Dispatch.{prune_msg_ids, republish_meta}
use sidewire.Dispatch.Pruning.{IsDict, put-IsDict, unless_expired, get-prune_msg_ids}
use sidewire.Dispatch.Republish.{Retransmits, Resent, find_meta-republish_meta}
use sidewire.Examples.{toy, connected}
use sidewire.Examples.Clients.{queue_b}
use sidewire.Examples.Proto.{waiting, entry_of_bob}

abbrev minute : ℕ
minute = 60 * second

to_bob_found : find_meta MsgEnum.msg queue_b 0 waiting.msg_queues ≡ some entry_of_bob
unfolding find_meta get bytes_eq
to_bob_found = refl

to_bob-Retransmits : Retransmits entry_of_bob minute 60 true (done (waiting.futures 0))
unfolding done
to_bob-Retransmits = record { many = refl; unacknowledged = refl; alive = omega arith }

abbrev republished : Client
republished = (republish_meta toy (λ bound. 0) (MsgEnum.msg, queue_b, 0) minute 5 60 true waiting).1

find_meta-republish_meta_example :
    (find_meta MsgEnum.msg queue_b 0 republished.msg_queues
      ≡ find_meta MsgEnum.msg queue_b 0 waiting.msg_queues)
    ⊎ Resent waiting republished MsgEnum.msg queue_b 0 minute 60 true
find_meta-republish_meta_example =
    find_meta-republish_meta toy (λ bound. 0) MsgEnum.msg queue_b 0 minute 5 60 true waiting
      MsgEnum.msg queue_b 0

-- Two hashes were noted, at the times 5 and 900.
abbrev noted : Client
noted = record connected { recv_msg_ids = put (1 ∷ []) 5 (put (2 ∷ []) 900 []) }

noted-IsDict : IsDict noted.recv_msg_ids
unfolding IsDict
noted-IsDict = put-IsDict (1 ∷ []) 5 (put (2 ∷ []) 900 []) (put-IsDict (2 ∷ []) 900 [] tt)

get-prune_msg_ids_example :
    (get (1 ∷ []) (prune_msg_ids 200_000_000 noted).recv_msg_ids
      ≡ unless_expired 200_000_000 120_000_000 (get (1 ∷ []) noted.recv_msg_ids))
    × (get (1 ∷ []) (prune_msg_ids 200_000_000 noted).sent_msg_ids
        ≡ unless_expired 200_000_000 120_000_000 (get (1 ∷ []) noted.sent_msg_ids))
get-prune_msg_ids_example =
    get-prune_msg_ids 200_000_000 noted (1 ∷ []) noted-IsDict (unfold IsDict in tt)
