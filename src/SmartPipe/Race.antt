-- ===== src/SmartPipe/Race.antt =====
-- How send ends, and what it leaves queued.
use sidewire.Prelude.{ℕ, ◌≡◌, Bool, true, false, ◌||◌, ◌&&◌, Option, none, List, [], ◌∷◌, ◌==◌}
use sidewire.Prelude.Results.{Exn, Result, ok, raised}
use sidewire.Aionetiface.{Aionetiface, Str}
use sidewire.AppPacket.{MsgEnum}
use sidewire.Client.{Client, sub_queue, SubQueue}
use sidewire.Client.Sending.{dequeue_msg}
use sidewire.Brokers.Walk.{Store, set_client, client_of, contains, is_unreachable}
use sidewire.SmartPipe.{SmartPipe}

abbrev pub Turn : Type 0
Turn = List (ℕ × Result (Unit {0}))

-- Whether a task of the turn got its acknowledgement.
abbrev acked_in : Turn → Bool
acked_in [] = false
acked_in ((t, ok u) ∷ done) = true
acked_in ((t, raised x) ∷ done) = acked_in done

abbrev pub acked : List Turn → Bool
acked [] = false
acked (done ∷ turns) = acked_in done || acked turns

-- Whether the task is done in the turn, and whether it fails there for a reason of the network.
abbrev mentioned_in : Turn → ℕ → Bool
mentioned_in [] t = false
mentioned_in ((u, r) ∷ done) t = (u == t) || mentioned_in done t

abbrev pub mentioned : List Turn → ℕ → Bool
mentioned [] t = false
mentioned (done ∷ turns) t = mentioned_in done t || mentioned turns t

abbrev failed_in : Turn → ℕ → Bool
failed_in [] t = false
failed_in ((u, ok v) ∷ done) t = failed_in done t
failed_in ((u, raised x) ∷ done) t = (is_unreachable x && (u == t)) || failed_in done t

abbrev pub failed : List Turn → ℕ → Bool
failed [] t = false
failed (done ∷ turns) t = failed_in done t || failed turns t

-- The ends of send: the length of the message after an acknowledgement; 0 when every task has failed; an
-- exception that is no failure of the network.
pub data Outcome (n : ℕ) (tasks : List ℕ) (turns : List Turn) : Result ℕ → Type 0 where
  delivered : acked turns ≡ true → Outcome n tasks turns (ok n)
  unheard :
      ((t : ℕ) → contains tasks t ≡ true → failed turns t ≡ true) → Outcome n tasks turns (ok 0)
  escaped : (x : Exn) → is_unreachable x ≡ false → Outcome n tasks turns (raised x)

-- What is queued for a message at a client.
module _ (msg_id : Str) where
  abbrev pub queued_at : ℕ → Store → Option SubQueue
  queued_at i s = sub_queue MsgEnum.msg msg_id (s.member i).msg_queues

  -- The message leaves client `j`.
  dequeued : ℕ → Store → Store
  unfolding set_client client_of
  dequeued j s = set_client j (dequeue_msg msg_id none MsgEnum.msg (client_of j s)) s
