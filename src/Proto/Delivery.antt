-- ===== src/Proto/Delivery.antt =====
-- process_app_msg as a whole: a message reaches the handlers at most once.
use sidewire.Prelude.{
  ◌≡◌, refl, ap, ◌∙◌, true, Option, none, some, ◌++◌, if◌then◌else◌, Bool-cases, Option-cases, inl,
  inr, text_eq, nat_eq, arith,
}
use sidewire.Prelude.Action.{◌>>=◌}
use sidewire.Prelude.Frame.{Leaves-bind, continue-Leaves}
use sidewire.Prelude.Dict.{put, has, has-put_self}
use sidewire.Aionetiface.{Aionetiface, Bytes, Str, str, bytes}
use sidewire.AppPacket.{MsgEnum, Inbound}
use sidewire.Client.{Client, Meta, Queues, sub_queue, find_meta}
use sidewire.Proto.{forget_acks, deliver, queue_ack, answer_msg, process_app_msg}
use sidewire.Proto.Inbox.{
  Received, inbox, inbox_and_queues, Leaves-inbox, publish-Leaves, resend-Leaves, queue_ack-Leaves,
}
use sidewire.Proto.AppMsg.{calls, find_meta-forget_acks, inbox-call_handlers}

module _ (lib : Aionetiface) (fresh : Bytes) (p : Inbound) where
  abbrev pub msg_hash : Str
  msg_hash = lib.sha256_hex (lib.to_b (str p.msg))

  -- The acknowledgement of this message that is queued already.
  abbrev pub queued_ack : Client → Option Meta
  queued_ack c = find_meta MsgEnum.msgack p.queue_id_hex p.seq_no c.msg_queues

  -- The record of received messages with this one, received now.
  abbrev pub with_msg : Client → Received
  with_msg c = record (inbox c) {
    delivered = c.delivered ++ calls c.msg_handlers p;
    recv_msg_ids = put msg_hash (lib.clock c.ticks) c.recv_msg_ids;
  }

  abbrev pub expected_of : Client → Option Meta → Received
  expected_of c (some m) = inbox c
  expected_of c none = if has msg_hash c.recv_msg_ids then inbox c else with_msg c

  deliver-inbox :
      (c : Client)
      → inbox (deliver lib fresh p.msg p.src_pk_hex p.queue_id_hex c).1 ≡ expected_of c none
  unfolding deliver ◌>>=◌ inbox
  deliver-inbox c = elim (Bool-cases (has msg_hash c.recv_msg_ids)) [
    | inl old ↦ rw old
    | inr new ↦ rw new (unfold inbox in inbox-call_handlers c.msg_handlers p _)
  ]

  answer_new-inbox : (c : Client) → inbox (answer_msg lib fresh p none c).1 ≡ expected_of c none
  unfolding answer_msg ◌>>=◌
  answer_new-inbox c =
      continue-Leaves (λ u. queue_ack lib fresh p)
        (deliver lib fresh p.msg p.src_pk_hex p.queue_id_hex c) (λ u. queue_ack-Leaves lib fresh p)
      ∙ deliver-inbox c

  answer_msg-inbox :
      (o : Option Meta) (c : Client) → inbox (answer_msg lib fresh p o c).1 ≡ expected_of c o
  unfolding answer_msg
  answer_msg-inbox (some m) c =
      (Leaves-inbox (
          Leaves-bind _ _ (publish-Leaves lib m.dest_pk_hex (bytes m.out))
            λ r. resend-Leaves lib fresh r.0)).at
        c
  answer_msg-inbox none c = answer_new-inbox c

  pub queued_ack-forget :
      (c : Client) → queued_ack (forget_acks p.queue_id_hex p.seq_no c) ≡ queued_ack c
  queued_ack-forget c =
      rw (find_meta-forget_acks p.queue_id_hex p.seq_no c MsgEnum.msgack p.queue_id_hex p.seq_no)
        (ground arith)

  expected_of-forget :
      (c : Client) (o : Option Meta)
      → expected_of (forget_acks p.queue_id_hex p.seq_no c) o ≡ expected_of c o
  unfolding forget_acks inbox
  expected_of-forget c o =
      elim (Option-cases (sub_queue MsgEnum.msgack p.queue_id_hex c.msg_queues)) [
        | inl e ↦ rw e
        | inr (d, e) ↦ rw e
      ]

  -- On every branch: if an acknowledgement of this message is queued, or its hash is known, the
  -- handlers are not called and no hash is recorded. Otherwise each handler is called once with the
  -- message, and the hash is recorded with the time.
  pub process_app_msg-inbox :
      (c : Client) → inbox (process_app_msg lib fresh p c).1 ≡ expected_of c (queued_ack c)
  unfolding process_app_msg ◌>>=◌
  process_app_msg-inbox c =
      let c' : Client = forget_acks p.queue_id_hex p.seq_no c in
      answer_msg-inbox (queued_ack c') c'
      ∙ expected_of-forget c (queued_ack c')
      ∙ ap (expected_of c) (queued_ack-forget c)

  answer_msg-queues :
      (m : Meta) (c : Client) → (answer_msg lib fresh p (some m) c).1.msg_queues ≡ c.msg_queues
  unfolding answer_msg inbox_and_queues
  answer_msg-queues m c =
      ap (λ (r : Received × Queues). r.1)
        ((Leaves-bind _ _ (publish-Leaves lib m.dest_pk_hex (bytes m.out))
            λ r. resend-Leaves lib fresh r.0).at
          c)

  -- A message that was acknowledged stays so.
  still_queued :
      (c : Client) (m : Meta)
      → queued_ack c ≡ some m
      → queued_ack (process_app_msg lib fresh p c).1 ≡ some m
  unfolding process_app_msg ◌>>=◌
  still_queued c m e =
      let c' : Client = forget_acks p.queue_id_hex p.seq_no c in
      let e' : queued_ack c' ≡ some m = queued_ack-forget c ∙ e in
      rw e' (ap (find_meta MsgEnum.msgack p.queue_id_hex p.seq_no) (answer_msg-queues m c') ∙ e')

  pub recorded :
      (c : Client)
      → queued_ack c ≡ none
      → has msg_hash (process_app_msg lib fresh p c).1.recv_msg_ids ≡ true
  unfolding inbox
  recorded c e =
      ap (λ (r : Received). has msg_hash r.recv_msg_ids)
        (process_app_msg-inbox c ∙ ap (expected_of c) e)
      ∙ known
    where
      known : has msg_hash (expected_of c none).recv_msg_ids ≡ true
      known = elim (Bool-cases (has msg_hash c.recv_msg_ids)) [
        | inl old ↦ rw old old
        | inr new ↦ rw new (has-put_self msg_hash (lib.clock c.ticks) c.recv_msg_ids)
      ]

  -- A message whose hash is known is not delivered.
  pub known_once :
      (c : Client)
      → has msg_hash c.recv_msg_ids ≡ true
      → inbox (process_app_msg lib fresh p c).1 ≡ inbox c
  known_once c h = process_app_msg-inbox c ∙ unknown_ack (queued_ack c)
    where
      unknown_ack : (o : Option Meta) → expected_of c o ≡ inbox c
      unknown_ack (some m) = refl
      unknown_ack none = rw h refl

  -- A packet that is processed twice in a row, the second time on the state that the first left, is
  -- delivered at most once: the second time no handler is called and no hash is recorded.
  pub process_app_msg_once :
      (c : Client)
      → let c1 : Client = (process_app_msg lib fresh p c).1 in
        inbox (process_app_msg lib fresh p c1).1 ≡ inbox c1
  process_app_msg_once c = again (queued_ack c1) refl
    where
      c1 : Client
      c1 = (process_app_msg lib fresh p c).1

      first :
          (o : Option Meta)
          → queued_ack c ≡ o
          → queued_ack c1 ≡ none
          → has msg_hash c1.recv_msg_ids ≡ true
      first (some m) e none_left = absurd (cc (still_queued c m e))
      first none e none_left = recorded c e

      again :
          (o : Option Meta)
          → queued_ack c1 ≡ o
          → inbox (process_app_msg lib fresh p c1).1 ≡ inbox c1
      again (some m) e = process_app_msg-inbox c1 ∙ ap (expected_of c1) e
      again none e =
          process_app_msg-inbox c1 ∙ ap (expected_of c1) e ∙ rw (first (queued_ack c) refl e)
