-- ===== src/Proto/AppMsg.antt =====
-- process_app_msg: a message reaches the handlers at most once.
use sidewire.Prelude.{
  ℕ, ◌≡◌, ◌∙◌, Bool, true, none, some, List, [], ◌∷◌, ◌++◌, append-nil, append_assoc, if◌then◌else◌,
  bytes_eq, bytes_eq_iff, ◌&&◌, Bool-cases, Option-cases, inl, inr, text_eq, nat_eq, ltb, arith,
}
use sidewire.Prelude.Dict.{get}
use sidewire.Aionetiface.{Str}
use sidewire.AppPacket.{MsgEnum, Inbound}
use sidewire.Client.{Client, SubQueue, sub_queue, find_meta, put_sub}
use sidewire.Client.Lookup.{same_type, same_type-eq, find_meta-put_sub}
use sidewire.Proto.{drop_older, forget_acks, call_handlers}
use sidewire.Proto.Inbox.{inbox}

-- What the handlers are called with.
abbrev pub calls : List ℕ → Inbound → List (ℕ × Str × Str × Str)
calls [] p = []
calls (h ∷ hs) p = (h, p.msg, p.src_pk_hex, p.queue_id_hex) ∷ calls hs p

get-drop_older :
    (n k : ℕ) (d : SubQueue) → get k (drop_older n d) ≡ (if ltb k n then none else get k d)
unfolding get drop_older
get-drop_older n k [] = ground arith
get-drop_older n k ((j, m) ∷ d) = ground (arith, get-drop_older n k d)

-- The acknowledgements that a message of queue `q` with number `n` makes obsolete.
abbrev pub is_forgotten : Str → ℕ → MsgEnum → Str → ℕ → Bool
is_forgotten q n t r k = same_type MsgEnum.msgack t && bytes_eq q r && ltb k n

find_meta-eq :
    (t : MsgEnum) (q r : Str) (k : ℕ) (c : Client)
    → same_type MsgEnum.msgack t && bytes_eq q r ≡ true
    → find_meta t r k c.msg_queues ≡ find_meta MsgEnum.msgack q k c.msg_queues
find_meta-eq t q r k c h =
    let b : bytes_eq q r ≡ true = ground arith in
    let s : same_type MsgEnum.msgack t ≡ true = ground arith in
    cc (same_type-eq MsgEnum.msgack t s, (bytes_eq_iff q r).0 b)

forget_some :
    (q : Str) (n : ℕ) (c : Client) (t : MsgEnum) (r : Str) (k : ℕ) (d : SubQueue)
    → sub_queue MsgEnum.msgack q c.msg_queues ≡ some d
    → find_meta t r k (put_sub MsgEnum.msgack q (drop_older n d) c).msg_queues
      ≡ (if is_forgotten q n t r k then none else find_meta t r k c.msg_queues)
forget_some q n c t r k d e =
    let found : find_meta MsgEnum.msgack q k c.msg_queues ≡ get k d = unfold find_meta in rw e in
    elim (Bool-cases (same_type MsgEnum.msgack t && bytes_eq q r)) [
      | inl hit ↦
          rw (find_meta-put_sub MsgEnum.msgack t q r k (drop_older n d) c)
            (ground (arith, hit, get-drop_older n k d, find_meta-eq t q r k c hit, found))
      | inr miss ↦
          rw (find_meta-put_sub MsgEnum.msgack t q r k (drop_older n d) c) (ground (arith, miss))
    ]

forget_none :
    (q : Str) (n : ℕ) (c : Client) (t : MsgEnum) (r : Str) (k : ℕ)
    → sub_queue MsgEnum.msgack q c.msg_queues ≡ none
    → find_meta t r k c.msg_queues
      ≡ (if is_forgotten q n t r k then none else find_meta t r k c.msg_queues)
forget_none q n c t r k e =
    let found : find_meta MsgEnum.msgack q k c.msg_queues ≡ none = unfold find_meta in rw e in
    elim (Bool-cases (same_type MsgEnum.msgack t && bytes_eq q r)) [
      | inl hit ↦ ground (arith, hit, find_meta-eq t q r k c hit, found)
      | inr miss ↦ ground (arith, miss)
    ]

-- A message of queue `q` with number `n` deletes the queued acknowledgements of that queue with a
-- smaller number, and no other entry of any queue.
pub find_meta-forget_acks :
    (q : Str) (n : ℕ) (c : Client) (t : MsgEnum) (r : Str) (k : ℕ)
    → find_meta t r k (forget_acks q n c).msg_queues
      ≡ (if is_forgotten q n t r k then none else find_meta t r k c.msg_queues)
unfolding forget_acks
find_meta-forget_acks q n c t r k = elim (Option-cases (sub_queue MsgEnum.msgack q c.msg_queues)) [
  | inl e ↦ rw e (forget_none q n c t r k e)
  | inr (d, e) ↦ rw e (forget_some q n c t r k d e)
]

pub inbox-forget_acks : (q : Str) (n : ℕ) (c : Client) → inbox (forget_acks q n c) ≡ inbox c
unfolding forget_acks inbox
inbox-forget_acks q n c = ground arith

pub inbox-call_handlers :
    (hs : List ℕ) (p : Inbound) (c : Client)
    → inbox (call_handlers hs p.msg p.src_pk_hex p.queue_id_hex c)
      ≡ record (inbox c) { delivered = c.delivered ++ calls hs p }
unfolding call_handlers inbox
inbox-call_handlers [] p c = rw append-nil
inbox-call_handlers (h ∷ hs) p c =
    let call : List (ℕ × Str × Str × Str) = (h, p.msg, p.src_pk_hex, p.queue_id_hex) ∷ [] in
    inbox-call_handlers hs p (record c { delivered = c.delivered ++ call })
    ∙ rw (append_assoc c.delivered call (calls hs p))
