-- ===== src/Client/Sending/Queueing.antt =====
-- Queues of messages: what queuing a message does to them.
use sidewire.Prelude.{
  ℕ, ◌+◌, ◌<◌, ◌≡◌, refl, ◌∙◌, inl, inr, true, false, ◌&&◌, none, some, [], ◌∷◌, bytes_eq,
  bytes_eq_iff, if◌then◌else◌, Bool-cases, Option-cases, ◌==◌, text_eq, nat_eq, arith,
}
use sidewire.Prelude.Results.{ok}
use sidewire.Prelude.Action.{◌>>=◌}
use sidewire.Prelude.Dict.{get, put, has, get-put, get-eq-none_of_has}
use sidewire.Aionetiface.{Aionetiface, Bytes, Str}
use sidewire.AppPacket.{MsgEnum}
use sidewire.Client.{
  queue_of, sub_queue, SubQueue, Client, Meta, put_sub, pending, find_meta, get_time, new_future,
  set_future,
}
use sidewire.Client.Lookup.{same_type, same_type-eq, find_meta-put_sub}
use sidewire.Client.Sending.{next_seq_no, existing, ensure_queue, put_meta, new_meta, enqueue}

-- next_seq_no is above every number of the queue.
pub next_seq_no_above : (d : SubQueue) (k : ℕ) (m : Meta) → get k d ≡ some m → k < next_seq_no d
unfolding next_seq_no get
next_seq_no_above [] k m h = absurd (cc h)
next_seq_no_above ((n, m') ∷ d) k m h = ground (arith, next_seq_no_above d k m)

pub get-existing :
    (t : MsgEnum) (q : Str) (k : ℕ) (c : Client)
    → get k (existing t q c) ≡ find_meta t q k c.msg_queues
unfolding existing get find_meta
get-existing t q k c = elim (Option-cases (sub_queue t q c.msg_queues)) [
  | inl e ↦ rw e
  | inr (d, e) ↦ rw e
]

missing :
    (t : MsgEnum) (q : Str) (k : ℕ) (c : Client)
    → has q (queue_of t c.msg_queues) ≡ false
    → find_meta t q k c.msg_queues ≡ none
unfolding find_meta sub_queue
missing t q k c h = rw (get-eq-none_of_has q (queue_of t c.msg_queues) h)

-- ensure_queue adds no message.
pub find_meta-ensure_queue :
    (t u : MsgEnum) (q r : Str) (k : ℕ) (c : Client)
    → find_meta u r k (ensure_queue t q c).msg_queues ≡ find_meta u r k c.msg_queues
unfolding ensure_queue get
find_meta-ensure_queue t u q r k c = elim (Bool-cases (has q (queue_of t c.msg_queues))) [
  | inl there ↦ rw there
  | inr new ↦ rw new (
      find_meta-put_sub t u q r k [] c ∙ elim (Bool-cases (same_type t u && bytes_eq q r)) [
        | inr miss ↦ rw miss
        | inl hit ↦
            let b : bytes_eq q r ≡ true = ground arith in
            let s : same_type t u ≡ true = ground arith in
            rw hit (cc (missing t q k c new, same_type-eq t u s, (bytes_eq_iff q r).0 b))
      ])
]

pub find_meta-put_meta :
    (t u : MsgEnum) (q r : Str) (n k : ℕ) (m : Meta) (c : Client)
    → find_meta u r k (put_meta t q n m c).msg_queues ≡ (
        if same_type t u && bytes_eq q r
        then (if n == k then some m else find_meta t q k c.msg_queues)
        else find_meta u r k c.msg_queues)
unfolding put_meta
find_meta-put_meta t u q r n k m c =
    find_meta-put_sub t u q r k (put n m (existing t q c)) c
    ∙ rw (get-put n k m (existing t q c), get-existing t q k c)

module _ (lib : Aionetiface) where
  -- The state that a new message leaves, from the state `s` that the packing left.
  pub after : MsgEnum → Str → ℕ → Str → Bytes → Client → Client
  unfolding new_future
  after t q n dest out s =
      let s' : Client = (new_future s).1 in
      put_meta t q n (new_meta s.next_future dest n out (lib.clock s'.ticks) false)
        (record s' { ticks = s'.ticks + 1 })

  pub next_future-ready :
      (t : MsgEnum) (q : Str) (c : Client) → (ensure_queue t q c).next_future ≡ c.next_future
  unfolding ensure_queue put_sub
  next_future-ready t q c = ground arith

  pub find_meta-after :
      (t u : MsgEnum) (q r : Str) (n k : ℕ) (dest : Str) (out : Bytes) (s : Client)
      → find_meta u r k (after t q n dest out s).msg_queues ≡ (
          if same_type t u && bytes_eq q r
          then (if n == k
              then some (new_meta s.next_future dest n out (lib.clock s.ticks) false)
              else find_meta t q k s.msg_queues)
          else find_meta u r k s.msg_queues)
  unfolding after new_future set_future
  find_meta-after t u q r n k dest out s =
      find_meta-put_meta t u q r n k (new_meta s.next_future dest n out (lib.clock s.ticks) false)
        (record (new_future s).1 { ticks = s.ticks + 1 })

  pub futures-after :
      (t : MsgEnum) (q : Str) (n : ℕ) (dest : Str) (out : Bytes) (s : Client)
      → (after t q n dest out s).futures s.next_future ≡ pending
  unfolding after new_future set_future put_meta put_sub
  futures-after t q n dest out s = ground arith

  pub kp-after :
      (t : MsgEnum) (q : Str) (n : ℕ) (dest : Str) (out : Bytes) (s : Client)
      → (after t q n dest out s).kp ≡ s.kp
  unfolding after new_future set_future put_meta put_sub
  kp-after t q n dest out s = refl

  pub kept_after :
      (t u : MsgEnum) (q r : Str) (n k : ℕ) (dest : Str) (out : Bytes) (s : Client) (m : Meta)
      → find_meta t q n s.msg_queues ≡ none
      → find_meta u r k s.msg_queues ≡ some m
      → find_meta u r k (after t q n dest out s).msg_queues ≡ some m
  kept_after t u q r n k dest out s m unused h =
      find_meta-after t u q r n k dest out s ∙ elim (Bool-cases (same_type t u && bytes_eq q r)) [
        | inr miss ↦ rw miss h
        | inl hit ↦
            let b : bytes_eq q r ≡ true = ground arith in
            let st : same_type t u ≡ true = ground arith in
            let there : find_meta t q k s.msg_queues ≡ some m =
              cc (h, same_type-eq t u st, (bytes_eq_iff q r).0 b) in
            rw hit (elim (Bool-cases (n == k)) [
              | inr other ↦ rw other there
              | inl same ↦ let e : n ≡ k = ground arith in absurd (cc (unused, there, e))
            ])
      ]

  pub enqueue_new :
      (t : MsgEnum) (q : Str) (n : ℕ) (dest : Str) (out : Bytes) (s : Client)
      → enqueue lib t q n dest out false none s
        ≡ (ok ((q, n), s.next_future), after t q n dest out s)
  unfolding enqueue ◌>>=◌ after new_future get_time
  enqueue_new t q n dest out s = refl
