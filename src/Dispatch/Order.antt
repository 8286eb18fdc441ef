-- ===== src/Dispatch/Order.antt =====
-- iter_all_messages: every queued message is visited, those of a queue in the order of their numbers.
use mathlib.Core.List.{Memᴰ}
use mathlib.Core.List.Memᴰ
use sidewire.Prelude.{
  ℕ, ◌≡◌, refl, ap, subst, ◌∙◌, inl, inr, none, some, List, [], ◌∷◌, map, leb, ◌==◌, bytes_eq,
  bytes_eq_iff, Bool-cases, Option-cases, text_eq, nat_eq, arith,
}
use sidewire.Prelude.Dict.{get}
use sidewire.Aionetiface.{Str}
use sidewire.AppPacket.{MsgEnum}
use sidewire.Client.{Meta, SubQueue, Queue, Queues, queue_of, sub_queue, find_meta}
use sidewire.Dispatch.{insert_sorted, sorted, keys, refs_of_queue, iter_all_messages}

insert_sorted-head : (k : ℕ) (ks : List ℕ) → Memᴰ k (insert_sorted k ks)
unfolding insert_sorted
insert_sorted-head k [] = Memᴰ.head refl
insert_sorted-head k (j ∷ js) = elim (Bool-cases (leb k j)) [
  | inl le ↦ rw le (Memᴰ.head refl)
  | inr gt ↦ rw gt (Memᴰ.tail (insert_sorted-head k js))
]

insert_sorted-tail : (k n : ℕ) (ks : List ℕ) → Memᴰ n ks → Memᴰ n (insert_sorted k ks)
unfolding insert_sorted
insert_sorted-tail k n [] h = elim h [ ]
insert_sorted-tail k n (j ∷ js) h = elim (Bool-cases (leb k j)) [
  | inl le ↦ rw le (Memᴰ.tail h)
  | inr gt ↦ rw gt (elim (Memᴰ.cases_cons h) [
    | inl same ↦ Memᴰ.head same
    | inr later ↦ Memᴰ.tail (insert_sorted-tail k n js later)
  ])
]

mem-sorted : (n : ℕ) (ks : List ℕ) → Memᴰ n ks → Memᴰ n (sorted ks)
unfolding sorted
mem-sorted n [] h = elim h [ ]
mem-sorted n (k ∷ ks) (Memᴰ.head e) = rw e (insert_sorted-head k (sorted ks))
mem-sorted n (k ∷ ks) (Memᴰ.tail h) = insert_sorted-tail k n (sorted ks) (mem-sorted n ks h)

mem-keys : (n : ℕ) (d : SubQueue) (m : Meta) → get n d ≡ some m → Memᴰ n (keys d)
unfolding keys get
mem-keys n [] m h = absurd (cc h)
mem-keys n ((k, m') ∷ d) m h = elim (Bool-cases (k == n)) [
  | inl same ↦ Memᴰ.head (ground arith)
  | inr other ↦ Memᴰ.tail (mem-keys n d m (ground (arith, h)))
]

mem-map : {A B : Type 0} (f : A → B) (a : A) (xs : List A) → Memᴰ a xs → Memᴰ (f a) (map f xs)
mem-map f a [] h = elim h [ ]
mem-map f a (x ∷ xs) (Memᴰ.head e) = Memᴰ.head (ap f e)
mem-map f a (x ∷ xs) (Memᴰ.tail h) = Memᴰ.tail (mem-map f a xs h)

refs_of_queue-complete :
    (t : MsgEnum) (q : Str) (n : ℕ) (queues : Queue) (d : SubQueue) (m : Meta)
    → get q queues ≡ some d
    → get n d ≡ some m
    → Memᴰ (t, q, n) (refs_of_queue t queues)
unfolding refs_of_queue get
refs_of_queue-complete t q n [] d m h k = absurd (cc h)
refs_of_queue-complete t q n ((r, d') ∷ queues) d m h k = elim (Bool-cases (bytes_eq r q)) [
  | inl same ↦
      let e : r ≡ q = (bytes_eq_iff r q).0 same in
      let ed : d' ≡ d = ground (arith, h, same) in
      let found : get n d' ≡ some m = ap (get n) ed ∙ k in
      let visited : Memᴰ (t, r, n) (map (λ n. (t, r, n)) (sorted (keys d'))) =
        mem-map (λ n. (t, r, n)) n (sorted (keys d'))
          (mem-sorted n (keys d') (mem-keys n d' m found)) in
      subst (λ x. Memᴰ (t, x, n) (refs_of_queue t ((r, d') ∷ queues))) e
        (unfold refs_of_queue in Memᴰ.append_left (refs_of_queue t queues) visited)
  | inr other ↦
      Memᴰ.append_right (map (λ n. (t, r, n)) (sorted (keys d')))
        (refs_of_queue-complete t q n queues d m (ground (arith, h, other)) k)
]

sub_queue-complete :
    (t : MsgEnum) (q : Str) (n : ℕ) (queues : Queues) (m : Meta)
    → find_meta t q n queues ≡ some m
    → Memᴰ (t, q, n) (refs_of_queue t (queue_of t queues))
unfolding find_meta sub_queue
sub_queue-complete t q n queues m h = elim (Option-cases (get q (queue_of t queues))) [
  | inl e ↦ let lost : find_meta t q n queues ≡ none = rw e refl in absurd (cc (h, lost))
  | inr (d, e) ↦ refs_of_queue-complete t q n (queue_of t queues) d m e ((rw e refl) ∙ h)
]

-- The dispatcher visits every queued message.
iter_all_messages-complete :
    (t : MsgEnum) (q : Str) (n : ℕ) (queues : Queues) (m : Meta)
    → find_meta t q n queues ≡ some m
    → Memᴰ (t, q, n) (iter_all_messages queues)
unfolding iter_all_messages
iter_all_messages-complete MsgEnum.msg q n queues m h =
    Memᴰ.append_left _ (sub_queue-complete MsgEnum.msg q n queues m h)
iter_all_messages-complete MsgEnum.msgack q n queues m h =
    Memᴰ.append_right (refs_of_queue MsgEnum.msg (queue_of MsgEnum.msg queues))
      (Memᴰ.append_left _ (sub_queue-complete MsgEnum.msgack q n queues m h))
iter_all_messages-complete MsgEnum.probe q n queues m h =
    Memᴰ.append_right (refs_of_queue MsgEnum.msg (queue_of MsgEnum.msg queues)) (
      Memᴰ.append_right (refs_of_queue MsgEnum.msgack (queue_of MsgEnum.msgack queues))
        (sub_queue-complete MsgEnum.probe q n queues m h))
