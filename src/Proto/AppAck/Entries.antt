-- ===== src/Proto/AppAck/Entries.antt =====
-- What process_app_ack leaves in the queues.
use sidewire.Prelude.{
  subst, sym, [], ◌∷◌, ℕ, ◌≡◌, refl, ◌∙◌, ◌⊎◌, inl, inr, Bool, true, ◌&&◌, none, bytes_eq,
  bytes_eq_iff, if◌then◌else◌, Bool-cases, Option-cases, ◌==◌, text_eq, nat_eq, arith,
}
use sidewire.Prelude.Dict.{get, get-del}
use sidewire.Aionetiface.{Str}
use sidewire.AppPacket.{MsgEnum, Inbound}
use sidewire.Client.{Client, Meta, SubQueue, set_future, set_result, sub_queue, find_meta}
use sidewire.Client.Lookup.{same_type, same_type-eq, find_meta-put_sub, find_meta-del_sub}
use sidewire.Proto.AppAck.{
  Acknowledges, resolved, removed, Outcome, skipped, settled, kept, dropped,
  process_app_ack-Outcome,
}
use sidewire.Client.Sending.{sub_or_empty}
use sidewire.Proto.{keep_left, process_app_ack}

find_meta-keep_left :
    (t u : MsgEnum) (q r : Str) (k : ℕ) (d : SubQueue) (c : Client)
    → find_meta u r k (keep_left t q d c).msg_queues
      ≡ (if same_type t u && bytes_eq q r then get k d else find_meta u r k c.msg_queues)
unfolding keep_left get
find_meta-keep_left t u q r k [] c = find_meta-del_sub t u q r k c
find_meta-keep_left t u q r k (x ∷ xs) c = find_meta-put_sub t u q r k (x ∷ xs) c

get-sub_or_empty :
    (t : MsgEnum) (q : Str) (k : ℕ) (c : Client)
    → get k (sub_or_empty (sub_queue t q c.msg_queues)) ≡ find_meta t q k c.msg_queues
unfolding get find_meta
get-sub_or_empty t q k c = elim (Option-cases (sub_queue t q c.msg_queues)) [
  | inl e ↦ rw e
  | inr (d, e) ↦ rw e
]

-- The entry of a one-shot message that was acknowledged is gone.
pub record Removed (p : Inbound) (c : Client) (t : MsgEnum) (r : Str) (k : ℕ) (c' : Client)
    : Type 0 where
  pub entry : Meta
  pub by : Acknowledges p c t entry
  pub one_shot : entry.probe_one_shot ≡ true
  pub queue_id : r ≡ p.queue_id_hex
  pub number : k ≡ p.seq_no
  pub gone : find_meta t r k c'.msg_queues ≡ none

find_meta-removed :
    (p : Inbound) (c : Client) (t : MsgEnum) (m : Meta) (u : MsgEnum) (r : Str) (k : ℕ)
    → find_meta u r k (removed p t m c).msg_queues ≡ (
        if same_type t u && bytes_eq p.queue_id_hex r
        then (if p.seq_no == k then none else find_meta t p.queue_id_hex k c.msg_queues)
        else find_meta u r k c.msg_queues)
unfolding set_result set_future
find_meta-removed p c t m u r k =
    find_meta-keep_left t u p.queue_id_hex r k _ (resolved m c)
    ∙ rw (
      get-del p.seq_no k (sub_or_empty (sub_queue t p.queue_id_hex c.msg_queues)),
      get-sub_or_empty t p.queue_id_hex k c,
    )

dropped-find_meta :
    (p : Inbound) (c : Client) (t : MsgEnum) (m : Meta)
    → Acknowledges p c t m
    → m.probe_one_shot ≡ true
    → (u : MsgEnum) (r : Str) (k : ℕ)
    → (find_meta u r k (removed p t m c).msg_queues ≡ find_meta u r k c.msg_queues)
      ⊎ Removed p c u r k (removed p t m c)
dropped-find_meta p c t m a one u r k =
    elim (Bool-cases (same_type t u && bytes_eq p.queue_id_hex r)) [
      | inr miss ↦ inl (find_meta-removed p c t m u r k ∙ rw miss)
      | inl hit ↦
          let b : bytes_eq p.queue_id_hex r ≡ true = ground arith in
          let s : same_type t u ≡ true = ground arith in
          let et : t ≡ u = same_type-eq t u s in
          let eq : p.queue_id_hex ≡ r = (bytes_eq_iff p.queue_id_hex r).0 b in
          elim (Bool-cases (p.seq_no == k)) [
            | inr other ↦ inl (find_meta-removed p c t m u r k ∙ rw (hit, other) (cc (et, eq)))
            | inl same ↦ inr (record {
              entry = m;
              by = subst (λ t. Acknowledges p c t m) et a;
              one_shot = one;
              queue_id = sym eq;
              number = ground (arith, same);
              gone = find_meta-removed p c t m u r k ∙ rw (hit, same);
            })
          ]
    ]

Outcome-find_meta :
    (p : Inbound) (c : Client) (t : MsgEnum) (r : Bool × Client)
    → Outcome p c t r
    → (u : MsgEnum) (q : Str) (k : ℕ)
    → (find_meta u q k r.1.msg_queues ≡ find_meta u q k c.msg_queues) ⊎ Removed p c u q k r.1
unfolding set_result set_future
Outcome-find_meta p c t _ skipped u q k = inl refl
Outcome-find_meta p c t _ settled u q k = inl refl
Outcome-find_meta p c t _ (kept m a h) u q k = inl refl
Outcome-find_meta p c t _ (dropped m a h) u q k = dropped-find_meta p c t m a h u q k

-- An acknowledgement changes no entry of any queue, but that it takes away the entry of a one-shot
-- message that it acknowledges.
pub find_meta-process_app_ack :
    (p : Inbound) (c : Client) (u : MsgEnum) (q : Str) (k : ℕ)
    → (find_meta u q k (process_app_ack p c).msg_queues ≡ find_meta u q k c.msg_queues)
      ⊎ Removed p c u q k (process_app_ack p c)
find_meta-process_app_ack p c u q k =
    let (t, r, o, e) = process_app_ack-Outcome p c in
    subst
      (λ (c' : Client).
        (find_meta u q k c'.msg_queues ≡ find_meta u q k c.msg_queues) ⊎ Removed p c u q k c')
      e (Outcome-find_meta p c t r o u q k)
