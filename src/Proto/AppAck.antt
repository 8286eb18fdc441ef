-- ===== src/Proto/AppAck.antt =====
-- process_app_ack: who may acknowledge a message, and what becomes of it.
pub mod Entries
use sidewire.Prelude.{
  subst, sym, List, [], ◌∷◌, ℕ, ◌≡◌, refl, ◌∙◌, ◌⊎◌, inl, inr, Bool, true, false, ◌&&◌, Option,
  none, some, bytes_eq, bytes_eq_iff, if◌then◌else◌, Bool-cases, Option-cases, ◌==◌, text_eq,
  nat_eq, arith,
}
use sidewire.Prelude.Dict.{get, del, get-del}
use sidewire.Aionetiface.{Str}
use sidewire.AppPacket.{MsgEnum, Inbound}
use sidewire.Client.{
  Client, Meta, SubQueue, put_sub, del_sub, Future, result, yes_ack, done, set_future, set_result,
  sub_queue, find_meta,
}
use sidewire.Client.Lookup.{same_type, same_type-eq, find_meta-put_sub, find_meta-del_sub}
use sidewire.Client.Sending.{sub_or_empty}
use sidewire.Proto.{keep_left, ack_in, process_app_ack}

-- The packet acknowledges `m` of the queue of type `t`: it names the message, comes from the peer that
-- the message was sent to, and the message was not acknowledged before.
pub record Acknowledges (p : Inbound) (c : Client) (t : MsgEnum) (m : Meta) : Type 0 where
  pub queued : find_meta t p.queue_id_hex p.seq_no c.msg_queues ≡ some m
  pub addressee : m.dest_pk_hex ≡ p.src_pk_hex
  pub awaited : done (c.futures m.app_ack) ≡ false

-- What becomes of the client.
abbrev resolved : Meta → Client → Client
resolved m c = (set_result m.app_ack yes_ack c).1

abbrev removed : Inbound → MsgEnum → Meta → Client → Client
removed p t m c =
    keep_left t p.queue_id_hex
      (del p.seq_no (sub_or_empty (sub_queue t p.queue_id_hex c.msg_queues))) (resolved m c)

data Outcome (p : Inbound) (c : Client) (t : MsgEnum) : Bool × Client → Type 0 where
  skipped : Outcome p c t (false, c)
  settled : Outcome p c t (true, c)
  kept :
      (m : Meta)
      → Acknowledges p c t m
      → m.probe_one_shot ≡ false
      → Outcome p c t (true, resolved m c)
  dropped :
      (m : Meta)
      → Acknowledges p c t m
      → m.probe_one_shot ≡ true
      → Outcome p c t (true, removed p t m c)

ack_in_cases :
    (p : Inbound) (c : Client) (t : MsgEnum)
    → Outcome p c t (ack_in t p.queue_id_hex p.seq_no p.src_pk_hex c)
unfolding ack_in
ack_in_cases p c t = elim (Option-cases (find_meta t p.queue_id_hex p.seq_no c.msg_queues)) [
  | inl e ↦ rw (e, ack_in) skipped
  | inr (m, e) ↦ elim (Bool-cases (bytes_eq m.dest_pk_hex p.src_pk_hex)) [
    | inr other ↦ rw (e, ack_in) (rw other skipped)
    | inl same ↦ elim (Bool-cases (done (c.futures m.app_ack))) [
      | inl old ↦ rw (e, ack_in) (rw (same, old) settled)
      | inr new ↦
          let k : Acknowledges p c t m = record {
            queued = e;
            addressee = (bytes_eq_iff m.dest_pk_hex p.src_pk_hex).0 same;
            awaited = new;
          } in
          elim (Bool-cases m.probe_one_shot) [
            | inl one ↦
                rw (e, ack_in)
                  (rw (same, new, one) (unfold set_result set_future in dropped m k one))
            | inr many ↦
                rw (e, ack_in)
                  (rw (same, new, many) (unfold set_result set_future in kept m k many))
          ]
    ]
  ]
]

keep_left-futures :
    (t : MsgEnum) (q : Str) (d : SubQueue) (c : Client) → (keep_left t q d c).futures ≡ c.futures
unfolding keep_left put_sub del_sub
keep_left-futures t q [] c = refl
keep_left-futures t q (x ∷ xs) c = refl

-- The future `i` was resolved with True, by a packet that acknowledges its message.
pub record Resolved (p : Inbound) (c : Client) (i : ℕ) (c' : Client) : Type 0 where
  pub queue : MsgEnum
  pub entry : Meta
  pub by : Acknowledges p c queue entry
  pub future : entry.app_ack ≡ i
  pub value : c'.futures i ≡ result yes_ack

resolved-futures :
    (p : Inbound) (c c' : Client) (t : MsgEnum) (m : Meta)
    → Acknowledges p c t m
    → c'.futures ≡ (resolved m c).futures
    → (i : ℕ) → (c'.futures i ≡ c.futures i) ⊎ Resolved p c i c'
unfolding set_result set_future
resolved-futures p c c' t m k e i = elim (Bool-cases (m.app_ack == i)) [
  | inr other ↦ inl (rw e (rw other))
  | inl same ↦ inr (record {
    queue = t;
    entry = m;
    by = k;
    future = ground (arith, same);
    value = rw e (rw same);
  })
]

Outcome-futures :
    (p : Inbound) (c : Client) (t : MsgEnum) (r : Bool × Client)
    → Outcome p c t r
    → (i : ℕ) → (r.1.futures i ≡ c.futures i) ⊎ Resolved p c i r.1
Outcome-futures p c t _ skipped i = inl refl
Outcome-futures p c t _ settled i = inl refl
Outcome-futures p c t _ (kept m k h) i = resolved-futures p c _ t m k refl i
Outcome-futures p c t _ (dropped m k h) i =
    resolved-futures p c _ t m k (keep_left-futures t p.queue_id_hex _ (resolved m c)) i

in_order :
    (p : Inbound) (c : Client) (r : Bool × Client)
    → Outcome p c MsgEnum.msg r
    → (t : MsgEnum) × (r' : Bool × Client) × Outcome p c t r'
      × (r'.1 ≡ (
          if r.0 then r.1 else (ack_in MsgEnum.probe p.queue_id_hex p.seq_no p.src_pk_hex r.1).1))
in_order p c _ skipped = (MsgEnum.probe, _, ack_in_cases p c MsgEnum.probe, refl)
in_order p c _ settled = (MsgEnum.msg, _, settled, refl)
in_order p c _ (kept m k h) = (MsgEnum.msg, _, kept m k h, refl)
in_order p c _ (dropped m k h) = (MsgEnum.msg, _, dropped m k h, refl)

-- process_app_ack ends as its body does in one of the two queues.
process_app_ack-Outcome :
    (p : Inbound) (c : Client)
    → (t : MsgEnum) × (r : Bool × Client) × Outcome p c t r × (r.1 ≡ process_app_ack p c)
unfolding process_app_ack
process_app_ack-Outcome p c = in_order p c _ (ack_in_cases p c MsgEnum.msg)

-- No acknowledgement touches a future, unless it names a queued message that awaits one, comes from
-- the peer that this message was sent to, and the future is this message's; then it becomes True.
pub process_app_ack_authentic :
    (p : Inbound) (c : Client) (i : ℕ)
    → ((process_app_ack p c).futures i ≡ c.futures i) ⊎ Resolved p c i (process_app_ack p c)
process_app_ack_authentic p c i =
    let (t, r, o, e) = process_app_ack-Outcome p c in
    subst (λ (c' : Client). (c'.futures i ≡ c.futures i) ⊎ Resolved p c i c') e
      (Outcome-futures p c t r o i)

resolved_at : (m : Meta) (c : Client) → (resolved m c).futures m.app_ack ≡ result yes_ack
unfolding set_result set_future
resolved_at m c = ground arith

ack_in_resolves :
    (p : Inbound) (c : Client) (t : MsgEnum) (m : Meta)
    → Acknowledges p c t m
    → let r : Bool × Client = ack_in t p.queue_id_hex p.seq_no p.src_pk_hex c in
      (r.0 ≡ true) × (r.1.futures m.app_ack ≡ result yes_ack)
unfolding ack_in
ack_in_resolves p c t m a =
    let same : bytes_eq m.dest_pk_hex p.src_pk_hex ≡ true =
      (bytes_eq_iff m.dest_pk_hex p.src_pk_hex).1 a.addressee in
    elim (Bool-cases m.probe_one_shot) [
      | inl one ↦
          rw (a.queued, ack_in)
            (rw (same, a.awaited, one)
              (refl, rw (keep_left-futures t p.queue_id_hex _ (resolved m c)) (resolved_at m c)))
      | inr many ↦ rw (a.queued, ack_in) (rw (same, a.awaited, many) (refl, resolved_at m c))
    ]

-- The acknowledgement of a queued message, by the peer that it was sent to, resolves its future.
pub process_app_ack_resolves :
    (p : Inbound) (c : Client) (m : Meta)
    → Acknowledges p c MsgEnum.msg m
    → (process_app_ack p c).futures m.app_ack ≡ result yes_ack
unfolding process_app_ack
process_app_ack_resolves p c m a =
    let (returned, value) = ack_in_resolves p c MsgEnum.msg m a in rw returned value
