-- ===== src/Client/Sending/Ordered.antt =====
-- ordered_ack_send: the number that a message is given, and the entry that is queued for it.
use sidewire.Prelude.{
  ℕ, ◌<◌, ◌≡◌, refl, sym, ap, subst, ◌∙◌, inl, inr, true, false, ◌&&◌, none, some, bytes_eq_iff,
  Bool-cases, length, Option-cases, ◌==◌, text_eq, nat_eq, arith,
}
use sidewire.Prelude.Results.{Result, ok, raised, value_error}
use sidewire.Prelude.Action.{◌>>=◌}
use sidewire.Prelude.Frame.{Leaves, Leaves-pure, Leaves-lift, Leaves-gets, Leaves-bind}
use sidewire.Prelude.Dict.{has}
use sidewire.Aionetiface.{Aionetiface, Bytes, Str, Text}
use sidewire.AppPacket.{MsgEnum, AppPacket, pack}
use sidewire.Client.{Client, Meta, Future, pending, Queues, find_meta, get_time, seconds}
use sidewire.Client.Lookup.{same_type_refl}
use sidewire.Client.Sending.{
  next_seq_no, existing, ensure_queue, new_meta, new_packet, pack_packet, note_sent,
  ordered_ack_send_by, ordered_ack_send,
}
use sidewire.Client.Sending.Queueing.{
  next_seq_no_above, get-existing, find_meta-ensure_queue, after, enqueue_new, next_future-ready,
  find_meta-after, futures-after, kept_after,
}

-- The queues and the futures.
abbrev pub queues_and_futures : Client → Queues × (ℕ → Future) × ℕ
queues_and_futures c = (c.msg_queues, c.futures, c.next_future)

-- The entry of a message that was queued under a new number, in the client `c'` that was `c`.
pub record Queued (c c' : Client) (t : MsgEnum) (dest_pk_hex q : Str) (n fut : ℕ) : Type 0 where
  pub entry : Meta
  pub stored : find_meta t q n c'.msg_queues ≡ some entry
  pub reference : entry.app_ack ≡ fut
  pub addressee : entry.dest_pk_hex ≡ dest_pk_hex
  pub unsent : (entry.updated ≡ 0) × (entry.attempts ≡ 0) × (entry.probe_one_shot ≡ false)
  pub awaited : c'.futures fut ≡ pending
  pub fresh : fut ≡ c.next_future
  pub number : (k : ℕ) (m : Meta) → find_meta t q k c.msg_queues ≡ some m → k < n
  pub others :
      (u : MsgEnum) (r : Str) (k : ℕ) (m : Meta)
      → find_meta u r k c.msg_queues ≡ some m
      → find_meta u r k c'.msg_queues ≡ some m

module _ (lib : Aionetiface) where
  get_time-Leaves : Leaves queues_and_futures (get_time lib)
  unfolding get_time
  get_time-Leaves = record { at = λ s. refl }

  pub pack_packet-Leaves : (p : AppPacket) → Leaves queues_and_futures (pack_packet lib p)
  unfolding pack_packet
  pack_packet-Leaves p = Leaves-bind _ _ (Leaves-gets _) λ kp.
      Leaves-bind _ _ get_time-Leaves
        λ now. Leaves-bind _ _ (Leaves-lift (pack lib kp p (seconds now))) λ r. Leaves-pure r.1

  pub note_sent-queues :
      (t : MsgEnum) (m : Text) (c : Client)
      → (c1 : Client) × (note_sent lib t m c ≡ (ok tt, c1))
        × (queues_and_futures c1 ≡ queues_and_futures c)
  unfolding note_sent ◌>>=◌ get_time
  note_sent-queues MsgEnum.msg m c =
      elim (Bool-cases (has (lib.sha256_hex (lib.to_b m)) c.sent_msg_ids)) [
        | inl old ↦ ((note_sent lib MsgEnum.msg m c).1, rw old refl, rw old refl)
        | inr new ↦ ((note_sent lib MsgEnum.msg m c).1, rw new refl, rw new refl)
      ]
  note_sent-queues MsgEnum.msgack m c = (c, refl, refl)
  note_sent-queues MsgEnum.probe m c = (c, refl, refl)

  -- The state when the message's number is chosen, and that number.
  abbrev pub ready : MsgEnum → Str → Client → Client
  ready t q c1 = ensure_queue t q c1

  abbrev pub chosen : MsgEnum → Str → Client → ℕ
  chosen t q c1 = next_seq_no (existing t q (ready t q c1))

  module _ (msg : Text) (dest q : Str) (t : MsgEnum) (c c' : Client) (key : Str × ℕ) (fut : ℕ) where
    pub run_of :
        (c1 s : Client) (r : Result Bytes)
        → length q == 64 ≡ true
        → length dest == 66 ≡ true
        → note_sent lib t msg c ≡ (ok tt, c1)
        → pack_packet lib (new_packet q (chosen t q c1) t msg) (ready t q c1) ≡ (r, s)
        → find_meta t q (chosen t q c1) s.msg_queues ≡ none
        → ordered_ack_send lib msg dest q t none c
          ≡ elim r as (λ _. Result ((Str × ℕ) × ℕ) × Client) [
            | raised x ↦ (raised x, s)
            | ok out ↦
                (ok ((q, chosen t q c1), s.next_future), after lib t q (chosen t q c1) dest out s)
          ]
    unfolding ordered_ack_send ordered_ack_send_by ◌>>=◌
    run_of c1 s (raised x) h64 h66 noted packed unused = rw (h64, h66) (rw noted (rw packed refl))
    run_of c1 s (ok out) h64 h66 noted packed unused =
        rw (h64, h66)
          (rw noted (rw packed (rw unused (enqueue_new lib t q (chosen t q c1) dest out s))))

    -- The new number is unused, and above the numbers in use.
    number_above :
        (c1 : Client) (k : ℕ) (m : Meta)
        → find_meta t q k c1.msg_queues ≡ some m
        → k < chosen t q c1
    number_above c1 k m h =
        next_seq_no_above (existing t q (ready t q c1)) k m
          (get-existing t q k (ready t q c1) ∙ find_meta-ensure_queue t t q q k c1 ∙ h)

    pub unused_of :
        (c1 s : Client)
        → s.msg_queues ≡ (ready t q c1).msg_queues
        → find_meta t q (chosen t q c1) s.msg_queues ≡ none
    unused_of c1 s e = elim (Option-cases (find_meta t q (chosen t q c1) c1.msg_queues)) [
      | inl none_there ↦
          ap (find_meta t q (chosen t q c1)) e
          ∙ find_meta-ensure_queue t t q q (chosen t q c1) c1
          ∙ none_there
      | inr (m, there) ↦ absurd (omega (arith, number_above c1 (chosen t q c1) m there))
    ]

    Queued-of :
        (c1 s : Client) (out : Bytes)
        → queues_and_futures c1 ≡ queues_and_futures c
        → queues_and_futures s ≡ queues_and_futures (ready t q c1)
        → Queued c (after lib t q (chosen t q c1) dest out s) t dest q (chosen t q c1) s.next_future
    Queued-of c1 s out e1 e2 = record {
      entry = new_meta s.next_future dest (chosen t q c1) out (lib.clock s.ticks) false;
      stored =
          find_meta-after lib t t q q (chosen t q c1) (chosen t q c1) dest out s
          ∙ ground (arith, same_type_refl t, bytes_eq_iff q q);
      reference = refl;
      addressee = refl;
      unsent = (refl, refl, refl);
      awaited = futures-after lib t q (chosen t q c1) dest out s;
      fresh = ap (λ r. r.2) e2 ∙ next_future-ready lib t q c1 ∙ ap (λ r. r.2) e1;
      number = λ k m h. number_above c1 k m (ap (λ r. find_meta t q k r.0) e1 ∙ h);
      others = λ u r k m h.
          kept_after lib t u q r (chosen t q c1) k dest out s m (unused_of c1 s (ap (λ r. r.0) e2))
            (ap (λ x. find_meta u r k x.0) e2
              ∙ find_meta-ensure_queue t u q r k c1
              ∙ ap (λ x. find_meta u r k x.0) e1
              ∙ h);
    }

    pub refused :
        (length q == 64) && (length dest == 66) ≡ false
        → ordered_ack_send lib msg dest q t none c ≡ (raised value_error, c)
    unfolding ordered_ack_send ordered_ack_send_by ◌>>=◌
    refused bad = elim (Bool-cases (length q == 64)) [
      | inr short ↦ rw short refl
      | inl fits ↦ let short : length dest == 66 ≡ false = ground arith in rw (fits, short) refl
    ]

    Outcome : Result ((Str × ℕ) × ℕ) × Client → Type 0
    Outcome r = r ≡ (ok (key, fut), c') → (key.0 ≡ q) × Queued c c' t dest q key.1 fut

    packed-Outcome :
        (c1 s : Client) (r : Result Bytes)
        → queues_and_futures c1 ≡ queues_and_futures c
        → queues_and_futures s ≡ queues_and_futures (ready t q c1)
        → Outcome (elim r as (λ _. Result ((Str × ℕ) × ℕ) × Client) [
          | raised x ↦ (raised x, s)
          | ok out ↦
              (ok ((q, chosen t q c1), s.next_future), after lib t q (chosen t q c1) dest out s)
        ])
    unfolding Outcome
    packed-Outcome c1 s (raised x) e1 e2 h = absurd (cc h)
    packed-Outcome c1 s (ok out) e1 e2 h =
        let value : (Str × ℕ) × ℕ = ((q, chosen t q c1), s.next_future) in
        let value' : (Str × ℕ) × ℕ = (key, fut) in
        let left : after lib t q (chosen t q c1) dest out s ≡ c' = ap (λ r. r.1) h in
        let ids : ok value ≡ ok value' = ap (λ r. r.0) h in
        let same : value ≡ value' = cc ids in
        let entry : Queued c (after lib t q (chosen t q c1) dest out s) t dest q value.0.1 value.1 =
          Queued-of c1 s out e1 e2 in
        (
          sym (ap (λ (v : (Str × ℕ) × ℕ). v.0.0) same),
          subst (λ (v : (Str × ℕ) × ℕ). Queued c c' t dest q v.0.1 v.1) same
              (subst (λ c'. Queued c c' t dest q value.0.1 value.1) left entry),
        )

    -- A message without a number of its own is queued under one that is above those of its queue. The
    -- entry is for the peer that is named and not sent yet, with a new future, pending, which is
    -- returned with the queue and the number. Every other message stays as it was.
    pub ordered_ack_send-Queued :
        ordered_ack_send lib msg dest q t none c ≡ (ok (key, fut), c')
        → (key.0 ≡ q) × Queued c c' t dest q key.1 fut
    unfolding Outcome
    ordered_ack_send-Queued h = elim (Bool-cases ((length q == 64) && (length dest == 66))) [
      | inr bad ↦ absurd (cc (h, refused bad))
      | inl fits ↦
          let (c1, noted, e1) = note_sent-queues t msg c in
          let out = pack_packet lib (new_packet q (chosen t q c1) t msg) (ready t q c1) in
          let e2 : queues_and_futures out.1 ≡ queues_and_futures (ready t q c1) =
            (pack_packet-Leaves (new_packet q (chosen t q c1) t msg)).at (ready t q c1) in
          packed-Outcome c1 out.1 out.0 e1 e2 (
            sym (
              run_of c1 out.1 out.0 (ground arith) (ground arith) noted refl
                (unused_of c1 out.1 (ap (λ r. r.0) e2)))
            ∙ h)
    ]
