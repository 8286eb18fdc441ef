-- ===== src/Dispatch/Republish.antt =====
-- republish_meta: when a message is sent again, and what is noted of it.
use sidewire.Prelude.{
  ℕ, ◌+◌, ◌*◌, ◌<◌, ◌≡◌, refl, ap, ◌∙◌, ◌⊎◌, inl, inr, Bool, true, false, ◌&&◌, some, ◌==◌,
  bytes_eq, bytes_eq_iff, Bool-cases, Option-cases, text_eq, nat_eq, arith,
}
use sidewire.Prelude.Action.{◌>>=◌}
use sidewire.Prelude.Frame.{Leaves, Leaves-pure, Leaves-bind}
use sidewire.Aionetiface.{Aionetiface, Bytes, Str, bytes}
use sidewire.AppPacket.{MsgEnum}
use sidewire.Client.{Client, Meta, Queues, done, find_meta, pipe_send, async_wrap_errors, second}
use sidewire.Client.Lookup.{same_type, same_type-eq}
use sidewire.Client.Sending.{put_meta}
use sidewire.Client.Sending.Queueing.{find_meta-put_meta}
use sidewire.Dispatch.{backoff, is_due, safe_pipe_send, send_again, republish_meta}
use sidewire.Proto.Inbox.{Received, inbox, inbox_and_queues, publish-Leaves}

-- A message that the dispatcher may send again at the time `now`.
pub record Retransmits (m : Meta) (now duration : ℕ) (ignore_acked acked : Bool) : Type 0 where
  pub many : m.probe_one_shot ≡ false
  pub unacknowledged : ignore_acked && acked ≡ false
  pub alive : now < m.created + duration * second

is_due-Retransmits :
    (m : Meta) (now duration jitter : ℕ) (ignore_acked acked : Bool)
    → is_due m now duration ignore_acked acked jitter ≡ true
    → Retransmits m now duration ignore_acked acked
unfolding is_due
is_due-Retransmits m now duration jitter ignore_acked acked h = record {
  many = ground arith;
  unacknowledged = ground arith;
  alive = ground arith;
}

-- The message as it is noted when it is sent at the time `now`.
abbrev sent_again : ℕ → Meta → Meta
sent_again now m = record m { updated = now; attempts = m.attempts + 1 }

-- The message `k` of queue `r` was sent again at the time `now`.
pub record Resent (c c' : Client) (u : MsgEnum) (r : Str) (k now duration : ℕ) (ignore_acked : Bool)
    : Type 0 where
  pub entry : Meta
  pub was : find_meta u r k c.msg_queues ≡ some entry
  pub may : Retransmits entry now duration ignore_acked (done (c.futures entry.app_ack))
  pub becomes : find_meta u r k c'.msg_queues ≡ some (sent_again now entry)

module _ (lib : Aionetiface) (uniform : ℕ → ℕ) where
  safe_pipe_send-Leaves : (buf : Bytes) → Leaves inbox_and_queues (safe_pipe_send lib buf)
  unfolding safe_pipe_send ◌>>=◌ async_wrap_errors pipe_send inbox inbox_and_queues
  safe_pipe_send-Leaves buf = record { at = λ s. ground arith }

  send_again-queues :
      (t : MsgEnum) (q : Str) (n now : ℕ) (m : Meta) (c : Client)
      → (send_again lib (t, q, n) m now c).1.msg_queues
        ≡ (put_meta t q n (sent_again now m) c).msg_queues
  unfolding send_again ◌>>=◌ inbox_and_queues
  send_again-queues t q n now m c =
      ap (λ (r : Received × Queues). r.1)
        ((Leaves-bind _ _ (publish-Leaves lib m.dest_pk_hex (bytes m.out))
            λ r. Leaves-bind _ _ (safe_pipe_send-Leaves r.0) λ s. Leaves-pure tt).at
          (put_meta t q n (sent_again now m) c))

  find_meta-send_again :
      (t : MsgEnum) (q : Str) (n now duration : ℕ) (ignore_acked : Bool) (m : Meta) (c : Client)
      → find_meta t q n c.msg_queues ≡ some m
      → Retransmits m now duration ignore_acked (done (c.futures m.app_ack))
      → (u : MsgEnum) (r : Str) (k : ℕ)
      → let c' : Client = (send_again lib (t, q, n) m now c).1 in
        (find_meta u r k c'.msg_queues ≡ find_meta u r k c.msg_queues)
        ⊎ Resent c c' u r k now duration ignore_acked
  find_meta-send_again t q n now duration ignore_acked m c e may u r k =
      let m' : Meta = sent_again now m in
      let left : find_meta u r k (send_again lib (t, q, n) m now c).1.msg_queues
          ≡ find_meta u r k (put_meta t q n m' c).msg_queues =
        ap (find_meta u r k) (send_again-queues t q n now m c) in
      elim (Bool-cases (same_type t u && bytes_eq q r)) [
        | inr miss ↦ inl (left ∙ find_meta-put_meta t u q r n k m' c ∙ rw miss)
        | inl hit ↦
            let b : bytes_eq q r ≡ true = ground arith in
            let s : same_type t u ≡ true = ground arith in
            let et : t ≡ u = same_type-eq t u s in
            let eq : q ≡ r = (bytes_eq_iff q r).0 b in
            elim (Bool-cases (n == k)) [
              | inr other ↦
                  inl (left ∙ find_meta-put_meta t u q r n k m' c ∙ rw (hit, other) (cc (et, eq)))
              | inl same ↦
                  let en : n ≡ k = ground arith in
                  inr (record {
                    entry = m;
                    was = cc (e, et, eq, en);
                    may = may;
                    becomes = left ∙ find_meta-put_meta t u q r n k m' c ∙ rw (hit, same);
                  })
            ]
      ]

  -- republish_meta changes no entry of any queue, but that it notes the time and one more attempt of
  -- a message that may be sent again: not one-shot, not acknowledged where that counts, its time not
  -- over.
  pub find_meta-republish_meta :
      (t : MsgEnum) (q : Str) (n now interval duration : ℕ) (ignore_acked : Bool) (c : Client)
      (u : MsgEnum) (r : Str) (k : ℕ)
      → let c' : Client =
          (republish_meta lib uniform (t, q, n) now interval duration ignore_acked c).1 in
        (find_meta u r k c'.msg_queues ≡ find_meta u r k c.msg_queues)
        ⊎ Resent c c' u r k now duration ignore_acked
  unfolding republish_meta
  find_meta-republish_meta t q n now interval duration ignore_acked c u r k =
      elim (Option-cases (find_meta t q n c.msg_queues)) [
        | inl e ↦ rw (e, republish_meta) (inl refl)
        | inr (m, e) ↦
            let jitter : ℕ = uniform (backoff interval m.attempts duration) in
            let acked : Bool = done (c.futures m.app_ack) in
            elim (Bool-cases (is_due m now duration ignore_acked acked jitter)) [
              | inr not_due ↦ rw (e, republish_meta) (rw not_due (inl refl))
              | inl due ↦
                  rw (e, republish_meta)
                    (rw due (
                      find_meta-send_again t q n now duration ignore_acked m c e
                        (is_due-Retransmits m now duration jitter ignore_acked acked due) u r k))
            ]
      ]
