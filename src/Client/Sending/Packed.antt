-- ===== src/Client/Sending/Packed.antt =====
-- ordered_ack_send: the bytes of the entry that is queued are the packed and signed message.
use sidewire.Prelude.{
  ℕ, ◌≤◌, ◌+◌, ◌≡◌, refl, sym, ap, subst, ◌∙◌, inl, inr, false, ◌&&◌, none, some, bytes_eq_iff,
  Bool-cases, length, ◌==◌, text_eq, nat_eq, arith,
}
use sidewire.Prelude.Results.{Result, ok, raised, Result-cases}
use sidewire.Prelude.Action.{◌>>=◌}
use sidewire.Aionetiface.{Aionetiface, Bytes, Str, Text}
use sidewire.AppPacket.{MsgEnum, AppPacket, KeyPair, pack}
use sidewire.Client.{Client, Meta, find_meta, get_time, put_sub, seconds}
use sidewire.Client.Lookup.{same_type_refl}
use sidewire.Client.Sending.{
  ensure_queue, new_meta, new_packet, pack_packet, note_sent, ordered_ack_send,
}
use sidewire.Client.Sending.Queueing.{find_meta-after, after, kp-after}
use sidewire.Client.Sending.Ordered.{
  note_sent-queues, pack_packet-Leaves, ready, chosen, run_of, unused_of, refused,
  queues_and_futures,
}

module _ (lib : Aionetiface) where
  -- The entry holds what `pack` returned for the message, with the keys of the client and a time that
  -- its clock gave after the call.
  pub record Packed (c c' : Client) (m : Text) (t : MsgEnum) (dest q : Str) (n fut : ℕ)
      : Type 0 where
    pub entry : Meta
    pub stored : find_meta t q n c'.msg_queues ≡ some entry
    pub addressee : entry.dest_pk_hex ≡ dest
    pub reference : entry.app_ack ≡ fut
    pub tick : ℕ
    pub later : c.ticks ≤ tick
    pub packet : AppPacket
    pub packed :
        pack lib c.kp (new_packet q n t m) (seconds (lib.clock tick)) ≡ ok (packet, entry.out)
    pub same_keys : c'.kp ≡ c.kp

  -- The keys, and how often the clock was read.
  abbrev keys_and_ticks : Client → KeyPair × ℕ
  keys_and_ticks c = (c.kp, c.ticks)

  ready-keys :
      (t : MsgEnum) (q : Str) (c : Client) → keys_and_ticks (ensure_queue t q c) ≡ keys_and_ticks c
  unfolding ensure_queue put_sub
  ready-keys t q c = ground arith

  note_sent-keys :
      (t : MsgEnum) (m : Text) (c : Client)
      → ((note_sent lib t m c).1.kp ≡ c.kp) × (c.ticks ≤ (note_sent lib t m c).1.ticks)
  unfolding note_sent ◌>>=◌ get_time
  note_sent-keys MsgEnum.msg m c = (ground arith, ground arith)
  note_sent-keys MsgEnum.msgack m c = (refl, omega arith)
  note_sent-keys MsgEnum.probe m c = (refl, omega arith)

  -- What pack_packet returned was packed now.
  pack_packet_inv :
      (p : AppPacket) (s s' : Client) (out : Bytes)
      → pack_packet lib p s ≡ (ok out, s')
      → (p' : AppPacket) × (pack lib s.kp p (seconds (lib.clock s.ticks)) ≡ ok (p', out))
        × (s'.kp ≡ s.kp)
  unfolding pack_packet ◌>>=◌ get_time
  pack_packet_inv p s s' out h =
      elim (Result-cases (pack lib s.kp p (seconds (lib.clock s.ticks)))) [
        | inl (x, e) ↦
            let run : pack_packet lib p s ≡ (raised x, record s { ticks = s.ticks + 1 }) =
              rw e refl in
            absurd (cc (h, run))
        | inr ((p', out'), e) ↦
            let run : pack_packet lib p s ≡ (ok out', record s { ticks = s.ticks + 1 }) =
              rw e refl in
            let both : (ok out', record s { ticks = s.ticks + 1 }) ≡ (ok out, s') = sym run ∙ h in
            let left : record s { ticks = s.ticks + 1 } ≡ s' =
              ap (λ (r : Result Bytes × Client). r.1) both in
            let value : ok out' ≡ ok out = ap (λ (r : Result Bytes × Client). r.0) both in
            let same : out' ≡ out = cc value in
            (
              p',
              subst (λ o. pack lib s.kp p (seconds (lib.clock s.ticks)) ≡ ok (p', o)) same e,
              sym (ap (λ (c : Client). c.kp) left),
            )
      ]

  module _ (msg : Text) (dest q : Str) (t : MsgEnum) (c c' : Client) (key : Str × ℕ) (fut : ℕ) where
    Outcome : Result ((Str × ℕ) × ℕ) × Client → Type 0
    Outcome r = r ≡ (ok (key, fut), c') → Packed c c' msg t dest q key.1 fut

    Packed-of :
        (c1 s : Client) (out : Bytes) (p' : AppPacket)
        → c1.kp ≡ c.kp
        → c.ticks ≤ c1.ticks
        → s.kp ≡ (ready lib t q c1).kp
        → pack lib
            (ready lib t q c1).kp
            (new_packet q (chosen lib t q c1) t msg)
            (seconds (lib.clock (ready lib t q c1).ticks))
          ≡ ok (p', out)
        → Packed c
            (after lib t q (chosen lib t q c1) dest out s)
            msg
            t
            dest
            q
            (chosen lib t q c1)
            s.next_future
    Packed-of c1 s out p' keys later keys' packed =
        let same : (ready lib t q c1).kp ≡ c1.kp =
          ap (λ (r : KeyPair × ℕ). r.0) (ready-keys t q c1) in
        let ticks : (ready lib t q c1).ticks ≡ c1.ticks =
          ap (λ (r : KeyPair × ℕ). r.1) (ready-keys t q c1) in
        record {
          entry = new_meta s.next_future dest (chosen lib t q c1) out (lib.clock s.ticks) false;
          stored =
              find_meta-after lib t t q q (chosen lib t q c1) (chosen lib t q c1) dest out s
              ∙ ground (arith, same_type_refl t, bytes_eq_iff q q);
          addressee = refl;
          reference = refl;
          tick = (ready lib t q c1).ticks;
          later = omega (arith, later, ticks);
          packet = p';
          packed =
              subst
                (λ (k : KeyPair).
                  pack lib k (new_packet q (chosen lib t q c1) t msg)
                    (seconds (lib.clock (ready lib t q c1).ticks))
                  ≡ ok (p', out))
                (same ∙ keys) packed;
          same_keys = kp-after lib t q (chosen lib t q c1) dest out s ∙ keys' ∙ same ∙ keys;
        }

    packed-Outcome :
        (c1 s : Client) (r : Result Bytes)
        → c1.kp ≡ c.kp
        → c.ticks ≤ c1.ticks
        → pack_packet lib (new_packet q (chosen lib t q c1) t msg) (ready lib t q c1) ≡ (r, s)
        → Outcome (elim r as (λ _. Result ((Str × ℕ) × ℕ) × Client) [
          | raised x ↦ (raised x, s)
          | ok out ↦ (
            ok ((q, chosen lib t q c1), s.next_future),
            after lib t q (chosen lib t q c1) dest out s,
          )
        ])
    unfolding Outcome
    packed-Outcome c1 s (raised x) keys later e h = absurd (cc h)
    packed-Outcome c1 s (ok out) keys later e h =
        let value : (Str × ℕ) × ℕ = ((q, chosen lib t q c1), s.next_future) in
        let value' : (Str × ℕ) × ℕ = (key, fut) in
        let left : after lib t q (chosen lib t q c1) dest out s ≡ c' = ap (λ r. r.1) h in
        let ids : ok value ≡ ok value' = ap (λ r. r.0) h in
        let same : value ≡ value' = cc ids in
        let (p', packed, keys') =
          pack_packet_inv (new_packet q (chosen lib t q c1) t msg) (ready lib t q c1) s out e in
        let result = Packed-of c1 s out p' keys later keys' packed in
        subst (λ (v : (Str × ℕ) × ℕ). Packed c c' msg t dest q v.0.1 v.1) same
          (subst (λ c'. Packed c c' msg t dest q value.0.1 value.1) left result)

    -- What ordered_ack_send queues for a message without a number of its own is the signed packet of
    -- that message, with the number that is returned, made with the keys of the client and a time that
    -- its clock gave after the call.
    pub ordered_ack_send-Packed :
        ordered_ack_send lib msg dest q t none c ≡ (ok (key, fut), c')
        → Packed c c' msg t dest q key.1 fut
    unfolding Outcome
    ordered_ack_send-Packed h = elim (Bool-cases ((length q == 64) && (length dest == 66))) [
      | inr bad ↦ absurd (cc (h, refused lib msg dest q t c c' key fut bad))
      | inl fits ↦
          let (c1, noted, e1) = note_sent-queues lib t msg c in
          let here : (note_sent lib t msg c).1 ≡ c1 =
            ap (λ (r : Result (Unit {0}) × Client). r.1) noted in
          let (keys0, later0) = note_sent-keys t msg c in
          let keys : c1.kp ≡ c.kp = subst (λ (s : Client). s.kp ≡ c.kp) here keys0 in
          let later : c.ticks ≤ c1.ticks = subst (λ (s : Client). c.ticks ≤ s.ticks) here later0 in
          let out = pack_packet lib (new_packet q (chosen lib t q c1) t msg) (ready lib t q c1) in
          let e2 : queues_and_futures out.1 ≡ queues_and_futures (ready lib t q c1) =
            (pack_packet-Leaves lib (new_packet q (chosen lib t q c1) t msg)).at
              (ready lib t q c1) in
          packed-Outcome c1 out.1 out.0 keys later refl (
            sym (
              run_of lib msg dest q t c c' key fut c1 out.1 out.0 (ground arith) (ground arith)
                noted refl (unused_of lib msg dest q t c c' key fut c1 out.1 (ap (λ r. r.0) e2)))
            ∙ h)
    ]
