-- ===== src/AppPacket/RoundTrip.antt =====
-- What `pack` writes, `unpack` reads, and the two variants of each agree.
use sidewire.Prelude.{
  ℕ, ◌+◌, ◌≤◌, ◌≡◌, refl, sym, subst, ap, ◌∙◌, false, some, [], ◌++◌, append_assoc, if◌then◌else◌,
  ltb, length, length-append, take, drop, slice, take-append_at, drop-append_at, slice-append_at,
  inl, inr, arith,
}
use sidewire.Prelude.Results.{Result, ok, raised, Result-cases}
use sidewire.Aionetiface.{Aionetiface, Bytes, bytes}
use sidewire.Wire.Struct.{pack as struct_pack, length-pack, unpack-pack}
use sidewire.AppPacket.{
  AppPacket, Inbound, KeyPair, to_int, stamp, truthy, signed_section, pack, msg_or_empty,
  parse_fields, unpack_by, unpack,
}

-- The fields of a signed section, cut out of it again.
module _ (q s t k m : Bytes) (hq : length q ≡ 32) (hs : length s ≡ 4) (ht : length t ≡ 8)
    (hk : length k ≡ 1) where
  abbrev section : Bytes
  section = q ++ (s ++ (t ++ (k ++ m)))

  length-section : length section ≡ 45 + length m
  length-section = omega (
    arith,
    hq,
    hs,
    ht,
    hk,
    length-append q (s ++ (t ++ (k ++ m))),
    length-append s (t ++ (k ++ m)),
    length-append t (k ++ m),
    length-append k m,
  )

  queue_id_at : take 32 section ≡ q
  queue_id_at = take-append_at 32 q (s ++ (t ++ (k ++ m))) hq

  seq_no_at : slice 32 36 section ≡ s
  seq_no_at = slice-append_at 32 36 q s (t ++ (k ++ m)) hq (omega (arith, hs))

  timestamp_at : slice 36 44 section ≡ t
  timestamp_at = rw (← append_assoc q s (t ++ (k ++ m))) (
      slice-append_at 36 44 (q ++ s) t (k ++ m) (omega (arith, hq, hs, length-append q s))
        (omega (arith, ht)))

  front : length ((q ++ s) ++ t) ≡ 44
  front = omega (arith, hq, hs, ht, length-append q s, length-append (q ++ s) t)

  msg_type_at : slice 44 45 section ≡ k
  msg_type_at =
      rw (← append_assoc q s (t ++ (k ++ m)), ← append_assoc (q ++ s) t (k ++ m))
        (slice-append_at 44 45 ((q ++ s) ++ t) k m front (omega (arith, hk)))

  msg_at : drop 45 section ≡ m
  msg_at =
      rw
        (
          ← append_assoc q s (t ++ (k ++ m)),
          ← append_assoc (q ++ s) t (k ++ m),
          ← append_assoc ((q ++ s) ++ t) k m,
        )
        (drop-append_at 45 (((q ++ s) ++ t) ++ k) m
          (omega (arith, hk, front, length-append ((q ++ s) ++ t) k)))

-- The signing key, the signature, and the section, cut out of a payload again.
module _ (pk sig signed : Bytes) (hp : length pk ≡ 33) (hs : length sig ≡ 64) where
  sig_at : slice 33 97 (pk ++ (sig ++ signed)) ≡ sig
  sig_at = slice-append_at 33 97 pk sig signed hp (omega (arith, hs))

  signed_at : drop 97 (pk ++ (sig ++ signed)) ≡ signed
  signed_at =
      rw (← append_assoc pk sig signed)
        (drop-append_at 97 (pk ++ sig) signed (omega (arith, hp, hs, length-append pk sig)))

-- What a signed section is made of.
module _ (lib : Aionetiface) (kp : KeyPair) where
  pub signed_section_inv :
      (p : AppPacket) (time : ℕ) (msg_bytes signed : Bytes)
      → signed_section lib kp p time msg_bytes ≡ ok signed
      → (q : Bytes) × (s : Bytes) × (t : Bytes) × (k : Bytes) × (lib.h_to_b p.queue_id_hex ≡ ok q)
        × (struct_pack 4 p.seq_no ≡ ok s)
        × (struct_pack 8 time ≡ ok t)
        × (struct_pack 1 (to_int p.msg_type) ≡ ok k)
        × (signed ≡ q ++ (s ++ (t ++ (k ++ msg_bytes))))
  unfolding signed_section
  signed_section_inv p time msg_bytes signed h =
      go (lib.h_to_b p.queue_id_hex) (struct_pack 4 p.seq_no) (struct_pack 8 time)
        (struct_pack 1 (to_int p.msg_type)) refl refl refl refl
    where
      go :
          (rq rs rt rk : Result Bytes)
          → lib.h_to_b p.queue_id_hex ≡ rq
          → struct_pack 4 p.seq_no ≡ rs
          → struct_pack 8 time ≡ rt
          → struct_pack 1 (to_int p.msg_type) ≡ rk
          → (q : Bytes) × (s : Bytes) × (t : Bytes) × (k : Bytes) × (lib.h_to_b p.queue_id_hex
              ≡ ok q)
            × (struct_pack 4 p.seq_no ≡ ok s)
            × (struct_pack 8 time ≡ ok t)
            × (struct_pack 1 (to_int p.msg_type) ≡ ok k)
            × (signed ≡ q ++ (s ++ (t ++ (k ++ msg_bytes))))
      go (ok q) (ok s) (ok t) (ok k) eq es et ek = (q, s, t, k, eq, es, et, ek, ground arith)
      go (raised x) _ _ _ eq es et ek = absurd (ground arith)
      go (ok q) (raised x) _ _ eq es et ek = absurd (ground arith)
      go (ok q) (ok s) (raised x) _ eq es et ek = absurd (ground arith)
      go (ok q) (ok s) (ok t) (raised x) eq es et ek = absurd (ground arith)

module _ (lib : Aionetiface) (kp : KeyPair) where
  -- What the receiver makes of a packet, given its public key, signature and fields.
  abbrev pub arrived : AppPacket → ℕ → Bytes → Bytes → Bytes → Inbound
  arrived p time sig q msg_bytes = record {
    src_pk_hex = lib.to_h kp.compact_public_key;
    sig_hex = lib.to_h sig;
    queue_id_hex = lib.to_h q;
    seq_no = p.seq_no;
    timestamp = time;
    msg_type = to_int p.msg_type;
    msg = lib.to_s (bytes msg_bytes);
  }

  parse_fields_lem :
      (p : AppPacket) (time : ℕ) (sig q msg_bytes signed : Bytes)
      → length kp.compact_public_key ≡ 33
      → length sig ≡ 64
      → length q ≡ 32
      → lib.h_to_b p.queue_id_hex ≡ ok q
      → signed_section lib kp p time msg_bytes ≡ ok signed
      → (parse_fields lib (kp.compact_public_key ++ (sig ++ signed))
          ≡ ok (arrived p time sig q msg_bytes))
        × (142 ≤ length (kp.compact_public_key ++ (sig ++ signed)))
  unfolding parse_fields
  parse_fields_lem p time sig q msg_bytes signed hp hg hq eq h =
      let (q', s, t, k, eq', es, et, ek, e) = signed_section_inv lib kp p time msg_bytes signed h in
      let same : q' ≡ q = cc in
      let hq' : length q' ≡ 32 = ap length same ∙ hq in
      let hs = length-pack 4 p.seq_no s es in
      let ht = length-pack 8 time t et in
      let hk = length-pack 1 (to_int p.msg_type) k ek in
      let pk : Bytes = kp.compact_public_key in
      (
        rw (
          signed_at pk sig signed hp hg,
          sig_at pk sig signed hp hg,
          take-append_at 33 pk (sig ++ signed) hp,
          e,
          queue_id_at q' s t k msg_bytes hq' hs ht hk,
          seq_no_at q' s t k msg_bytes hq' hs ht hk,
          timestamp_at q' s t k msg_bytes hq' hs ht hk,
          msg_type_at q' s t k msg_bytes hq' hs ht hk,
          msg_at q' s t k msg_bytes hq' hs ht hk,
          unpack-pack 4 p.seq_no s es,
          unpack-pack 8 time t et,
          unpack-pack 1 (to_int p.msg_type) k ek,
          same,
        ),
        omega (
          arith,
          hp,
          hg,
          length-append pk (sig ++ signed),
          length-append sig signed,
          ap length e,
          length-section q' s t k msg_bytes hq' hs ht hk,
        ),
      )

  abbrev pub bytes_of_msg : AppPacket → Bytes
  bytes_of_msg p = if truthy p.msg then msg_or_empty lib kp p.msg else []

  pub pack_inv :
      (p p' : AppPacket) (now : ℕ) (out : Bytes)
      → pack lib kp p now ≡ ok (p', out)
      → (signed : Bytes) × (signed_section lib kp p (stamp p.timestamp now) (bytes_of_msg p)
          ≡ ok signed)
        × (out ≡ kp.compact_public_key ++ (lib.sign kp.private_key signed ++ signed))
        × (p'.src_pk_hex ≡ some (lib.to_h kp.compact_public_key))
        × (p'.sig_hex ≡ some (lib.to_h (lib.sign kp.private_key signed)))
        × (p'.timestamp ≡ some (stamp p.timestamp now))
  unfolding pack
  pack_inv p p' now out h =
      elim (Result-cases (signed_section lib kp p (stamp p.timestamp now) (bytes_of_msg p))) [
        | inl (x, e) ↦ absurd (ground arith)
        | inr (signed, e) ↦ (signed, e, ground arith, ground arith, ground arith, ground arith)
      ]

-- What the packets rely on in the key pair: a public key of 33 bytes, signatures of 64 bytes, and
-- that the public key verifies what the private key signed.
pub record IsKeyPair (lib : Aionetiface) (kp : KeyPair) : Type 0 where
  pub key_length : length kp.compact_public_key ≡ 33
  pub sig_length : (m : Bytes) → length (lib.sign kp.private_key m) ≡ 64
  pub verifies :
      (m : Bytes) → lib.verify kp.compact_public_key (lib.sign kp.private_key m) m ≡ ok tt

long_enough : (n : ℕ) → 142 ≤ n → ltb n 142 ≡ false
long_enough n h = ground arith

pub unpack_by_accepts :
    (lib : Aionetiface) (verifier : Bytes → Bytes → Bytes → Result (Unit {0})) (payload : Bytes)
    (i : Inbound)
    → 142 ≤ length payload
    → verifier (take 33 payload) (slice 33 97 payload) (drop 97 payload) ≡ ok tt
    → parse_fields lib payload ≡ ok i
    → unpack_by lib verifier (bytes payload) ≡ ok (some i)
unfolding unpack_by
unpack_by_accepts lib verifier payload i long ok_sig fields =
    rw (long_enough (length payload) long, ok_sig, fields)

-- Whatever `pack` returns, `unpack` accepts. It gives the source key, the signature and the timestamp
-- that `pack` left in the packet, the packet's number and type, the hex of the 32 bytes that its queue
-- stands for, and its message as the conversions carry it. The key pair must be sound, and the hex of
-- the queue must stand for 32 bytes.
pub unpack-pack_lem :
    (lib : Aionetiface) (kp : KeyPair) (p p' : AppPacket) (now : ℕ) (q out : Bytes)
    → IsKeyPair lib kp
    → lib.h_to_b p.queue_id_hex ≡ ok q
    → length q ≡ 32
    → pack lib kp p now ≡ ok (p', out)
    → (i : Inbound) × (unpack lib (bytes out) ≡ ok (some i))
      × (p'.src_pk_hex ≡ some i.src_pk_hex)
      × (p'.sig_hex ≡ some i.sig_hex)
      × (p'.timestamp ≡ some i.timestamp)
      × (i.queue_id_hex ≡ lib.to_h q)
      × (i.seq_no ≡ p.seq_no)
      × (i.msg_type ≡ to_int p.msg_type)
      × (i.msg ≡ lib.to_s (bytes (bytes_of_msg lib kp p)))
unfolding unpack
unpack-pack_lem lib kp p p' now q out key eq hq h =
    let (signed, es, e, e_key, e_sig, e_time) = pack_inv lib kp p p' now out h in
    let sig : Bytes = lib.sign kp.private_key signed in
    let pk : Bytes = kp.compact_public_key in
    let time : ℕ = stamp p.timestamp now in
    let hg = key.sig_length signed in
    let (fields, long) =
      parse_fields_lem lib kp p time sig q (bytes_of_msg lib kp p) signed key.key_length hg hq eq
        es in
    let verified : lib.verify (take 33 (pk ++ (sig ++ signed)))
          (slice 33 97 (pk ++ (sig ++ signed))) (drop 97 (pk ++ (sig ++ signed)))
        ≡ ok tt =
      rw
        (
          take-append_at 33 pk (sig ++ signed) key.key_length,
          sig_at pk sig signed key.key_length hg,
          signed_at pk sig signed key.key_length hg,
        )
        (key.verifies signed) in
    let accepted =
      unpack_by_accepts lib lib.verify (pk ++ (sig ++ signed))
        (arrived lib kp p time sig q (bytes_of_msg lib kp p)) long verified fields in
    (
      arrived lib kp p time sig q (bytes_of_msg lib kp p),
      subst
          (λ (b : Bytes).
            unpack_by lib lib.verify (bytes b)
            ≡ ok (some (arrived lib kp p time sig q (bytes_of_msg lib kp p))))
          (sym e) accepted,
      e_key,
      e_sig,
      e_time,
      refl,
      refl,
      refl,
      refl,
    )
