-- ===== src/AppPacket/Authentic.antt =====
-- What `unpack` accepts, refuses and raises, and how pack_async differs from `pack`.
use sidewire.Prelude.{
  ℕ, ◌≤◌, ◌<◌, ◌≡◌, ◌≢◌, refl, ◌⊎◌, inl, inr, Option, none, some, [], ◌∷◌, if◌then◌else◌, ltb, ◌==◌,
  length, length-take, length-drop, take, drop, slice, Bool-cases, arith,
}
use sidewire.Prelude.Results.{
  Exn, bad_signature_error, malformed_point_error, value_error, ok, raised, Result-cases, map_ok,
}
use sidewire.Aionetiface.{Aionetiface, Bytes, Text, str, bytes}
use sidewire.Wire.Struct.{unpack as struct_unpack, unpack_total}
use sidewire.AppPacket.{
  AppPacket, Inbound, KeyPair, is_refusal, parse_fields, unpack_by, unpack, stamp, truthy,
  msg_or_empty, msg_of, signed_section, pack, pack_async,
}

-- The sender's key, the signature and the signed section of a payload.
abbrev pub key_part : Bytes → Bytes
key_part payload = take 33 payload

abbrev pub sig_part : Bytes → Bytes
sig_part payload = slice 33 97 payload

abbrev pub signed_part : Bytes → Bytes
signed_part payload = drop 97 payload

module _ (lib : Aionetiface) where
  -- The fields are read from the key, the signature and the signed section.
  abbrev pub ReadFrom : Bytes → Inbound → Type 0
  ReadFrom payload i =
      (i.src_pk_hex ≡ lib.to_h (key_part payload))
      × (i.sig_hex ≡ lib.to_h (sig_part payload))
      × (struct_unpack 4 (slice 32 36 (signed_part payload)) ≡ ok i.seq_no)
      × (struct_unpack 8 (slice 36 44 (signed_part payload)) ≡ ok i.timestamp)
      × (struct_unpack 1 (slice 44 45 (signed_part payload)) ≡ ok i.msg_type)
      × (i.queue_id_hex ≡ lib.to_h (take 32 (signed_part payload)))
      × (i.msg ≡ lib.to_s (bytes (drop 45 (signed_part payload))))

  -- Of a payload that is long enough, the fields can always be read.
  parse_fields_total :
      (payload : Bytes)
      → 142 ≤ length payload
      → (i : Inbound) × (parse_fields lib payload ≡ ok i) × ReadFrom payload i
  unfolding parse_fields
  parse_fields_total payload h =
      let body : Bytes = signed_part payload in
      let size : 45 ≤ length body = omega (arith, length-drop 97 payload) in
      let (seq, es) =
        unpack_total 4 (slice 32 36 body)
          (omega (arith, length-take 4 (drop 32 body), length-drop 32 body)) in
      let (ts, et) =
        unpack_total 8 (slice 36 44 body)
          (omega (arith, length-take 8 (drop 36 body), length-drop 36 body)) in
      let (kind, ek) =
        unpack_total 1 (slice 44 45 body)
          (omega (arith, length-take 1 (drop 44 body), length-drop 44 body)) in
      let i : Inbound = record {
        src_pk_hex = lib.to_h (key_part payload);
        sig_hex = lib.to_h (sig_part payload);
        queue_id_hex = lib.to_h (take 32 body);
        seq_no = seq;
        timestamp = ts;
        msg_type = kind;
        msg = lib.to_s (bytes (drop 45 body));
      } in
      (i, rw (es, et, ek), (refl, refl, es, et, ek, refl, refl))

  -- BadSignatureError, MalformedPointError and ValueError mean None, another exception is passed on.
  abbrev pub OnRefusal : Bytes → Exn → Type 0
  OnRefusal payload x =
      (((x ≡ bad_signature_error) ⊎ (x ≡ malformed_point_error) ⊎ (x ≡ value_error))
        × (unpack lib (bytes payload) ≡ ok none))
      ⊎ ((x ≢ bad_signature_error)
          × (x ≢ malformed_point_error)
          × (x ≢ value_error)
          × (unpack lib (bytes payload) ≡ raised x))

  abbrev pub Verdict : Bytes → Type 0
  Verdict payload =
      ((length payload < 142) × (unpack lib (bytes payload) ≡ ok none))
      ⊎ ((142 ≤ length payload)
          × (x : Exn) × (lib.verify (key_part payload) (sig_part payload) (signed_part payload)
              ≡ raised x)
          × OnRefusal payload x)
      ⊎ ((142 ≤ length payload)
          × (lib.verify (key_part payload) (sig_part payload) (signed_part payload) ≡ ok tt)
          × (i : Inbound) × (unpack lib (bytes payload) ≡ ok (some i))
          × ReadFrom payload i)

  refusal_of :
      (payload : Bytes) (x : Exn)
      → unpack lib (bytes payload) ≡ (if is_refusal x then ok none else raised x)
      → OnRefusal payload x
  unfolding is_refusal
  refusal_of payload bad_signature_error e = inl (inl refl, e)
  refusal_of payload malformed_point_error e = inl (inr (inl refl), e)
  refusal_of payload value_error e = inl (inr (inr refl), e)
  refusal_of payload _ e = inr (λ h. cc h, λ h. cc h, λ h. cc h, e)

  -- `unpack` of bytes, on every payload: below 142 bytes it returns None. Otherwise the packet's own
  -- key is asked to verify its signature over the whole signed section. If that raises, the result is
  -- None for BadSignatureError, MalformedPointError and ValueError, and the exception for another one.
  -- If it does not, the result is a packet, whose fields are read from the key, the signature and the
  -- signed section.
  pub unpack_cases : (payload : Bytes) → Verdict payload
  unfolding unpack unpack_by
  unpack_cases payload = elim (Bool-cases (ltb (length payload) 142)) [
    | inl short ↦ inl (ground arith, rw short)
    | inr long ↦
        elim (Result-cases
          (lib.verify (key_part payload) (sig_part payload) (signed_part payload))) [
            | inl (x, e) ↦ inr (inl (ground arith, x, e, refusal_of payload x (rw (long, e) refl)))
            | inr (u, e) ↦
                let (i, fields, read) = parse_fields_total payload (ground arith) in
                inr (inr (ground arith, e, i, rw (long, e, fields), read))
          ]
  ]

-- The library with the signer of the executor in the place of the plain one. ECDSA draws a random
-- number for a signature, so nothing says that the two return the same bytes.
abbrev pub async_signer : Aionetiface → Aionetiface
async_signer lib = record lib { sign = lib.sign_async }

module _ (lib : Aionetiface) (empty_str : lib.to_b (str []) ≡ [])
    (empty_bytes : lib.to_b (bytes []) ≡ []) where
  signed_section-async :
      (kp : KeyPair) (p : AppPacket) (time : ℕ) (m : Bytes)
      → signed_section (async_signer lib) kp p time m ≡ signed_section lib kp p time m
  unfolding signed_section
  signed_section-async kp p time m = refl

  same_bytes :
      (kp : KeyPair) (m : Option Text)
      → lib.to_b (msg_of lib kp m) ≡ (if truthy m then msg_or_empty lib kp m else [])
  same_bytes kp none = empty_bytes
  same_bytes kp (some (str [])) = empty_str
  same_bytes kp (some (str (c ∷ s))) = refl
  same_bytes kp (some (bytes [])) = empty_bytes
  same_bytes kp (some (bytes (c ∷ s))) = refl

  -- pack_async returns the bytes that pack would return with the signer of the executor, or raises what
  -- pack would raise, whatever the message is: None, empty or not; the conversions of an empty str and
  -- of empty bytes are empty.
  pub pack_async-pack :
      (kp : KeyPair) (p : AppPacket) (now : ℕ)
      → map_ok (λ r. r.1) (pack_async lib kp p now)
        ≡ map_ok (λ r. r.1) (pack (async_signer lib) kp p now)
  unfolding pack pack_async
  pack_async-pack kp p now =
      let m : Bytes = if truthy p.msg then msg_or_empty lib kp p.msg else [] in
      elim (Bool-cases (length p.queue_id_hex == 64)) [
        | inr bad ↦ rw bad
        | inl good ↦ elim (Result-cases (signed_section lib kp p (stamp p.timestamp now) m)) [
          | inl (x, e) ↦
              rw (good, same_bytes kp p.msg, signed_section-async kp p (stamp p.timestamp now) m, e)
          | inr (signed, e) ↦
              rw (good, same_bytes kp p.msg, signed_section-async kp p (stamp p.timestamp now) m, e)
        ]
      ]
