-- ===== src/Proto/Publish.antt =====
-- handle_publish: only a payload that is for this client and signed has an effect.
use sidewire.Prelude.{
  ℕ, ◌≡◌, refl, ap, subst, [], ◌∷◌, ◌∙◌, ◌⊎◌, inl, inr, Option, none, some, ltb, length, bytes_eq,
  bytes_eq_iff, Bool-cases, arith,
}
use sidewire.Prelude.Results.{Result, ok, raised, Result-cases}
use sidewire.Prelude.Action.{continue, ◌>>=◌}
use sidewire.Prelude.Frame.{Leaves, Leaves-pure}
use sidewire.Aionetiface.{Aionetiface, Bytes, Str, bytes}
use sidewire.Wire.Packet.{MqttPacket, mqtt_parse_publish}
use sidewire.AppPacket.{KeyPair, Inbound, min_packet_len, is_refusal, unpack_by, unpack_async}
use sidewire.AppPacket.Authentic.{key_part, sig_part, signed_part}
use sidewire.Client.{Client, Future, Queues, pipe_send}
use sidewire.Proto.{authenticate, acknowledge, handle_publish}
use sidewire.Proto.Inbox.{Received, inbox, inbox_and_queues}

-- The parts of the state that belong to the application, and the keys.
unfoldable pub app_state : Client → (Received × Queues) × (ℕ → Future) × KeyPair
unfolding inbox_and_queues
app_state c = (inbox_and_queues c, c.futures, c.kp)

same_kp : (s c : Client) → app_state s ≡ app_state c → s.kp ≡ c.kp
unfolding app_state
same_kp s c e = ap (λ (x : (Received × Queues) × (ℕ → Future) × KeyPair). x.2) e

module _ (lib : Aionetiface) (fresh : Bytes) where
  -- The topic is the hex of the client's key, and the payload is signed by the key that it names.
  pub record Verified (own : Bytes) (topic : Str) (payload : Bytes) : Type 0 where
    pub addressed : lib.h_to_b topic ≡ ok own
    pub verified :
        lib.verify_async (key_part payload) (sig_part payload) (signed_part payload) ≡ ok tt

  verified_of_unpack :
      (payload : Bytes) (p : Inbound)
      → unpack_async lib (bytes payload) ≡ ok (some p)
      → lib.verify_async (key_part payload) (sig_part payload) (signed_part payload) ≡ ok tt
  unfolding unpack_async unpack_by
  verified_of_unpack payload p h = elim (Bool-cases (ltb (length payload) min_packet_len)) [
    | inl short ↦
        let refused : unpack_async lib (bytes payload) ≡ ok none = rw short refl in
        absurd (cc (h, refused))
    | inr long ↦
        elim (Result-cases
          (lib.verify_async (key_part payload) (sig_part payload) (signed_part payload))) [
            | inr (u, e) ↦ e
            | inl (x, e) ↦ elim (Bool-cases (is_refusal x)) [
              | inl caught ↦
                  let refused : unpack_async lib (bytes payload) ≡ ok none =
                    rw (long, e) (rw caught refl) in
                  absurd (cc (h, refused))
              | inr escapes ↦
                  let refused : unpack_async lib (bytes payload) ≡ raised x =
                    rw (long, e) (rw escapes refl) in
                  absurd (cc (h, refused))
            ]
          ]
  ]

  authenticate_cases :
      (topic : Str) (payload : Bytes) (c : Client)
      → (app_state (authenticate lib fresh topic payload c).1 ≡ app_state c)
        ⊎ Verified c.kp.compact_public_key topic payload
  unfolding authenticate ◌>>=◌
  authenticate_cases topic payload c = elim (Result-cases (lib.h_to_b topic)) [
    | inl (x, e) ↦ inl (rw e refl)
    | inr (key, e) ↦ elim (Bool-cases (bytes_eq key c.kp.compact_public_key)) [
      | inr other ↦ inl (rw e (rw other refl))
      | inl own ↦
          let same : key ≡ c.kp.compact_public_key =
            (bytes_eq_iff key c.kp.compact_public_key).0 own in
          elim (Result-cases (unpack_async lib (bytes payload))) [
            | inl (x, u) ↦ inl (rw e (rw (own, u) refl))
            | inr (none, u) ↦ inl (rw e (rw (own, u) refl))
            | inr (some p, u) ↦
                inr
                  (record { addressed = e ∙ ap ok same; verified = verified_of_unpack payload p u })
          ]
    ]
  ]

  acknowledge-Leaves : (pid : Option Bytes) → Leaves app_state (acknowledge lib fresh pid)
  unfolding acknowledge pipe_send app_state inbox_and_queues inbox
  acknowledge-Leaves none = Leaves-pure tt
  acknowledge-Leaves (some []) = Leaves-pure tt
  acknowledge-Leaves (some (b ∷ bs)) = record { at = λ s. ground arith }

  authenticate_after :
      (topic : Str) (payload : Bytes) (c : Client) (r : Result (Unit {0}) × Client)
      → app_state r.1 ≡ app_state c
      → (app_state (continue r (λ u. authenticate lib fresh topic payload)).1 ≡ app_state c)
        ⊎ Verified c.kp.compact_public_key topic payload
  authenticate_after topic payload c (raised x, s) e = inl e
  authenticate_after topic payload c (ok u, s) e = elim (authenticate_cases topic payload s) [
    | inl same ↦ inl (same ∙ e)
    | inr v ↦
        inr (subst (λ (k : KeyPair). Verified k.compact_public_key topic payload) (same_kp s c e) v)
  ]

  -- What a PUBLISH that changes the application's state is.
  pub record Authentic (own : Bytes) (packet : MqttPacket) : Type 0 where
    pub topic : Str
    pub payload : Bytes
    pub packet_id : Option Bytes
    pub parsed : mqtt_parse_publish lib packet ≡ ok (some (topic, payload, packet_id))
    pub by : Verified own topic payload

  -- A PUBLISH changes nothing of the application's state (the messages delivered, the handlers, the
  -- hashes of received messages, the queues, the futures, the keys), unless its topic is the hex of
  -- the client's key and its payload is signed by the key that it names.
  pub handle_publish-Authentic :
      (packet : MqttPacket) (c : Client)
      → (app_state (handle_publish lib fresh packet c).1 ≡ app_state c)
        ⊎ Authentic c.kp.compact_public_key packet
  unfolding handle_publish ◌>>=◌
  handle_publish-Authentic packet c = elim (Result-cases (mqtt_parse_publish lib packet)) [
    | inl (x, e) ↦ inl (rw e refl)
    | inr (none, e) ↦ inl (rw e refl)
    | inr (some (topic, payload, pid), e) ↦
        elim (authenticate_after topic payload c (acknowledge lib fresh pid c)
          ((acknowledge-Leaves pid).at c)) [
            | inl same ↦ inl (rw e same)
            | inr v ↦
                inr
                  (record { topic = topic; payload = payload; packet_id = pid; parsed = e; by = v })
          ]
  ]
