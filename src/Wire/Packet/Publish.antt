-- ===== src/Wire/Packet/Publish.antt =====
-- mqtt_parse_publish: what it reads, and which bodies it refuses.
use sidewire.Prelude.{
  ℕ, ◌+◌, ◌/◌, ◌≤◌, ◌<◌, bit_and, ◌≡◌, refl, ap, ◌∙◌, ◌⊎◌, inl, inr, false, Option, none, some,
  ◌++◌, append_assoc, if◌then◌else◌, ltb, Bool-cases, length, length-append, drop, slice,
  take-append_at, drop-append_at, slice-append_at, length-take, arith,
}
use sidewire.Prelude.Results.{ok, raised}
use sidewire.Aionetiface.{Aionetiface, Bytes, Str, bytes}
use sidewire.Wire.Struct.{pack, unpack, length-pack, unpack-pack, unpack_total}
use sidewire.Wire.Packet.{MqttPacket, mqtt_parse_publish}

-- (packet.flags >> 1) & 3
abbrev pub qos : MqttPacket → ℕ
qos packet = bit_and (packet.flags / 2) 0x03

module _ (lib : Aionetiface) where
  -- A body that is built from a length prefix, a topic, an identifier of two bytes and a payload.
  pub parse_publish-acked :
      (packet : MqttPacket) (prefix topic packet_id payload : Bytes)
      → packet.body ≡ prefix ++ (topic ++ (packet_id ++ payload))
      → pack 2 (length topic) ≡ ok prefix
      → length packet_id ≡ 2
      → 0 < qos packet
      → mqtt_parse_publish lib packet ≡ ok (some (lib.to_s (bytes topic), payload, some packet_id))
  unfolding mqtt_parse_publish
  parse_publish-acked packet prefix topic packet_id payload e hp hid hq =
      let body : Bytes = prefix ++ (topic ++ (packet_id ++ payload)) in
      let two = length-pack 2 (length topic) prefix hp in
      let n : ℕ = 2 + length topic in
      let front : length (prefix ++ topic) ≡ n = omega (arith, length-append prefix topic) in
      let id_at : slice n (n + 2) body ≡ packet_id =
        rw (← append_assoc prefix topic (packet_id ++ payload))
          (slice-append_at n (n + 2) (prefix ++ topic) packet_id payload front (omega arith)) in
      let payload_at : drop (n + 2) body ≡ payload =
        rw
          (
            ← append_assoc prefix topic (packet_id ++ payload),
            ← append_assoc (prefix ++ topic) packet_id payload,
          )
          (drop-append_at (n + 2) ((prefix ++ topic) ++ packet_id) payload
            (omega (arith, length-append (prefix ++ topic) packet_id))) in
      rw e (
        ground (
          arith,
          length-append prefix (topic ++ (packet_id ++ payload)),
          length-append topic (packet_id ++ payload),
          length-append packet_id payload,
          take-append_at 2 prefix (topic ++ (packet_id ++ payload)) two,
          unpack-pack 2 (length topic) prefix hp,
          slice-append_at 2 n prefix topic (packet_id ++ payload) two refl,
          id_at,
          payload_at,
        ))

  -- A body of QoS 0, which has no identifier.
  pub parse_publish-unacked :
      (packet : MqttPacket) (prefix topic payload : Bytes)
      → packet.body ≡ prefix ++ (topic ++ payload)
      → pack 2 (length topic) ≡ ok prefix
      → qos packet ≡ 0
      → mqtt_parse_publish lib packet ≡ ok (some (lib.to_s (bytes topic), payload, none))
  unfolding mqtt_parse_publish
  parse_publish-unacked packet prefix topic payload e hp hq =
      let n : ℕ = 2 + length topic in
      let two = length-pack 2 (length topic) prefix hp in
      let front : length (prefix ++ topic) ≡ n = omega (arith, length-append prefix topic) in
      let payload_at : drop n (prefix ++ (topic ++ payload)) ≡ payload =
        rw (← append_assoc prefix topic payload)
          (drop-append_at n (prefix ++ topic) payload front) in
      rw e (
        ground (
          arith,
          length-append prefix (topic ++ payload),
          length-append topic payload,
          take-append_at 2 prefix (topic ++ payload) two,
          unpack-pack 2 (length topic) prefix hp,
          slice-append_at 2 n prefix topic payload two refl,
          payload_at,
        ))

-- The topic's length, as the first two bytes of the body give it.
pub tlen : MqttPacket → ℕ
tlen packet = elim (unpack 2 (slice 0 2 packet.body)) [ ok n ↦ n | raised x ↦ 0 ]

-- The length of the packet identifier.
pub id_length : MqttPacket → ℕ
id_length packet = if ltb 0 (qos packet) then 2 else 0

unpack-tlen :
    (packet : MqttPacket)
    → 2 ≤ length packet.body
    → unpack 2 (slice 0 2 packet.body) ≡ ok (tlen packet)
unfolding tlen
unpack-tlen packet h =
    ground
      (arith, (unpack_total 2 (slice 0 2 packet.body) (omega (arith, length-take 2 packet.body))).1)

module _ (lib : Aionetiface) (packet : MqttPacket) where
  abbrev pub Refused : Type 0
  Refused =
      (length packet.body < 2 + tlen packet + id_length packet)
      × (mqtt_parse_publish lib packet ≡ ok none)

  abbrev pub Accepted : Type 0
  Accepted =
      (2 + tlen packet + id_length packet ≤ length packet.body)
      × (topic : Str) × (packet_id : Option Bytes) × (mqtt_parse_publish lib packet
          ≡ ok (some (topic, drop (2 + tlen packet + id_length packet) packet.body, packet_id)))
      × (topic ≡ lib.to_s (bytes (slice 2 (2 + tlen packet) packet.body)))
      × (packet_id ≡ (
          if ltb 0 (qos packet)
          then some (slice (2 + tlen packet) (2 + tlen packet + 2) packet.body)
          else none))

  -- mqtt_parse_publish never raises. It refuses a body exactly if the body ends before the length of
  -- the topic, the topic, or (above QoS 0) the packet identifier does. Otherwise it returns the topic,
  -- all the bytes behind these fields, and, above QoS 0, the identifier.
  pub parse_publish_cases : Refused ⊎ Accepted
  unfolding mqtt_parse_publish id_length
  parse_publish_cases = elim (Bool-cases (ltb (length packet.body) 2)) [
    | inl short ↦ inl (ground arith, ground arith)
    | inr long ↦ long_case long
  ]
    where
      at_length :
          ltb (length packet.body) 2 ≡ false → unpack 2 (slice 0 2 packet.body) ≡ ok (tlen packet)
      at_length long = unpack-tlen packet (ground arith)

      long_case : ltb (length packet.body) 2 ≡ false → Refused ⊎ Accepted
      long_case long =
          elim (Bool-cases (ltb (length packet.body) (2 + tlen packet + id_length packet))) [
            | inl cut ↦ inl (ground arith, ground (arith, at_length long))
            | inr whole ↦ inr (
              ground arith,
              lib.to_s (bytes (slice 2 (2 + tlen packet) packet.body)),
              (if ltb 0 (qos packet)
                  then some (slice (2 + tlen packet) (2 + tlen packet + 2) packet.body)
                  else none),
              ground (arith, at_length long),
              refl,
              refl,
            )
          ]

  -- What is returned without an identifier are the topic and all that follows it.
  pub parse_publish-plain :
      (topic : Str) (payload : Bytes)
      → mqtt_parse_publish lib packet ≡ ok (some (topic, payload, none))
      → (unpack 2 (slice 0 2 packet.body) ≡ ok (tlen packet))
        × (topic ≡ lib.to_s (bytes (slice 2 (2 + tlen packet) packet.body)))
        × (payload ≡ drop (2 + tlen packet) packet.body)
  unfolding id_length
  parse_publish-plain topic payload h = elim parse_publish_cases [
    | inl refused ↦ absurd (cc (h, refused.1))
    | inr (long, topic', packet_id, e, et, ei) ↦ elim (Bool-cases (ltb 0 (qos packet))) [
      | inl acked ↦ absurd (cc (h, e, rw acked at ei))
      | inr plain ↦
          let e' = rw plain at e in
          let long' = rw plain at long in
          let same : payload ≡ drop (2 + tlen packet + 0) packet.body = cc (h, e') in
          (
            unpack-tlen packet (omega (arith, long')),
            cc (h, e', et),
            same ∙ ap (λ n. drop n packet.body) (omega arith),
          )
    ]
  ]
