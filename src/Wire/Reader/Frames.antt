-- ===== src/Wire/Reader/Frames.antt =====
-- One frame of the buffer, and one turn of the loop of mqtt_packet_reader.
use sidewire.Prelude.{
  ℕ, zero, suc, ◌+◌, ◌≤◌, ◌<◌, ◌≡◌, refl, none, some, ◌++◌, arith, length, length-append, take,
  drop, Option-cases, inl, inr, length-drop, take-append_within, drop-append_within,
  take-append-drop,
}
use sidewire.Prelude.Results.{Exn, Result, ok, raised, Result-cases}
use sidewire.Aionetiface.{Bytes}
use sidewire.Wire.Varint.{mqtt_decode_varint}
use sidewire.Wire.Varint.Coding.{decode-append}
use sidewire.Wire.Packet.{MqttPacket, mqtt_parse_packet}
use sidewire.Wire.Reader.{next_frame, read_loop}

-- What a frame is made of.
pub next_frame_inv :
    (buf pkt rest : Bytes)
    → next_frame buf ≡ some (pkt, rest)
    → (rem : ℕ) × (consumed : ℕ) × (mqtt_decode_varint buf 1 ≡ ok (rem, consumed))
      × (2 ≤ length buf)
      × (1 + consumed + rem ≤ length buf)
      × (pkt ≡ take (1 + consumed + rem) buf)
      × (rest ≡ drop (1 + consumed + rem) buf)
unfolding next_frame
next_frame_inv buf pkt rest h = go (mqtt_decode_varint buf 1) refl
  where
    go :
        (r : Result (ℕ × ℕ))
        → mqtt_decode_varint buf 1 ≡ r
        → (rem : ℕ) × (consumed : ℕ) × (mqtt_decode_varint buf 1 ≡ ok (rem, consumed))
          × (2 ≤ length buf)
          × (1 + consumed + rem ≤ length buf)
          × (pkt ≡ take (1 + consumed + rem) buf)
          × (rest ≡ drop (1 + consumed + rem) buf)
    go (raised x) e = absurd (ground arith)
    go (ok (rem, consumed)) e =
        (rem, consumed, e, ground arith, ground arith, ground arith, ground arith)

-- A frame and the rest make up the buffer, and the rest is shorter.
pub next_frame_parts :
    (buf pkt rest : Bytes)
    → next_frame buf ≡ some (pkt, rest)
    → (pkt ++ rest ≡ buf) × (length rest < length buf)
next_frame_parts buf pkt rest h =
    let (rem, consumed, e, two, fits, hp, hr) = next_frame_inv buf pkt rest h in
    (
      cc (hp, hr, take-append-drop (1 + consumed + rem) buf),
      rw hr (omega (arith, length-drop (1 + consumed + rem) buf)),
    )

pub next_frame-append :
    (buf more pkt rest : Bytes)
    → next_frame buf ≡ some (pkt, rest)
    → next_frame (buf ++ more) ≡ some (pkt, rest ++ more)
unfolding next_frame
next_frame-append buf more pkt rest h =
    let (rem, consumed, e, two, fits, hp, hr) = next_frame_inv buf pkt rest h in
    let n = 1 + consumed + rem in
    ground (
      arith,
      decode-append buf more 1 rem consumed e,
      length-append buf more,
      take-append_within n buf more fits,
      drop-append_within n buf more fits,
    )

-- The three ways that a turn of the loop can go.
pub data Turn (buf : Bytes) : Type 0 where
  wait : next_frame buf ≡ none → Turn buf
  refuse :
      (p r : Bytes) (x : Exn)
      → next_frame buf ≡ some (p, r)
      → mqtt_parse_packet p ≡ raised x
      → Turn buf
  serve :
      (p r : Bytes) (pkt : MqttPacket)
      → next_frame buf ≡ some (p, r)
      → mqtt_parse_packet p ≡ ok pkt
      → Turn buf

pub turn : (buf : Bytes) → Turn buf
turn buf = elim (Option-cases (next_frame buf)) [
  | inl e ↦ wait e
  | inr ((p, r), e) ↦ elim (Result-cases (mqtt_parse_packet p)) [
    | inl (x, q) ↦ refuse p r x e q
    | inr (pkt, q) ↦ serve p r pkt e q
  ]
]

pub next_frame_short : (buf : Bytes) → length buf < 2 → next_frame buf ≡ none
unfolding next_frame
next_frame_short buf h = ground arith

module _ {S : Type 0} (handle : MqttPacket → S → S) where
  pub loop_wait :
      (f : ℕ) (buf : Bytes) (s : S)
      → next_frame buf ≡ none
      → read_loop handle f buf s ≡ (ok tt, (buf, s))
  unfolding read_loop
  loop_wait zero buf s e = refl
  loop_wait (suc f) buf s e = ground arith

  pub loop_raise :
      (f : ℕ) (buf : Bytes) (s : S) (p r : Bytes) (x : Exn)
      → next_frame buf ≡ some (p, r)
      → mqtt_parse_packet p ≡ raised x
      → read_loop handle (suc f) buf s ≡ (raised x, (r, s))
  unfolding read_loop
  loop_raise f buf s p r x e q = rw (e, read_loop) (rw q)

  pub loop_next :
      (f : ℕ) (buf : Bytes) (s : S) (p r : Bytes) (pkt : MqttPacket)
      → next_frame buf ≡ some (p, r)
      → mqtt_parse_packet p ≡ ok pkt
      → read_loop handle (suc f) buf s ≡ read_loop handle f r (handle pkt s)
  unfolding read_loop
  loop_next f buf s p r pkt e q = rw (e, read_loop) (rw q)
