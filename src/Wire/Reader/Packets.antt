-- ===== src/Wire/Reader/Packets.antt =====
-- mqtt_packet_reader on a stream of packets that MQTTPacket.build wrote.
use sidewire.Prelude.{
  ℕ, zero, suc, ◌+◌, ◌^◌, ◌≤◌, ◌<◌, ◌≡◌, ◌∙◌, some, List, [], ◌∷◌, ◌++◌, append-nil, append_assoc,
  arith, length, length-append, take-append_at, drop-append_at, All,
}
use sidewire.Prelude.Results.{ok}
use sidewire.Aionetiface.{Bytes}
use sidewire.Wire.Varint.{mqtt_encode_varint}
use sidewire.Wire.Varint.Coding.{encode_shape}
use sidewire.Wire.Packet.{MqttPacket, build, mqtt_parse_packet}
use sidewire.Wire.Packet.RoundTrip.{parsed, parse-build, first_byte, build_header_lem, frame_length}
use sidewire.Wire.Reader.{next_frame, read_loop, mqtt_packet_reader}
use sidewire.Wire.Reader.Frames.{loop_wait, loop_next, next_frame_short, next_frame_parts}
use sidewire.Wire.Reader.Stream.{join, feed, feed-join}

abbrev pub Fits : MqttPacket → Type 0
Fits pkt = (pkt.flags < 16) × (length (pkt.variable_header ++ pkt.payload) < 128 ^ 4)

framed : ℕ → Bytes → Bytes
framed first body = first ∷ (mqtt_encode_varint (length body) ++ body)

next_frame-framed :
    (first : ℕ) (body rest : Bytes)
    → length body < 128 ^ 4
    → next_frame (framed first body ++ rest) ≡ some (framed first body, rest)
unfolding next_frame framed
next_frame-framed first body rest hn =
    let encoded : Bytes = mqtt_encode_varint (length body) in
    let total : ℕ = 1 + length encoded + length body in
    let size : length (framed first body) ≡ total =
      unfold framed in omega (arith, length-append encoded body) in
    let size' : length (framed first body ++ rest) ≡ total + length rest =
      omega (arith, size, length-append (framed first body) rest) in
    ground (
      arith,
      rw (← append_assoc encoded body rest) at (frame_length first body rest hn),
      size',
      (encode_shape (length body) hn).1,
      take-append_at total (framed first body) rest size,
      drop-append_at total (framed first body) rest size,
    )

build-framed :
    (pkt : MqttPacket)
    → pkt.flags < 16
    → build pkt ≡ framed (first_byte pkt.type pkt.flags) (pkt.variable_header ++ pkt.payload)
unfolding build framed
build-framed pkt hf =
    rw (build_header_lem (length (pkt.variable_header ++ pkt.payload)) pkt.type pkt.flags hf)

-- A built packet is the next frame, whatever follows it.
pub next_frame-build :
    (pkt : MqttPacket) (rest : Bytes)
    → Fits pkt
    → next_frame (build pkt ++ rest) ≡ some (build pkt, rest)
next_frame-build pkt rest (hf, hn) =
    rw (build-framed pkt hf) (
      next_frame-framed (first_byte pkt.type pkt.flags) (pkt.variable_header ++ pkt.payload) rest
        hn)

abbrev pub stream : List MqttPacket → Bytes
stream [] = []
stream (pkt ∷ pkts) = build pkt ++ stream pkts

-- What the reader makes of a built packet.
abbrev pub received : MqttPacket → MqttPacket
received pkt = parsed pkt.type pkt.flags (pkt.variable_header ++ pkt.payload)

module _ {S : Type 0} (handle : MqttPacket → S → S) where
  pub handle_all : List MqttPacket → S → S
  handle_all [] s = s
  handle_all (pkt ∷ pkts) s = handle_all pkts (handle (received pkt) s)

  read_loop-stream :
      (pkts : List MqttPacket) (f : ℕ) (s : S)
      → All Fits pkts
      → length (stream pkts) ≤ f
      → read_loop handle f (stream pkts) s ≡ (ok tt, ([], handle_all pkts s))
  unfolding handle_all
  read_loop-stream [] f s fits hf = loop_wait handle f [] s (next_frame_short [] (omega arith))
  read_loop-stream (pkt ∷ pkts) f s (fit, fits) hf =
      let whole = parse-build pkt [] fit.0 fit.1 in
      let frame = next_frame-build pkt (stream pkts) fit in
      let (parts, shorter) =
        next_frame_parts (build pkt ++ stream pkts) (build pkt) (stream pkts) frame in
      go f hf (rw append-nil at whole) frame shorter
        (λ g h. read_loop-stream pkts g (handle (received pkt) s) fits h)
    where
      go :
          (f : ℕ)
          → length (build pkt ++ stream pkts) ≤ f
          → mqtt_parse_packet (build pkt) ≡ ok (received pkt)
          → next_frame (build pkt ++ stream pkts) ≡ some (build pkt, stream pkts)
          → length (stream pkts) < length (build pkt ++ stream pkts)
          → ((g : ℕ)
              → length (stream pkts) ≤ g
              → read_loop handle g (stream pkts) (handle (received pkt) s)
                ≡ (ok tt, ([], handle_all pkts (handle (received pkt) s))))
          → read_loop handle f (build pkt ++ stream pkts) s
            ≡ (ok tt, ([], handle_all pkts (handle (received pkt) s)))
      go zero hf whole frame shorter ih = absurd (omega arith)
      go (suc f) hf whole frame shorter ih =
          loop_next handle f (build pkt ++ stream pkts) s (build pkt) (stream pkts) (received pkt)
            frame whole
          ∙ ih f (omega arith)

  reader-stream :
      (pkts : List MqttPacket) (s : S)
      → All Fits pkts
      → mqtt_packet_reader handle (stream pkts) ([], s) ≡ (ok tt, ([], handle_all pkts s))
  unfolding mqtt_packet_reader
  reader-stream pkts s fits =
      by_shape (stream pkts) (read_loop-stream pkts (length (stream pkts)) s fits (omega arith))
    where
      by_shape :
          (bs : Bytes)
          → read_loop handle (length bs) bs s ≡ (ok tt, ([], handle_all pkts s))
          → mqtt_packet_reader handle bs ([], s) ≡ (ok tt, ([], handle_all pkts s))
      by_shape [] h = h
      by_shape (b ∷ bs) h = h

  -- A stream of built packets, each with flags of four bits and a body shorter than 128 ^ 4 bytes, may
  -- be cut into chunks anywhere: the reader hands over each packet once, in order, and keeps nothing.
  pub feed-stream :
      (pkts : List MqttPacket) (cs : List Bytes) (s : S)
      → All Fits pkts
      → join cs ≡ stream pkts
      → feed handle cs ([], s) ≡ ([], handle_all pkts s)
  feed-stream pkts cs s fits e =
      feed-join handle cs [] s ([], handle_all pkts s) (rw e (reader-stream pkts s fits))
