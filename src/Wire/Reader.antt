-- ===== src/Wire/Reader.antt =====
-- mqtt_packet_reader of src/sidewire/mqtt/mqtt_reader.py: cutting the TCP stream into packets.
pub mod Frames
pub mod Segments
pub mod Stream
pub mod Packets
use sidewire.Prelude.{
  ℕ, zero, suc, ◌+◌, Option, none, some, Bool, true, false, List, [], ◌∷◌, ◌++◌, if◌then◌else◌, ltb,
  length, take, drop,
}
use sidewire.Prelude.Results.{Result, ok, raised}
use sidewire.Aionetiface.{Bytes}
use sidewire.Wire.Varint.{mqtt_decode_varint}
use sidewire.Wire.Packet.{MqttPacket, mqtt_parse_packet}

-- One turn of the loop: the packet's bytes and the rest of the buffer, or `none` where the code
-- returns (or the loop ends, on an empty buffer). The decoder raises nothing but ValueError.
unfoldable pub next_frame : Bytes → Option (Bytes × Bytes)
next_frame buf = if ltb (length buf) 2 then none else elim (mqtt_decode_varint buf 1) [
  | raised x ↦ none
  | ok (rem_len, consumed) ↦
      let total_len = 1 + consumed + rem_len in
      if ltb (length buf) total_len then none else some (take total_len buf, drop total_len buf)
]

module _ {S : Type 0} (handle : MqttPacket → S → S) where
  -- `handle` is handle_mqtt_packet under async_wrap_errors, which lets nothing escape. What
  -- mqtt_parse_packet raises does escape, with the packet already cut off the buffer.
  -- Each turn takes bytes off the buffer, so its length is fuel enough.
  unfoldable pub read_loop : ℕ → Bytes → S → Result (Unit {0}) × (Bytes × S)
  read_loop zero buf s = (ok tt, (buf, s))
  read_loop (suc fuel) buf s = elim (next_frame buf) [
    | none ↦ (ok tt, (buf, s))
    | some (pkt_buf, rest) ↦ elim (mqtt_parse_packet pkt_buf) [
      | raised x ↦ (raised x, (rest, s))
      | ok pkt ↦ read_loop fuel rest (handle pkt s)
    ]
  ]

  -- The state is `client.buf` and what the handler sees.
  unfoldable pub mqtt_packet_reader : Bytes → Bytes × S → Result (Unit {0}) × (Bytes × S)
  unfolding read_loop
  mqtt_packet_reader [] (buf, s) = (ok tt, (buf, s))
  mqtt_packet_reader (b ∷ chunk) (buf, s) =
      let buf' = buf ++ (b ∷ chunk) in read_loop (length buf') buf' s
