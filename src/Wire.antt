-- ===== src/Wire.antt =====
-- The bytes on the TCP stream: src/sidewire/mqtt/utils.py (numbers and texts), mqtt_packet.py and
-- mqtt_msgs.py (packets), mqtt_reader.py (framing).
pub mod Bits
pub mod Struct
pub mod Varint
pub mod Packet
pub mod Msgs
pub mod Reader
