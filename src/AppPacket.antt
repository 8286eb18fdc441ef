-- ===== src/AppPacket.antt =====
-- src/sidewire/mqtt/app_packet.py: the signed packets that travel as the payload of a PUBLISH.
pub mod RoundTrip
pub mod Authentic
use sidewire.Prelude.{
  ℕ, ◌+◌, Bool, true, false, Option, none, some, List, [], ◌∷◌, ◌++◌, if◌then◌else◌, ltb, ◌==◌,
  length, take, drop, slice,
}
use sidewire.Prelude.Results.{
  Exn, value_error, bad_signature_error, malformed_point_error, Result, ok, raised, ◌>>=◌,
}
use sidewire.Aionetiface.{Aionetiface, Bytes, Str, Text, str, bytes}
use sidewire.Wire.Struct.{pack as struct_pack, unpack as struct_unpack}

-- MsgEnum of mqtt_defs.py.
pub data MsgEnum : Type 0 where
  msg msgack probe : MsgEnum

unfoldable pub to_int : MsgEnum → ℕ
to_int msg = 1
to_int msgack = 2
to_int probe = 3

abbrev pub src_pk_len : ℕ
src_pk_len = 33

abbrev pub sig_len : ℕ
sig_len = 64

abbrev pub queue_id_len : ℕ
queue_id_len = 32

abbrev pub seq_no_len : ℕ
seq_no_len = 4

abbrev pub timestamp_len : ℕ
timestamp_len = 8

abbrev pub msg_type_len : ℕ
msg_type_len = 1

abbrev pub signed_msg_offset : ℕ
signed_msg_offset = src_pk_len + sig_len

abbrev pub seq_no_offset : ℕ
seq_no_offset = queue_id_len

abbrev pub timestamp_offset : ℕ
timestamp_offset = seq_no_offset + seq_no_len

abbrev pub msg_type_offset : ℕ
msg_type_offset = timestamp_offset + timestamp_len

abbrev pub msg_offset : ℕ
msg_offset = msg_type_offset + msg_type_len

abbrev pub min_packet_len : ℕ
min_packet_len = signed_msg_offset + msg_offset

-- The keys of `client.kp` that the code reads.
pub record KeyPair : Type 0 where
  pub private_key : Bytes
  pub compact_public_key : Bytes
  pub public_key_hex : Str

-- A packet that is to be sent: `none` is Python's None.
pub record AppPacket : Type 0 where
  pub src_pk_hex : Option Str
  pub sig_hex : Option Str
  pub queue_id_hex : Str
  pub seq_no : ℕ
  pub timestamp : Option ℕ
  pub msg_type : MsgEnum
  pub msg : Option Text

-- A packet that `unpack` returned: every field is set.
pub record Inbound : Type 0 where
  pub src_pk_hex : Str
  pub sig_hex : Str
  pub queue_id_hex : Str
  pub seq_no : ℕ
  pub timestamp : ℕ
  pub msg_type : ℕ
  pub msg : Str

-- `if self.timestamp is None: self.timestamp = int(client.get_time())`; `now` is that number.
abbrev pub stamp : Option ℕ → ℕ → ℕ
stamp none now = now
stamp (some t) now = t

-- `if self.msg`: None, "" and b"" count as false.
abbrev pub truthy : Option Text → Bool
truthy none = false
truthy (some (str [])) = false
truthy (some (bytes [])) = false
truthy _ = true

module _ (lib : Aionetiface) (kp : KeyPair) where
  -- queue_id, seq_no, timestamp, msg_type and msg, in the order of the wire
  unfoldable pub signed_section : AppPacket → ℕ → Bytes → Result Bytes
  unfolding to_int
  signed_section p time msg_bytes = do
    queue_id_bytes ← lib.h_to_b p.queue_id_hex
    seq ← struct_pack 4 p.seq_no
    ts ← struct_pack 8 time
    kind ← struct_pack 1 (to_int p.msg_type)
    ok (queue_id_bytes ++ (seq ++ (ts ++ (kind ++ msg_bytes))))

  abbrev msg_or_empty : Option Text → Bytes
  msg_or_empty none = []
  msg_or_empty (some m) = lib.to_b m

  -- The packet as `pack` leaves it, and the bytes that it returns.
  unfoldable pub pack : AppPacket → ℕ → Result (AppPacket × Bytes)
  pack p now =
      if length p.queue_id_hex == 64
      then (do
        let time = stamp p.timestamp now
        let msg_bytes = if truthy p.msg then msg_or_empty p.msg else []
        signed ← signed_section p time msg_bytes
        let sig = lib.sign kp.private_key signed
        let compact_pk = kp.compact_public_key
        let p' : AppPacket = record p {
          timestamp = some time;
          sig_hex = some (lib.to_h sig);
          src_pk_hex = some (lib.to_h compact_pk);
        }
        ok (p', compact_pk ++ (sig ++ signed)))
      else raised value_error

  -- pack_async sets a `msg` of None to b"" and converts it, where `pack` tests `if self.msg`.
  abbrev msg_of : Option Text → Text
  msg_of none = bytes []
  msg_of (some m) = m

  unfoldable pub pack_async : AppPacket → ℕ → Result (AppPacket × Bytes)
  pack_async p now =
      if length p.queue_id_hex == 64
      then (do
        let time = stamp p.timestamp now
        let msg' = msg_of p.msg
        signed ← signed_section p time (lib.to_b msg')
        let sig = lib.sign_async kp.private_key signed
        let compact_pk = kp.compact_public_key
        let p' : AppPacket = record p {
          timestamp = some time;
          msg = some msg';
          sig_hex = some (lib.to_h sig);
          src_pk_hex = some (lib.to_h compact_pk);
        }
        ok (p', compact_pk ++ (sig ++ signed)))
      else raised value_error

-- except (BadSignatureError, MalformedPointError, ValueError)
unfoldable pub is_refusal : Exn → Bool
is_refusal bad_signature_error = true
is_refusal malformed_point_error = true
is_refusal value_error = true
is_refusal _ = false

module _ (lib : Aionetiface) where
  -- The fields of a payload whose signature has been verified.
  unfoldable pub parse_fields : Bytes → Result Inbound
  parse_fields payload = do
    let signed_msg = drop signed_msg_offset payload
    seq ← struct_unpack 4 (slice seq_no_offset (seq_no_offset + seq_no_len) signed_msg)
    ts ← struct_unpack 8 (slice timestamp_offset (timestamp_offset + timestamp_len) signed_msg)
    kind ← struct_unpack 1 (slice msg_type_offset (msg_type_offset + msg_type_len) signed_msg)
    ok (record {
      src_pk_hex = lib.to_h (take src_pk_len payload);
      sig_hex = lib.to_h (slice src_pk_len signed_msg_offset payload);
      queue_id_hex = lib.to_h (take queue_id_len signed_msg);
      seq_no = seq;
      timestamp = ts;
      msg_type = kind;
      msg = lib.to_s (bytes (drop msg_offset signed_msg));
    })

  -- `verifier` is vk.verify, or ecdsa_verify_async for unpack_async. None on any refusal.
  unfoldable pub unpack_by :
      (Bytes → Bytes → Bytes → Result (Unit {0})) → Text → Result (Option Inbound)
  unpack_by verifier (str s) = ok none
  unpack_by verifier (bytes payload) =
      if ltb (length payload) min_packet_len
      then ok none
      else elim (verifier (take src_pk_len payload) (slice src_pk_len signed_msg_offset payload)
          (drop signed_msg_offset payload)) [
            | raised x ↦ if is_refusal x then ok none else raised x
            | ok u ↦ (do p ← parse_fields payload; ok (some p))
          ]

  unfoldable pub unpack : Text → Result (Option Inbound)
  unpack = unpack_by lib.verify

  unfoldable pub unpack_async : Text → Result (Option Inbound)
  unpack_async = unpack_by lib.verify_async
