-- ===== src/Wire/Varint.antt =====
-- mqtt_encode_varint and mqtt_decode_varint of src/sidewire/mqtt/utils.py.
pub mod Laws
pub mod Coding
use sidewire.Prelude.{
  ℕ, zero, suc, ◌+◌, ◌*◌, ◌/◌, ◌%◌, ◌<◌, bit_and, bit_or, Option, none, some, List, [], ◌∷◌, ◌++◌,
  arith,
}
use sidewire.Prelude.{if◌then◌else◌, ◌==◌, get_elem?, lt_wf}
use sidewire.Prelude.Results.{Result, ok, raised, value_error}
use sidewire.Wire.Struct.{Bytes}
use mathlib.Core.Logic.{dite}
use mathlib.Core.WellFounded.{Acc}
use native.Mathlib.Decide.{dec_lt}

quotient_shrinks : (v : ℕ) → 0 < v / 128 → v / 128 < v
quotient_shrinks v h = omega arith

-- `while True`: the loop goes on while the quotient is positive, and the quotient falls.
unfoldable pub encode_loop : Bytes → (value : ℕ) → Acc ◌<◌ value → Bytes
unfolding quotient_shrinks
encode_loop encoded value (Acc.intro _ smaller) =
    let byte = value % 128 in
    dite (dec_lt 0 (value / 128))
      (λ more.
        encode_loop (encoded ++ (bit_or byte 0x80 ∷ [])) (value / 128)
          (smaller _ (quotient_shrinks value more)))
      (λ _. encoded ++ (byte ∷ []))

unfoldable pub mqtt_encode_varint : ℕ → Bytes
unfolding encode_loop lt_wf dec_lt quotient_shrinks
mqtt_encode_varint value = encode_loop [] value (lt_wf.apply value)

-- `for i in range(4)`: `rounds` of them are left, and `pos` is `offset + i`.
pub decode_loop : ℕ → Bytes → ℕ → ℕ → ℕ → ℕ → Result (ℕ × ℕ)
decode_loop zero buf pos multiplier value consumed = raised value_error
decode_loop (suc rounds) buf pos multiplier value consumed = elim (get_elem? buf pos) [
  | none ↦ raised value_error
  | some byte ↦
      let value' = value + bit_and byte 0x7f * multiplier in
      let more = decode_loop rounds buf (pos + 1) (multiplier * 128) value' (consumed + 1) in
      if bit_and byte 0x80 == 0 then ok (value', consumed + 1) else more
]

unfoldable pub mqtt_decode_varint : Bytes → ℕ → Result (ℕ × ℕ)
unfolding decode_loop
mqtt_decode_varint buf offset = decode_loop 4 buf offset 1 0 0
