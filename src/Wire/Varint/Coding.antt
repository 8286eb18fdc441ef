-- ===== src/Wire/Varint/Coding.antt =====
-- The varint coder as a whole: round trip, shape, limits, and input that arrives in parts.
use sidewire.Prelude.{
  ℕ, zero, suc, ◌+◌, ◌*◌, ◌/◌, ◌%◌, ◌^◌, ◌≤◌, ◌<◌, ◌≡◌, refl, ap, ◌∙◌, [], ◌∷◌, ◌++◌, append_assoc,
  arith,
}
use sidewire.Prelude.{
  length, length-append, All, get_elem?, get_elem?-append_within, get_elem?-lt, All-get_elem?,
  bit_and, Option-cases, inl, inr,
}
use sidewire.Prelude.Results.{ok, raised, value_error}
use sidewire.Wire.Bits.{and_low7}
use sidewire.Wire.Struct.{Bytes, IsByte}
use sidewire.Wire.Varint.{mqtt_encode_varint, decode_loop, mqtt_decode_varint}
use sidewire.Wire.Varint.Laws.{
  groups, encode-groups, groups-IsByte, length-groups, groups_big, decode_loop-groups, decode_inner,
}
use native.Mathlib.Nat.{pow-suc}

-- For a value below 128 ^ 4, decoding at the place where the encoding stands, whatever stands before
-- and after it, gives the value and the number of bytes that the encoding takes.
pub decode-encode :
    (v : ℕ) (pre rest : Bytes)
    → v < 128 ^ 4
    → mqtt_decode_varint (pre ++ (mqtt_encode_varint v ++ rest)) (length pre)
      ≡ ok (v, length (mqtt_encode_varint v))
unfolding mqtt_decode_varint
decode-encode v pre rest h =
    rw (encode-groups 3 v h)
      (decode_loop-groups 3 4 v 1 0 0 pre rest (omega arith) h ∙ ground arith)

-- The encoding of a value below 128 ^ 4 is one to four bytes.
pub encode_shape :
    (v : ℕ)
    → v < 128 ^ 4
    → All IsByte (mqtt_encode_varint v)
      × (1 ≤ length (mqtt_encode_varint v))
      × (length (mqtt_encode_varint v) ≤ 4)
encode_shape v h =
    rw (encode-groups 3 v h) (groups-IsByte 3 v h, (length-groups 3 v).0, (length-groups 3 v).1)

pub lt-pow : (v : ℕ) → v < 128 ^ suc v
lt-pow zero = omega arith
lt-pow (suc v) = omega (arith, lt-pow v, pow-suc 128 (suc v))

pow_pos : (n : ℕ) → 1 ≤ 128 ^ n
pow_pos zero = omega arith
pow_pos (suc n) = omega (arith, pow-suc 128 n, pow_pos n)

-- `rounds` rounds do not reach the end of an encoding of 128 ^ rounds or more.
decode_loop_exhausted :
    (k rounds v multiplier value consumed : ℕ) (pre rest : Bytes)
    → v < 128 ^ suc k
    → 128 ^ rounds ≤ v
    → decode_loop rounds (pre ++ (groups k v ++ rest)) (length pre) multiplier value consumed
      ≡ raised value_error
decode_loop_exhausted k zero v m value consumed pre rest fits big = unfold decode_loop in refl
decode_loop_exhausted zero (suc rounds) v m value consumed pre rest fits big =
    absurd (omega (arith, pow-suc 128 rounds, pow_pos rounds))
decode_loop_exhausted (suc k) (suc rounds) v m value consumed pre rest fits big =
    rw (groups_big k v (omega (arith, pow-suc 128 rounds, pow_pos rounds))) (
      decode_inner rounds (v % 128) m value consumed pre (groups k (v / 128) ++ rest) (omega arith)
      ∙ rw
          (
            ← append_assoc pre ((v % 128 + 128) ∷ []) (groups k (v / 128) ++ rest),
            ← length-append pre ((v % 128 + 128) ∷ []),
          )
          (decode_loop_exhausted k rounds (v / 128) (m * 128) (value + v % 128 * m) (consumed + 1)
            (pre ++ ((v % 128 + 128) ∷ [])) rest (omega (arith, pow-suc 128 (suc k)))
            (omega (arith, pow-suc 128 rounds))))

-- What the encoder writes for a value of 128 ^ 4 or more, the decoder refuses.
decode-encode_too_big :
    (v : ℕ) (pre rest : Bytes)
    → 128 ^ 4 ≤ v
    → mqtt_decode_varint (pre ++ (mqtt_encode_varint v ++ rest)) (length pre) ≡ raised value_error
unfolding mqtt_decode_varint
decode-encode_too_big v pre rest h =
    rw (encode-groups v v (lt-pow v)) (decode_loop_exhausted v 4 v 1 0 0 pre rest (lt-pow v) h)

-- Any value that the decoder returns, from bytes at all, takes the bytes `consumed` of the buffer,
-- one for each seven bits.
decode_loop_bounds :
    (rounds : ℕ) (buf : Bytes) (pos multiplier value consumed v c : ℕ)
    → decode_loop rounds buf pos multiplier value consumed ≡ ok (v, c)
    → (consumed < c) × (c ≤ consumed + rounds) × (pos + c ≤ length buf + consumed)
unfolding decode_loop
decode_loop_bounds zero buf pos m value consumed v c h = cc
decode_loop_bounds (suc rounds) buf pos m value consumed v c h =
    elim (Option-cases (get_elem? buf pos)) [
      | inl e ↦ absurd (ground arith)
      | inr (b, e) ↦ ground (
        arith,
        get_elem?-lt buf pos b e,
        decode_loop_bounds rounds buf (pos + 1) (m * 128) (value + bit_and b 0x7f * m)
            (consumed + 1) v c,
      )
    ]

-- Bytes that arrive later do not change a value that was decoded.
decode_loop-append :
    (rounds : ℕ) (buf more : Bytes) (pos multiplier value consumed v c : ℕ)
    → decode_loop rounds buf pos multiplier value consumed ≡ ok (v, c)
    → decode_loop rounds (buf ++ more) pos multiplier value consumed ≡ ok (v, c)
unfolding decode_loop
decode_loop-append zero buf more pos m value consumed v c h = cc
decode_loop-append (suc rounds) buf more pos m value consumed v c h =
    elim (Option-cases (get_elem? buf pos)) [
      | inl e ↦ absurd (ground arith)
      | inr (b, e) ↦ ground (
        arith,
        get_elem?-append_within buf more pos (get_elem?-lt buf pos b e),
        decode_loop-append rounds buf more (pos + 1) (m * 128) (value + bit_and b 0x7f * m)
            (consumed + 1) v c,
      )
    ]

low7-lt : (b : ℕ) → b < 256 → bit_and b 0x7f < 128
low7-lt b h = rw and_low7 (omega arith)

next-lt : (k value m : ℕ) → k < 128 → value < m → value + k * m < m * 128
next-lt k value m h lt = grind arith

shift_out : (m r : ℕ) → m * 128 * 128 ^ r ≡ m * 128 ^ suc r
shift_out m r = omega (arith, ap (λ (t : ℕ). m * t) (pow-suc 128 r))

shift-le : (m r : ℕ) → m * 128 ≤ m * 128 ^ suc r
shift-le m r = grind (arith, shift_out m r, pow_pos r)

-- With `multiplier` 128 to the rounds done, the value stays below 128 to the rounds in all.
decode_loop-lt :
    (rounds : ℕ) (buf : Bytes) (pos multiplier value consumed v c : ℕ)
    → All IsByte buf
    → value < multiplier
    → decode_loop rounds buf pos multiplier value consumed ≡ ok (v, c)
    → v < multiplier * 128 ^ rounds
unfolding decode_loop
decode_loop-lt zero buf pos m value consumed v c a lt h = cc
decode_loop-lt (suc rounds) buf pos m value consumed v c a lt h =
    elim (Option-cases (get_elem? buf pos)) [
      | inl e ↦ absurd (ground arith)
      | inr (b, e) ↦
          let byte : b < 256 = All-get_elem? IsByte buf pos b a e in
          ground (
            arith,
            low7-lt b byte,
            next-lt (bit_and b 0x7f) value m,
            shift_out m rounds,
            shift-le m rounds,
            decode_loop-lt rounds buf (pos + 1) (m * 128) (value + bit_and b 0x7f * m)
                (consumed + 1) v c a,
          )
    ]

-- A decoded value consumes one to four bytes, all within the buffer, and is below 128 ^ 4.
decode_bounds :
    (buf : Bytes) (offset v consumed : ℕ)
    → All IsByte buf
    → mqtt_decode_varint buf offset ≡ ok (v, consumed)
    → (1 ≤ consumed) × (consumed ≤ 4) × (offset + consumed ≤ length buf) × (v < 128 ^ 4)
unfolding mqtt_decode_varint
decode_bounds buf offset v consumed a h = ground (
  arith,
  decode_loop_bounds 4 buf offset 1 0 0 v consumed h,
  decode_loop-lt 4 buf offset 1 0 0 v consumed a (omega arith) h,
)

pub decode-append :
    (buf more : Bytes) (offset v consumed : ℕ)
    → mqtt_decode_varint buf offset ≡ ok (v, consumed)
    → mqtt_decode_varint (buf ++ more) offset ≡ ok (v, consumed)
unfolding mqtt_decode_varint
decode-append buf more offset v consumed h = decode_loop-append 4 buf more offset 1 0 0 v consumed h
