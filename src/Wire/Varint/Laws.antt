-- ===== src/Wire/Varint/Laws.antt =====
-- What the varint coder writes in plain arithmetic, and that the decoder reads it back.
use sidewire.Prelude.{
  ℕ, zero, suc, ◌+◌, ◌*◌, ◌/◌, ◌%◌, ◌^◌, ◌≤◌, ◌<◌, ◌≡◌, ap, ◌∙◌, [], ◌∷◌, ◌++◌, append_assoc, arith,
}
use sidewire.Prelude.{
  if◌then◌else◌, leb, length, length-append, All, get_elem?-append_at, lt_wf, Bool-cases, inl, inr,
}
use sidewire.Prelude.Results.{ok}
use sidewire.Wire.Bits.{and_low7, and_top, or_top}
use sidewire.Wire.Struct.{Bytes, IsByte}
use sidewire.Wire.Varint.{encode_loop, mqtt_encode_varint, decode_loop}
use mathlib.Core.WellFounded.{Acc}
use native.Mathlib.Nat.{div-add-mod}

-- Groups of seven bits, lowest first, for `v` below 128 ^ (k + 1).
unfoldable pub groups : ℕ → ℕ → Bytes
groups zero v = v ∷ []
groups (suc k) v =
    let higher = groups k (v / 128) in if leb 128 v then (v % 128 + 128) ∷ higher else v ∷ []

encode_loop-groups :
    (k : ℕ) (encoded : Bytes) (v : ℕ) (w : Acc ◌<◌ v)
    → v < 128 ^ suc k
    → encode_loop encoded v w ≡ encoded ++ groups k v
unfolding encode_loop groups
encode_loop-groups zero encoded v (Acc.intro _ smaller) h = ground arith
encode_loop-groups (suc k) encoded v (Acc.intro _ smaller) h =
    let first : Bytes = (v % 128 + 128) ∷ [] in
    grind (
      arith,
      or_top (v % 128),
      λ (w : Acc ◌<◌ (v / 128)). encode_loop-groups k (encoded ++ first) (v / 128) w (omega arith),
      append_assoc encoded first (groups k (v / 128)),
    )

pub groups_big : (k v : ℕ) → 128 ≤ v → groups (suc k) v ≡ (v % 128 + 128) ∷ groups k (v / 128)
unfolding groups
groups_big k v h = ground arith

pub encode-groups : (k v : ℕ) → v < 128 ^ suc k → mqtt_encode_varint v ≡ groups k v
unfolding mqtt_encode_varint
encode-groups k v h = encode_loop-groups k [] v (lt_wf.apply v) h

pub groups-IsByte : (k v : ℕ) → v < 128 ^ suc k → All IsByte (groups k v)
unfolding groups
groups-IsByte zero v h = omega arith
groups-IsByte (suc k) v h = ground (arith, groups-IsByte k (v / 128) (omega arith))

pub length-groups : (k v : ℕ) → (1 ≤ length (groups k v)) × (length (groups k v) ≤ k + 1)
unfolding groups
length-groups zero v = omega arith
length-groups (suc k) v = ground (arith, length-groups k (v / 128))

-- One round of the decoder at the byte behind `pre`.
decode_last :
    (rounds b multiplier value consumed : ℕ) (pre rest : Bytes)
    → b < 128
    → decode_loop (suc rounds) (pre ++ (b ∷ rest)) (length pre) multiplier value consumed
      ≡ ok (value + b * multiplier, consumed + 1)
unfolding decode_loop
decode_last rounds b multiplier value consumed pre rest h =
    ground (arith, get_elem?-append_at pre b rest, and_low7 b, and_top b)

pub decode_inner :
    (rounds g multiplier value consumed : ℕ) (pre rest : Bytes)
    → g < 128
    → decode_loop (suc rounds) (pre ++ ((g + 128) ∷ rest)) (length pre) multiplier value consumed
      ≡ decode_loop rounds
          (pre ++ ((g + 128) ∷ rest))
          (length pre + 1)
          (multiplier * 128)
          (value + g * multiplier)
          (consumed + 1)
unfolding decode_loop
decode_inner rounds g multiplier value consumed pre rest h =
    ground (arith, get_elem?-append_at pre (g + 128) rest, and_low7 (g + 128), and_top (g + 128))

pub regroup : (v m : ℕ) → v % 128 * m + v / 128 * (m * 128) ≡ v * m
regroup v m = omega (arith, ap (λ (t : ℕ). t * m) (div-add-mod v 128))

-- The decoder's rounds on an encoding that stands behind `pre`.
pub decode_loop-groups :
    (k rounds v multiplier value consumed : ℕ) (pre rest : Bytes)
    → k < rounds
    → v < 128 ^ suc k
    → decode_loop rounds (pre ++ (groups k v ++ rest)) (length pre) multiplier value consumed
      ≡ ok (value + v * multiplier, consumed + length (groups k v))
unfolding groups
decode_loop-groups k zero v m value consumed pre rest h fits = absurd (omega arith)
decode_loop-groups zero (suc rounds) v m value consumed pre rest h fits =
    decode_last rounds v m value consumed pre rest (omega arith)
decode_loop-groups (suc k) (suc rounds) v m value consumed pre rest h fits =
    elim (Bool-cases (leb 128 v)) [
      | inr small ↦ rw small (decode_last rounds v m value consumed pre rest (ground arith))
      | inl big ↦ rw big (
          decode_inner rounds (v % 128) m value consumed pre (groups k (v / 128) ++ rest)
            (omega arith)
          ∙ rw
              (
                ← append_assoc pre (((v % 128 + 128)) ∷ []) (groups k (v / 128) ++ rest),
                ← length-snoc,
              )
              (decode_loop-groups k rounds (v / 128) (m * 128) (value + v % 128 * m) (consumed + 1)
                  (pre ++ ((v % 128 + 128) ∷ [])) rest (omega arith) (omega arith)
                ∙ ground (arith, regroup v m)))
    ]
  where
    length-snoc : length (pre ++ ((v % 128 + 128) ∷ [])) ≡ length pre + 1
    length-snoc = length-append pre ((v % 128 + 128) ∷ [])
