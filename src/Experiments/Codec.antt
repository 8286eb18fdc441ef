-- ===== src/Experiments/Codec.antt =====
-- enc_varint and enc_str of experiments/mqtt_client.py.
use sidewire.Prelude.{ℕ, ◌/◌, ◌<◌, bit_and, bit_or, [], ◌∷◌, ◌++◌, length, lt_wf, arith}
use sidewire.Prelude.Results.{Result, ok, ◌>>=◌}
use sidewire.Aionetiface.{Bytes, Str}
use sidewire.Wire.Struct.{pack}
use mathlib.Core.Logic.{dite}
use mathlib.Core.WellFounded.{Acc}
use native.Mathlib.Decide.{dec_lt}

shift_shrinks : (n : ℕ) → 0 < n / 128 → n / 128 < n
shift_shrinks n h = omega arith

-- `while True`: the loop ends at `if not n`, and the shifted number falls until then.
unfoldable pub enc_loop : Bytes → (n : ℕ) → Acc ◌<◌ n → Bytes
unfolding shift_shrinks
enc_loop out n (Acc.intro _ smaller) =
    let byte = bit_and n 0x7f in
    dite (dec_lt 0 (n / 128))
      (λ more.
        enc_loop (out ++ (bit_or byte 0x80 ∷ [])) (n / 128) (smaller _ (shift_shrinks n more)))
      (λ _. out ++ (byte ∷ []))

unfoldable pub enc_varint : ℕ → Bytes
unfolding enc_loop lt_wf dec_lt shift_shrinks
enc_varint n = enc_loop [] n (lt_wf.apply n)

-- `encode` is str.encode("utf-8"), which raises for a text with a surrogate.
module _ (encode : Str → Result Bytes) where
  unfoldable pub enc_str : Str → Result Bytes
  enc_str s = do b ← encode s; size ← pack 2 (length b); ok (size ++ b)
