-- ===== src/Wire/Struct.antt =====
-- `struct.pack` and `struct.unpack` of one big-endian unsigned number of `w` bytes:
-- "!B" is w = 1, "!H" is w = 2, "!I" is w = 4 and "!Q" is w = 8.
use sidewire.Prelude.{
  ℕ, zero, suc, ◌+◌, ◌*◌, ◌/◌, ◌%◌, ◌^◌, ◌<◌, ◌≡◌, refl, ◌∙◌, List, [], ◌∷◌, ◌++◌, arith,
}
use sidewire.Prelude.{if◌then◌else◌, ltb, ◌==◌, length, length-append, All}
use sidewire.Prelude.Results.{Result, ok, raised, struct_error}
use native.Mathlib.Nat.{pow-suc}

abbrev pub Bytes : Type 0
Bytes = List ℕ

abbrev pub IsByte : ℕ → Type 0
IsByte b = b < 256

be_bytes : ℕ → ℕ → Bytes
be_bytes zero n = []
be_bytes (suc w) n = be_bytes w (n / 256) ++ ((n % 256) ∷ [])

from_be : ℕ → Bytes → ℕ
from_be acc [] = acc
from_be acc (b ∷ bs) = from_be (acc * 256 + b) bs

unfoldable pub pack : ℕ → ℕ → Result Bytes
unfolding be_bytes
pack w n = if ltb n (256 ^ w) then ok (be_bytes w n) else raised struct_error

unfoldable pub unpack : ℕ → Bytes → Result ℕ
unfolding from_be
unpack w bs = if length bs == w then ok (from_be 0 bs) else raised struct_error

from_be-snoc : (acc b : ℕ) (bs : Bytes) → from_be acc (bs ++ (b ∷ [])) ≡ from_be acc bs * 256 + b
unfolding from_be
from_be-snoc acc b [] = refl
from_be-snoc acc b (c ∷ bs) = from_be-snoc (acc * 256 + c) b bs

from_be-be_bytes : (w n : ℕ) → n < 256 ^ w → from_be 0 (be_bytes w n) ≡ n
unfolding be_bytes
from_be-be_bytes zero n h = unfold from_be in omega arith
from_be-be_bytes (suc w) n h =
    from_be-snoc 0 (n % 256) (be_bytes w (n / 256))
    ∙ omega (arith, from_be-be_bytes w (n / 256) (omega (arith, pow-suc 256 w)))

length-be_bytes : (w n : ℕ) → length (be_bytes w n) ≡ w
unfolding be_bytes
length-be_bytes zero n = refl
length-be_bytes (suc w) n = rw length-append (omega (arith, length-be_bytes w (n / 256)))

All-append : (P : ℕ → Type 0) (xs ys : Bytes) → All P xs → All P ys → All P (xs ++ ys)
All-append P [] ys h k = k
All-append P (x ∷ xs) ys h k = (h.0, All-append P xs ys h.1 k)

be_bytes-IsByte : (w n : ℕ) → All IsByte (be_bytes w n)
unfolding be_bytes
be_bytes-IsByte zero n = tt
be_bytes-IsByte (suc w) n = All-append IsByte _ _ (be_bytes-IsByte w (n / 256)) (omega arith)

-- A number in range packs into `w` bytes, which unpack to it.
pub pack_lem :
    (w n : ℕ)
    → n < 256 ^ w
    → (bs : Bytes) × (pack w n ≡ ok bs) × (length bs ≡ w) × All IsByte bs × (unpack w bs ≡ ok n)
unfolding pack unpack
pack_lem w n h = (
  be_bytes w n,
  ground arith,
  length-be_bytes w n,
  be_bytes-IsByte w n,
  ground (arith, length-be_bytes w n, from_be-be_bytes w n h),
)

pub length-pack : (w n : ℕ) (bs : Bytes) → pack w n ≡ ok bs → length bs ≡ w
unfolding pack
length-pack w n bs h = ground (arith, length-be_bytes w n)

pub unpack-pack : (w n : ℕ) (bs : Bytes) → pack w n ≡ ok bs → unpack w bs ≡ ok n
unfolding pack unpack
unpack-pack w n bs h = ground (arith, length-be_bytes w n, from_be-be_bytes w n)

pub pack_range : (w n : ℕ) (bs : Bytes) → pack w n ≡ ok bs → n < 256 ^ w
unfolding pack
pack_range w n bs h = ground arith

-- `unpack` of the right number of bytes never raises.
pub unpack_total : (w : ℕ) (bs : Bytes) → length bs ≡ w → (n : ℕ) × (unpack w bs ≡ ok n)
unfolding unpack
unpack_total w bs h = (from_be 0 bs, ground arith)
