-- ===== src/Wire/Bits.antt =====
-- Masks on one byte as arithmetic; each is a table over the bytes, checked by evaluation.
use sidewire.Prelude.{
  ℕ, zero, suc, ◌+◌, ◌*◌, ◌/◌, ◌%◌, ◌<◌, bit_and, bit_or, ◌≡◌, refl, Bool, true, ◌&&◌, ◌==◌, ==_iff,
  arith,
}

module _ (p : ℕ → Bool) where
  holds_below : ℕ → Bool
  holds_below zero = true
  holds_below (suc n) = p n && holds_below n

  holds_below→at : (n : ℕ) → holds_below n ≡ true → (i : ℕ) → i < n → p i ≡ true
  unfolding holds_below
  holds_below→at zero h i lt = absurd (omega arith)
  holds_below→at (suc n) h i lt = ground (arith, holds_below→at n (ground arith) i)

module _ (f g : ℕ → ℕ) where
  table : (n : ℕ) → holds_below (λ i. f i == g i) n ≡ true → (i : ℕ) → i < n → f i ≡ g i
  table n h i lt = (==_iff (f i) (g i)).0 (holds_below→at (λ i. f i == g i) n h i lt)

pub and_low7 : (b : ℕ) → b < 256 → bit_and b 0x7f ≡ b % 128
unfolding holds_below
and_low7 = table _ _ 256 refl

pub and_top : (b : ℕ) → b < 256 → bit_and b 0x80 ≡ b / 128 * 128
unfolding holds_below
and_top = table _ _ 256 refl

pub or_top : (b : ℕ) → b < 128 → bit_or b 0x80 ≡ b + 128
unfolding holds_below
or_top = table _ _ 128 refl

pub and_low4 : (b : ℕ) → b < 256 → bit_and b 0x0f ≡ b % 16
unfolding holds_below
and_low4 = table _ _ 256 refl

pub or_nibbles : (b : ℕ) → b < 256 → bit_or (b / 16 * 16) (b % 16) ≡ b
unfolding holds_below
or_nibbles = table _ _ 256 refl

pub and_low2 : (b : ℕ) → b < 16 → bit_and (b / 2) 0x03 ≡ b / 2 % 4
unfolding holds_below
and_low2 = table _ _ 16 refl
