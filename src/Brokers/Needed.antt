-- ===== src/Brokers/Needed.antt =====
-- How many brokers a family's walk wants.
use sidewire.Prelude.{ℕ, zero, suc, ◌+◌, ◌-◌, ◌/◌, ◌≤◌, ◌<◌, ◌≡◌, refl, if◌then◌else◌, ltb, arith}
use sidewire.Brokers.Walk.{bits, needed_of}

bits-pos : (fuel n : ℕ) → 0 < n → n ≤ fuel → bits fuel n ≡ bits (fuel - 1) (n / 2) + 1
unfolding bits
bits-pos zero n pos h = absurd (omega arith)
bits-pos (suc fuel) n pos h = ground arith

bits-zero : (fuel : ℕ) → bits fuel 0 ≡ 0
unfolding bits
bits-zero zero = refl
bits-zero (suc fuel) = ground arith

-- The thresholds: no broker below two candidates, one from two, two from four and three from eight.
needed_of-thresholds :
    (n : ℕ) → needed_of n ≡ (if ltb n 2 then 0 else if ltb n 4 then 1 else if ltb n 8 then 2 else 3)
unfolding needed_of
needed_of-thresholds n = ground (
  arith,
  bits-zero n,
  bits-zero (n - 1),
  bits-zero (n - 1 - 1),
  bits-zero (n - 1 - 1 - 1),
  bits-pos n n,
  bits-pos (n - 1) (n / 2),
  bits-pos (n - 1 - 1) (n / 2 / 2),
  bits-pos (n - 1 - 1 - 1) (n / 2 / 2 / 2),
)
