-- ===== src/Ledger/Merkle/Bounds.antt =====
-- Where the tree splits (checkpoint.go, `largestPowerOfTwoLessThan`).
use native.Mathlib.Omega.{pow_step}
use vigia.Prelude.{
  ℕ, zero, suc, ◌+◌, ◌*◌, ◌^◌, ◌≤◌, ◌<◌, ◌≡◌, refl, some, arith, inl, inr, ltb, Bool-cases,
}
use vigia.Ledger.Merkle.{doubled, largest_power_of_two_less_than}

-- A power of two below `n`, with no other between.
pub record IsSplit (n k : ℕ) : Type 0 where
  pub exponent : ℕ
  pub power : k ≡ 2 ^ exponent
  pub below : k < n
  pub half : n ≤ k * 2

doubled-IsSplit :
    (fuel n k e : ℕ)
    → k ≡ 2 ^ e
    → 0 < k
    → k < n
    → n < fuel + k
    → (m : ℕ) × (doubled fuel n k ≡ some m) × IsSplit n m
unfolding doubled
doubled-IsSplit zero n k e p positive low enough = absurd (omega arith)
doubled-IsSplit (suc fuel) n k e p positive low enough = elim (Bool-cases (ltb (k * 2) n)) [
  | inl more ↦ rw more (
      doubled-IsSplit fuel n (k * 2) (suc e) (omega (arith, p, pow_step 2 e)) (omega arith)
        (ground arith) (omega arith))
  | inr stop ↦
      rw stop (k, refl, record { exponent = e; power = p; below = low; half = ground arith })
]

-- For any length of at least two the loop ends, and gives a power of two that is below the length and
-- at least half of it.
pub largest_power_of_two-IsSplit :
    (n : ℕ) → 2 ≤ n → (k : ℕ) × (largest_power_of_two_less_than n ≡ some k) × IsSplit n k
unfolding largest_power_of_two_less_than
largest_power_of_two-IsSplit n h =
    doubled-IsSplit (suc n) n 1 0 refl (omega arith) (omega arith) (omega arith)
