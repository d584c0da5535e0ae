-- ===== src/Node/Setup/Bits.antt =====
-- The bits of the mask of `BlsSetup` (node/bridge/node.go).
use relayer.Base.{
  ℕ, zero, suc, ◌+◌, ◌-◌, ◌*◌, ◌/◌, ◌%◌, ◌^◌, ◌<◌, ◌≤◌, ◌≡◌, ◌≢◌, refl, ap, ◌∙◌, arith, ltb,
  if◌then◌else◌, ℕ_discrete,
}
use native.Mathlib.Nat.{pow-suc}
use relayer.Consensus.Mask.{bit}
use relayer.Consensus.Mask.Bits.{bit-zero}
use relayer.Node.Setup.{clear_bit_pos}

pub bit-clear_bit_pos_self : (z i : ℕ) → bit (clear_bit_pos z i) i ≡ 0
unfolding bit clear_bit_pos
bit-clear_bit_pos_self z zero = omega arith
bit-clear_bit_pos_self z (suc i) =
    let half : (clear_bit_pos (z / 2) i * 2 + z % 2) / 2 ≡ clear_bit_pos (z / 2) i = omega arith in
    rw half (bit-clear_bit_pos_self (z / 2) i)

pub bit-clear_bit_pos_ne : (z i j : ℕ) → i ≢ j → bit (clear_bit_pos z i) j ≡ bit z j
unfolding bit clear_bit_pos
bit-clear_bit_pos_ne z zero zero n = absurd (n refl)
bit-clear_bit_pos_ne z zero (suc j) n =
    let half : z / 2 * 2 / 2 ≡ z / 2 = omega arith in rw half refl
bit-clear_bit_pos_ne z (suc i) zero n = omega arith
bit-clear_bit_pos_ne z (suc i) (suc j) n =
    let half : (clear_bit_pos (z / 2) i * 2 + z % 2) / 2 ≡ clear_bit_pos (z / 2) i = omega arith in
    rw half (bit-clear_bit_pos_ne (z / 2) i j (λ e. n (ap suc e)))

-- A number that is not 0 has a bit that is 1.
some_bit : (bound z : ℕ) → 0 < z → z ≤ bound → (i : ℕ) × (bit z i ≡ 1)
unfolding bit
some_bit zero z p q = absurd (omega arith)
some_bit (suc bound) z p q = elim (ℕ_discrete (z % 2) 1) [
  | yes odd ↦ (0, odd)
  | no even ↦ let (i, e) = some_bit bound (z / 2) (omega (arith, even)) (omega arith) in (suc i, e)
]

pub nonzero_bit : (z : ℕ) → 0 < z → (i : ℕ) × (bit z i ≡ 1)
nonzero_bit z p = some_bit z z p (omega arith)

pow_pos : (np : ℕ) → 0 < 2 ^ np
pow_pos zero = omega arith
pow_pos (suc np) = omega (arith, pow_pos np, pow-suc 2 np)

pub bit_all_ones : (np i : ℕ) → bit (2 ^ np - 1) i ≡ (if ltb i np then 1 else 0)
unfolding bit
bit_all_ones zero i = ground (arith, bit-zero i)
bit_all_ones (suc np) zero = ground (arith, pow_pos np, pow-suc 2 np)
bit_all_ones (suc np) (suc i) =
    let half : (2 ^ suc np - 1) / 2 ≡ 2 ^ np - 1 = omega (arith, pow-suc 2 np) in
    rw half (bit_all_ones np i ∙ ground arith)

pub all_ones_pos : (np : ℕ) → 0 < np → 0 < 2 ^ np - 1
all_ones_pos zero p = absurd (omega arith)
all_ones_pos (suc np) p = omega (arith, pow_pos np, pow-suc 2 np)
