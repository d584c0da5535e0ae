-- ===== src/Consensus/Mask/Bits.antt =====
-- Counting the bits of a number one by one, and what `x & (x - 1)` does to the count.
use Prim.Native.Nat.{bit_and, min, digits, bit_and-bitwise}
use native.Mathlib.Nat.{pow-suc, div-div-eq-div-mul, mul_comm}
use relayer.Base.{
  ℕ, zero, suc, ◌+◌, ◌-◌, ◌*◌, ◌/◌, ◌%◌, ◌^◌, ◌≤◌, ◌<◌, ◌≡◌, refl, ap, arith, ◌≢◌, ◌==◌, Bool-cases,
  inl, inr,
}
use relayer.Consensus.Mask.{bit, set_bit}

-- How many of the lowest `w` bits are set.
unfoldable pub ones_below : ℕ → ℕ → ℕ
ones_below zero z = 0
ones_below (suc w) z = z % 2 + ones_below w (z / 2)

pub ones_below-le : (w z : ℕ) → ones_below w z ≤ w
unfolding ones_below
ones_below-le zero z = omega arith
ones_below-le (suc w) z = omega (arith, ones_below-le w (z / 2))

pub ones_below-zero : (w : ℕ) → ones_below w 0 ≡ 0
unfolding ones_below
ones_below-zero zero = refl
ones_below-zero (suc w) = omega (arith, ones_below-zero w)

-- The bits from `a` on do not count among the lowest `a`.
pub ones_below_low : (a q r : ℕ) → ones_below a (q * 2 ^ a + r) ≡ ones_below a r
unfolding ones_below
ones_below_low zero q r = refl
ones_below_low (suc a) q r =
    let half : (q * 2 ^ suc a + r) / 2 ≡ q * 2 ^ a + r / 2 = rw (pow-suc 2 a) (omega arith) in
    let parity : (q * 2 ^ suc a + r) % 2 ≡ r % 2 = rw (pow-suc 2 a) (omega arith) in
    rw (half, parity) (ap (λ n. r % 2 + n) (ones_below_low a q (r / 2)))

pub ones_below-add : (a b z : ℕ) → ones_below (a + b) z ≡ ones_below a z + ones_below b (z / 2 ^ a)
unfolding ones_below
ones_below-add zero b z =
    let e : zero + b ≡ b = omega arith in
    let e₂ : z / 1 ≡ z = omega arith in rw (e, e₂) (omega arith)
ones_below-add (suc a) b z =
    let e : suc a + b ≡ suc (a + b) = omega arith in
    let e₂ : z / 2 ^ suc a ≡ z / 2 / 2 ^ a =
      rw (pow-suc 2 a, div-div-eq-div-mul z 2 (2 ^ a), mul_comm 2 (2 ^ a)) refl in
    rw (e, e₂) (omega (arith, ones_below-add a b (z / 2)))

-- To set a bit that is not set adds one to the count.
pub ones_below-set_bit :
    (w i z : ℕ) → i < w → ones_below w (set_bit z i) + bit z i ≡ ones_below w z + 1
unfolding ones_below set_bit bit
ones_below-set_bit zero i z h = absurd (omega arith)
ones_below-set_bit (suc w) zero z h =
    let e : (z / 2 * 2 + 1) / 2 ≡ z / 2 = omega arith in rw e (omega arith)
ones_below-set_bit (suc w) (suc i) z h =
    let e : (set_bit (z / 2) i * 2 + z % 2) / 2 ≡ set_bit (z / 2) i = omega arith in
    rw e (omega (arith, ones_below-set_bit w i (z / 2) (omega arith)))

-- A set bit stays set, and so does what stood at the other places.
pub bit-set_bit_self : (z i : ℕ) → bit (set_bit z i) i ≡ 1
unfolding bit set_bit
bit-set_bit_self z zero = omega arith
bit-set_bit_self z (suc i) =
    let e : (set_bit (z / 2) i * 2 + z % 2) / 2 ≡ set_bit (z / 2) i = omega arith in
    rw e (bit-set_bit_self (z / 2) i)

pub bit-set_bit_ne : (z i j : ℕ) → i ≢ j → bit (set_bit z i) j ≡ bit z j
unfolding bit set_bit
bit-set_bit_ne z zero zero h = absurd (h refl)
bit-set_bit_ne z zero (suc j) h = let e : (z / 2 * 2 + 1) / 2 ≡ z / 2 = omega arith in rw e refl
bit-set_bit_ne z (suc i) zero h = omega arith
bit-set_bit_ne z (suc i) (suc j) h =
    let e : (set_bit (z / 2) i * 2 + z % 2) / 2 ≡ set_bit (z / 2) i = omega arith in
    rw e (bit-set_bit_ne (z / 2) i j (λ p. h (ap suc p)))

pub bit-le-one : (z i : ℕ) → bit z i ≤ 1
unfolding bit
bit-le-one z zero = omega arith
bit-le-one z (suc i) = bit-le-one (z / 2) i

pub bit-zero : (i : ℕ) → bit 0 i ≡ 0
unfolding bit
bit-zero zero = refl
bit-zero (suc i) = bit-zero i

pub bit_outside : (w i z : ℕ) → w ≤ i → z < 2 ^ w → bit z i ≡ 0
unfolding bit
bit_outside zero i z le lt = let e : z ≡ 0 = omega arith in rw e (bit-zero i)
bit_outside (suc w) zero z le lt = absurd (omega arith)
bit_outside (suc w) (suc i) z le lt =
    bit_outside w i (z / 2) (omega arith) (omega (arith, pow-suc 2 w))

-- A number below 2 ^ w keeps below it when a bit under w is set.
pub set_bit-lt : (w i z : ℕ) → i < w → z < 2 ^ w → set_bit z i < 2 ^ w
unfolding set_bit
set_bit-lt zero i z h lt = absurd (omega arith)
set_bit-lt (suc w) zero z h lt = rw (pow-suc 2 w) (omega (arith, lt, pow-suc 2 w))
set_bit-lt (suc w) (suc i) z h lt =
    rw (pow-suc 2 w) (
      omega (arith, pow-suc 2 w, set_bit-lt w i (z / 2) (omega arith) (omega (arith, pow-suc 2 w))))

-- The lowest binary digit of a conjunction, and the rest of it.
and_loop_fuel :
    (f g x y : ℕ) → x ≤ f → x ≤ g → digits (λ _. zero) min f x y ≡ digits (λ _. zero) min g x y
and_loop_fuel zero zero x y h k = refl
and_loop_fuel zero (suc g) zero y h k = refl
and_loop_fuel (suc f) zero zero y h k = refl
and_loop_fuel (suc f) (suc g) zero y h k = refl
and_loop_fuel (suc f) (suc g) (suc x) y h k =
    let half : suc x / 2 ≤ x = omega arith in
    omega (arith, and_loop_fuel f g (suc x / 2) (y / 2) (omega arith) (omega arith))
and_loop_fuel f g x y h k = absurd (omega arith)

and_step : (x y : ℕ) → bit_and x y ≡ 2 * bit_and (x / 2) (y / 2) + min (x % 2) (y % 2)
and_step zero y = omega (arith, bit_and-bitwise 0 y, bit_and-bitwise 0 (y / 2))
and_step (suc x) y =
    let half = bit_and-bitwise (suc x / 2) (y / 2) in
    let fuel = and_loop_fuel x (suc x / 2) (suc x / 2) (y / 2) (omega arith) (omega arith) in
    omega (arith, half, fuel, bit_and-bitwise (suc x) y)

and_self : (w a : ℕ) → a < 2 ^ w → bit_and a a ≡ a
and_self zero a h = let e : a ≡ 0 = omega arith in rw e refl
and_self (suc w) a h = omega (arith, and_step a a, and_self w (a / 2) (omega (arith, pow-suc 2 w)))

pub bit_and-le : (w a b : ℕ) → a < 2 ^ w → bit_and a b ≤ a
bit_and-le zero a b h = let e : a ≡ 0 = omega arith in rw e (omega (arith, bit_and-bitwise 0 b))
bit_and-le (suc w) a b h =
    omega (arith, and_step a b, bit_and-le w (a / 2) (b / 2) (omega (arith, pow-suc 2 w)))

-- `x & (x - 1)` clears exactly one bit, the lowest that is set.
pub ones_below-clear :
    (w x : ℕ) → 0 < x → x < 2 ^ w → ones_below w (bit_and x (x - 1)) + 1 ≡ ones_below w x
unfolding ones_below
ones_below-clear zero x pos h = absurd (omega arith)
ones_below-clear (suc w) x pos h = elim (Bool-cases (x % 2 == 1)) [
  | inl odd ↦
      let e : (x - 1) / 2 ≡ x / 2 = ground arith in
      let small : x / 2 < 2 ^ w = omega (arith, pow-suc 2 w) in
      let value : bit_and x (x - 1) ≡ 2 * (x / 2) =
        ground (arith, and_step x (x - 1), e, and_self w (x / 2) small) in
      let halved : 2 * (x / 2) / 2 ≡ x / 2 = omega arith in rw (value, halved) (ground arith)
  | inr even ↦
      let e : (x - 1) / 2 ≡ x / 2 - 1 = ground arith in
      let value : bit_and x (x - 1) ≡ 2 * bit_and (x / 2) (x / 2 - 1) =
        ground (arith, and_step x (x - 1), e) in
      let halved : 2 * bit_and (x / 2) (x / 2 - 1) / 2 ≡ bit_and (x / 2) (x / 2 - 1) =
        omega arith in
      rw (value, halved) (ground (arith, ones_below-clear w (x / 2), pow-suc 2 w))
]
