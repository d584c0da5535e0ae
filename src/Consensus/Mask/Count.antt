-- ===== src/Consensus/Mask/Count.antt =====
-- The loops of `Popcount` of consensus/session/tlc.go against the plain count of bits.
use Prim.Native.Nat.{bit_and}
use native.Mathlib.Nat.{div-add-mod', div-eq_of_lt, pow-suc}
use relayer.Base.{
  ℕ, zero, suc, ◌+◌, ◌-◌, ◌*◌, ◌/◌, ◌%◌, ◌^◌, ◌≤◌, ◌<◌, ◌≡◌, sym, ◌∙◌, ap, arith, ◌==◌, Bool-cases,
  inl, inr, some,
}
use relayer.Consensus.Mask.{words, count_word, count_words, popcount}
use relayer.Consensus.Mask.Bits.{
  ones_below, ones_below-le, ones_below-zero, ones_below_low, ones_below-add, ones_below-clear,
  bit_and-le,
}

-- The inner loop takes one test more than there are bits set.
count_word_lem :
    (fuel w x count : ℕ)
    → x < 2 ^ w
    → ones_below w x < fuel
    → count_word fuel x count ≡ some (count + ones_below w x)
unfolding count_word
count_word_lem zero w x count h f = absurd (omega arith)
count_word_lem (suc fuel) w x count h f = elim (Bool-cases (x == 0)) [
  | inl done ↦ let e : x ≡ 0 = ground arith in rw (e, ones_below-zero w) (ground arith)
  | inr more ↦
      let pos : 0 < x = ground arith in
      let cleared = ones_below-clear w x pos h in
      rw
        (
          more,
          count_word_lem fuel w (bit_and x (x - 1)) (count + 1)
              (omega (arith, bit_and-le w x (x - 1) h)) (omega (arith, cleared)),
        )
        (ap some (omega (arith, cleared)))
]

-- Bits that a number has no room for do not count.
ones_below_wide : (w d z : ℕ) → z < 2 ^ w → ones_below (w + d) z ≡ ones_below w z
ones_below_wide w d z h = rw (ones_below-add w d z, div-eq_of_lt h, ones_below-zero d) (omega arith)

ones_below_word : (z : ℕ) → ones_below 64 (z % 2 ^ 64) ≡ ones_below 64 z
ones_below_word z =
    sym (ones_below_low 64 (z / 2 ^ 64) (z % 2 ^ 64)) ∙ ap (ones_below 64) (div-add-mod' z (2 ^ 64))

-- On the words of a number that k words can hold.
count_words-words :
    (k n z count : ℕ)
    → z ≤ n
    → z < (2 ^ 64) ^ k
    → count_words (words n z) count ≡ some (count + ones_below (64 * k) z)
unfolding count_words words
count_words-words zero zero z count le lt =
    let e : z ≡ 0 = omega arith in rw (e, ones_below-zero) (ap some (omega arith))
count_words-words (suc k) zero z count le lt =
    let e : z ≡ 0 = omega arith in rw (e, ones_below-zero) (ap some (omega arith))
count_words-words zero (suc n) z count le lt =
    let e : z ≡ 0 = omega arith in rw (e, ones_below-zero) (ap some (omega arith))
count_words-words (suc k) (suc n) z count le lt = elim (Bool-cases (z == 0)) [
  | inl done ↦ let e : z ≡ 0 = ground arith in rw (e, ones_below-zero) (ap some (omega arith))
  | inr more ↦
      let pos : 0 < z = ground arith in
      let word =
        count_word_lem 65 64 (z % 2 ^ 64) count (omega arith)
          (omega (arith, ones_below-le 64 (z % 2 ^ 64))) in
      let fits : z / 2 ^ 64 < (2 ^ 64) ^ k = omega (arith, lt, pow-suc (2 ^ 64) k) in
      let rest =
        count_words-words k n (z / 2 ^ 64) (count + ones_below 64 (z % 2 ^ 64)) (omega arith)
          fits in
      let split : 64 * suc k ≡ 64 + 64 * k = omega arith in
      rw (more, count_words, word, rest, split, ones_below-add 64 (64 * k) z, ones_below_word z)
        (ap some (omega arith))
]

pow-le : (w : ℕ) → 2 ^ w ≤ (2 ^ 64) ^ w
pow-le zero = omega arith
pow-le (suc w) = rw (pow-suc 2 w, pow-suc (2 ^ 64) w) (omega (arith, pow-le w))

-- `Popcount` returns, and its value is the number of bits that are set among the lowest w, for
-- every w such that the number is below 2 ^ w.
pub popcount-eq-ones_below : (w z : ℕ) → z < 2 ^ w → popcount z ≡ some (ones_below w z)
unfolding popcount
popcount-eq-ones_below w z h =
    let split : 64 * w ≡ w + 63 * w = omega arith in
    count_words-words w z z 0 (omega arith) (omega (arith, pow-le w))
    ∙ ap some (rw split (omega (arith, ones_below_wide w (63 * w) z h)))
