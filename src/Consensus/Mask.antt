-- ===== src/Consensus/Mask.antt =====
-- The masks of signers, `big.Int`s that are never negative, with the methods of math/big that
-- consensus/session/tlc.go calls, and its `Popcount`.
pub mod Bits
pub mod Count
use Prim.Native.Nat.{bit_and}
use relayer.Base.{
  ℕ, zero, suc, ◌+◌, ◌-◌, ◌*◌, ◌/◌, ◌%◌, ◌^◌, ◌==◌, if◌then◌else◌, List, [], ◌∷◌, Option, none,
  some,
}

-- `Bit(i)` and `SetBit(_, i, 1)`
unfoldable pub bit : ℕ → ℕ → ℕ
bit z zero = z % 2
bit z (suc i) = bit (z / 2) i

unfoldable pub set_bit : ℕ → ℕ → ℕ
set_bit z zero = z / 2 * 2 + 1
set_bit z (suc i) = set_bit (z / 2) i * 2 + z % 2

-- `z.Bits()`: the 64-bit words of z, the least significant first, none of them for 0. The first
-- argument bounds their number; z itself is enough.
unfoldable pub words : ℕ → ℕ → List ℕ
words zero z = []
words (suc n) z = if z == 0 then [] else (z % 2 ^ 64) ∷ words n (z / 2 ^ 64)

-- the inner loop of `Popcount`, on fuel; `none` means that the fuel ran out
unfoldable pub count_word : ℕ → ℕ → ℕ → Option ℕ
count_word zero x count = none
count_word (suc fuel) x count =
    let rest = count_word fuel (bit_and x (x - 1)) (count + 1) in
    if x == 0 then some count else rest

-- the outer loop; a word has 64 bits, so its loop ends within 65 tests
unfoldable pub count_words : List ℕ → ℕ → Option ℕ
count_words [] count = some count
count_words (x ∷ xs) count = elim (count_word 65 x count) [
  | some count' ↦ count_words xs count'
  | none ↦ none
]

unfoldable pub popcount : ℕ → Option ℕ
popcount z = count_words (words z z) 0
