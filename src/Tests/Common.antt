-- ===== src/Tests/Common.antt =====
-- common/bytes32.go at small inputs.
use relayer.Base.{ℕ, zero, suc, ◌<◌, [], ◌∷◌, Bytes, false, ok, ◌≡◌, refl, arith}
use relayer.P2p.Leader.{encode_to_string, hex_digit, is_empty}
use relayer.Common.Bytes32.{
  copy_into, to_bytes32, trim_left, trim_right, to_string, to_hex, from_hex_char, hex_byte,
  hex_decode, trim_prefix, from_hex,
}
use relayer.Common.Bytes32.RoundTrips.{IsBytes}

program : Unit {0}
unfolding copy_into to_bytes32 trim_left trim_right to_string to_hex from_hex_char hex_byte
    hex_decode trim_prefix from_hex encode_to_string hex_digit is_empty
program = tt

abbrev bridge : Bytes
bridge = 98 ∷ 114 ∷ 105 ∷ 100 ∷ 103 ∷ 101 ∷ []

-- A zero byte at the end of a text is lost.
loses_zero : to_string (copy_into 4 (98 ∷ 0 ∷ [])) ≡ 98 ∷ []
unfolding program
loses_zero = refl

refuses_letters : from_hex (103 ∷ 103 ∷ []) ≡ ok (copy_into 32 [], false)
unfolding program
refuses_letters = refl

abbrev counted : ℕ → Bytes
counted zero = []
counted (suc n) = n ∷ counted n

counted-IsBytes : (n : ℕ) → n < 257 → IsBytes (counted n)
counted-IsBytes zero h = tt
counted-IsBytes (suc n) h = (omega arith, counted-IsBytes n (omega arith))
