-- ===== src/Common/Bytes32.antt =====
-- common/bytes32.go: strings and hexadecimal text in arrays of 32 bytes. An array is the list of
-- its bytes. `copy`, `bytes.Trim` and encoding/hex are Go's own library.
pub mod RoundTrips
use relayer.Base.{
  ℕ, zero, suc, ◌+◌, ◌-◌, ◌*◌, List, [], ◌∷◌, Bytes, length, Option, none, some, Bool, true, false,
  ltb, leb, ◌==◌, ◌&&◌, if◌then◌else◌, Outcome, ok, panic, index_out_of_range, ◌>>=◌,
}
use relayer.P2p.Leader.{encode_to_string, is_empty}

-- `copy(r[:], s)` into a zeroed array of n bytes
unfoldable pub copy_into : ℕ → Bytes → Bytes
copy_into zero s = []
copy_into (suc n) [] = 0 ∷ copy_into n []
copy_into (suc n) (b ∷ s) = b ∷ copy_into n s

unfoldable pub to_bytes32 : Bytes → Option Bytes
to_bytes32 s = if ltb 32 (length s) then none else some (copy_into 32 s)

-- `bytes.Trim(b, "\000")`
unfoldable pub trim_left : Bytes → Bytes
trim_left [] = []
trim_left (b ∷ bs) = let rest = trim_left bs in if b == 0 then rest else b ∷ bs

unfoldable pub trim_right : Bytes → Bytes
trim_right [] = []
trim_right (b ∷ bs) = let rest = trim_right bs in if is_empty rest && (b == 0) then [] else b ∷ rest

unfoldable pub to_string : Bytes → Bytes
to_string b = trim_right (trim_left b)

unfoldable pub to_hex : Bytes → Bytes
to_hex b = 48 ∷ 120 ∷ encode_to_string b

unfoldable pub from_hex_char : ℕ → Option ℕ
from_hex_char c =
    if leb 48 c && leb c 57
    then some (c - 48)
    else if leb 97 c && leb c 102
    then some (c - 87)
    else if leb 65 c && leb c 70
    then some (c - 55)
    else none

-- one round of the loop of `hex.Decode`: two digits make a byte
unfoldable pub hex_byte : ℕ → ℕ → Option ℕ
hex_byte p q = elim (from_hex_char p) [
  | some a ↦ elim (from_hex_char q) [ some b ↦ some (a * 16 + b) | none ↦ none ]
  | none ↦ none
]

-- `hex.Decode`, with room for the given number of bytes: the bytes written, and whether the error
-- is nil. To write past the end panics.
unfoldable pub hex_decode : ℕ → Bytes → Outcome (Bytes × Bool)
hex_decode room [] = ok ([], true)
hex_decode room (c ∷ []) = ok ([], false)
hex_decode zero (p ∷ q ∷ rest) = elim (hex_byte p q) [
  | some b ↦ panic index_out_of_range
  | none ↦ ok ([], false)
]
hex_decode (suc room) (p ∷ q ∷ rest) =
    let decoded = hex_decode room rest in
    elim (hex_byte p q) [ some b ↦ decoded >>= λ r. ok (b ∷ r.0, r.1) | none ↦ ok ([], false) ]

-- `strings.TrimPrefix(s, "0x")`
unfoldable pub trim_prefix : Bytes → Bytes
trim_prefix [] = []
trim_prefix (c ∷ []) = c ∷ []
trim_prefix (c ∷ d ∷ rest) = if (c == 48) && (d == 120) then rest else c ∷ d ∷ rest

-- The array, and whether the error is nil.
unfoldable pub from_hex : Bytes → Outcome (Bytes × Bool)
from_hex s = hex_decode 32 (trim_prefix s) >>= λ r. ok (copy_into 32 r.0, r.1 && (length r.0 == 32))
