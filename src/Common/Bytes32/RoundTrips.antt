-- ===== src/Common/Bytes32/RoundTrips.antt =====
-- What common/bytes32.go reads back of what it wrote.
use relayer.Base.{
  ℕ, zero, suc, ◌+◌, ◌*◌, ◌/◌, ◌%◌, ◌<◌, ◌≤◌, [], ◌∷◌, Bytes, length, none, some, true, ok, panic,
  index_out_of_range, ◌≡◌, ◌⊎◌, inl, inr, Bool-cases, ltb, refl, ◌∙◌, ap, arith,
}
use relayer.P2p.Leader.{encode_to_string, hex_digit, is_empty}
use relayer.Common.Bytes32.{
  copy_into, to_bytes32, trim_left, trim_right, to_string, to_hex, from_hex_char, hex_byte,
  hex_decode, trim_prefix, from_hex,
}

-- No byte of a text is zero.
abbrev pub HasNoZero : Bytes → Type 0
HasNoZero [] = Unit {0}
HasNoZero (b ∷ bs) = (0 < b) × HasNoZero bs

-- They are bytes.
abbrev pub IsBytes : Bytes → Type 0
IsBytes [] = Unit {0}
IsBytes (b ∷ bs) = (b < 256) × IsBytes bs

trim_right-copy_into :
    (n : ℕ) (s : Bytes) → HasNoZero s → length s ≤ n → trim_right (copy_into n s) ≡ s
unfolding trim_right copy_into is_empty
trim_right-copy_into zero [] h l = refl
trim_right-copy_into zero (b ∷ s) h l = absurd (omega arith)
trim_right-copy_into (suc n) [] h l = ground (arith, trim_right-copy_into n [] tt)
trim_right-copy_into (suc n) (b ∷ s) h l =
    let rest : trim_right (copy_into n s) ≡ s = trim_right-copy_into n s h.1 (omega arith) in
    ground (arith, rest, h.0)

trim_left_zeros : (n : ℕ) → trim_left (copy_into n []) ≡ []
unfolding trim_left copy_into
trim_left_zeros zero = refl
trim_left_zeros (suc n) = trim_left_zeros n

trim_left-copy_into :
    (n : ℕ) (s : Bytes) → HasNoZero s → length s ≤ n → trim_right (trim_left (copy_into n s)) ≡ s
unfolding trim_left trim_right copy_into
trim_left-copy_into n [] h l = ap trim_right (trim_left_zeros n)
trim_left-copy_into zero (b ∷ s) h l = absurd (omega arith)
trim_left-copy_into (suc n) (b ∷ s) h l =
    let kept : trim_right (copy_into (suc n) (b ∷ s)) ≡ b ∷ s =
      trim_right-copy_into (suc n) (b ∷ s) h l in
    ground (arith, kept, h.0)

-- A text of at most 32 bytes, none of them zero, is read back from the array that `ToBytes32` puts
-- it in; a longer one is refused.
pub to_string-to_bytes32 :
    (s : Bytes)
    → HasNoZero s
    → ((32 < length s) × (to_bytes32 s ≡ none))
      ⊎ ((b : Bytes) × (to_bytes32 s ≡ some b) × (to_string b ≡ s))
unfolding to_bytes32 to_string
to_string-to_bytes32 s h = elim (Bool-cases (ltb 32 (length s))) [
  | inl long ↦ inl (ground arith, ground arith)
  | inr short ↦ inr (copy_into 32 s, ground arith, trim_left-copy_into 32 s h (ground arith))
]

digit : (n : ℕ) → n < 16 → from_hex_char (hex_digit n) ≡ some n
unfolding from_hex_char hex_digit
digit n h = ground arith

hex_byte-some :
    (p q a b : ℕ)
    → from_hex_char p ≡ some a
    → from_hex_char q ≡ some b
    → hex_byte p q ≡ some (a * 16 + b)
unfolding hex_byte
hex_byte-some p q a b e f = ground (arith, e, f)

hex_byte-digits : (b : ℕ) → b < 256 → hex_byte (hex_digit (b / 16)) (hex_digit (b % 16)) ≡ some b
hex_byte-digits b h =
    hex_byte-some (hex_digit (b / 16)) (hex_digit (b % 16)) (b / 16) (b % 16)
      (digit (b / 16) (omega arith)) (digit (b % 16) (omega arith))
    ∙ ap some (omega arith)

hex_decode-byte :
    (room p q b : ℕ) (rest bs : Bytes)
    → hex_byte p q ≡ some b
    → hex_decode room rest ≡ ok (bs, true)
    → hex_decode (suc room) (p ∷ q ∷ rest) ≡ ok (b ∷ bs, true)
unfolding hex_decode
hex_decode-byte room p q b rest bs e f = ground (arith, e, f)

hex_decode-panic :
    (room p q b : ℕ) (rest : Bytes)
    → hex_byte p q ≡ some b
    → hex_decode room rest ≡ panic index_out_of_range
    → hex_decode (suc room) (p ∷ q ∷ rest) ≡ panic index_out_of_range
unfolding hex_decode
hex_decode-panic room p q b rest e f = ground (arith, e, f)

hex_decode_no_room :
    (p q b : ℕ) (rest : Bytes)
    → hex_byte p q ≡ some b
    → hex_decode 0 (p ∷ q ∷ rest) ≡ panic index_out_of_range
unfolding hex_decode
hex_decode_no_room p q b rest e = ground (arith, e)

hex_decode-encode :
    (room : ℕ) (bs : Bytes)
    → IsBytes bs
    → length bs ≤ room
    → hex_decode room (encode_to_string bs) ≡ ok (bs, true)
unfolding encode_to_string hex_decode
hex_decode-encode zero [] h l = refl
hex_decode-encode (suc room) [] h l = refl
hex_decode-encode zero (b ∷ bs) h l = absurd (omega arith)
hex_decode-encode (suc room) (b ∷ bs) h l =
    hex_decode-byte room _ _ b (encode_to_string bs) bs (hex_byte-digits b h.0)
      (hex_decode-encode room bs h.1 (omega arith))

hex_decode_full :
    (room : ℕ) (bs : Bytes)
    → IsBytes bs
    → room < length bs
    → hex_decode room (encode_to_string bs) ≡ panic index_out_of_range
unfolding encode_to_string
hex_decode_full room [] h l = absurd (omega arith)
hex_decode_full zero (b ∷ bs) h l =
    hex_decode_no_room _ _ b (encode_to_string bs) (hex_byte-digits b h.0)
hex_decode_full (suc room) (b ∷ bs) h l =
    hex_decode-panic room _ _ b (encode_to_string bs) (hex_byte-digits b h.0)
      (hex_decode_full room bs h.1 (omega arith))

copy_into_full : (n : ℕ) (bs : Bytes) → length bs ≡ n → copy_into n bs ≡ bs
unfolding copy_into
copy_into_full zero [] e = refl
copy_into_full zero (b ∷ bs) e = absurd (omega arith)
copy_into_full (suc n) [] e = absurd (omega arith)
copy_into_full (suc n) (b ∷ bs) e = ap (◌∷◌ b) (copy_into_full n bs (omega arith))

-- `FromHex` reads back what `ToHex` wrote of 32 bytes.
pub from_hex-to_hex : (b : Bytes) → IsBytes b → length b ≡ 32 → from_hex (to_hex b) ≡ ok (b, true)
unfolding from_hex to_hex trim_prefix
from_hex-to_hex b h full =
    rw (hex_decode-encode 32 b h (omega arith), full, copy_into_full 32 b full) refl

-- `FromHex` panics on the hexadecimal text of more than 32 bytes.
pub from_hex_long :
    (b : Bytes) → IsBytes b → 32 < length b → from_hex (to_hex b) ≡ panic index_out_of_range
unfolding from_hex to_hex trim_prefix
from_hex_long b h long = rw (hex_decode_full 32 b h long) refl
