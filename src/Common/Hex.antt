-- ===== src/Common/Hex.antt =====
-- encoding/hex as the program uses it: `EncodeToString` writes two lower-case digits for a byte, and
-- `DecodeString` reads digits of both cases and fails on any other byte and on an odd length.
use betterkey.Prelude.{
  ℕ, ◌+◌, ◌-◌, ◌*◌, ◌/◌, ◌%◌, ◌<◌, ◌≡◌, refl, ◌&&◌, Option, none, some, [], ◌∷◌, arith, leb, ltb,
  if◌then◌else◌, Bytes, All, subst, inl, inr, Option-cases,
}

abbrev pub IsByte : ℕ → Type 0
IsByte b = b < 256

hex_digit : ℕ → ℕ
hex_digit d = if ltb d 10 then b'0' + d else b'a' + (d - 10)

from_hex_char : ℕ → Option ℕ
from_hex_char c =
    if leb b'0' c && leb c b'9'
    then some (c - b'0')
    else if leb b'a' c && leb c b'f'
    then some (c - b'a' + 10)
    else if leb b'A' c && leb c b'F'
    then some (c - b'A' + 10)
    else none

unfoldable pub encode_to_string : Bytes → Bytes
unfolding hex_digit
encode_to_string [] = []
encode_to_string (b ∷ bs) = hex_digit (b / 16) ∷ hex_digit (b % 16) ∷ encode_to_string bs

abbrev join_digits : Option ℕ → Option ℕ → Option Bytes → Option Bytes
join_digits (some h) (some l) (some bs) = some ((h * 16 + l) ∷ bs)
join_digits (some h) (some l) none = none
join_digits (some h) none rest = none
join_digits none low rest = none

unfoldable pub decode_string : Bytes → Option Bytes
unfolding from_hex_char
decode_string [] = some []
decode_string (h ∷ []) = none
decode_string (h ∷ l ∷ bs) = join_digits (from_hex_char h) (from_hex_char l) (decode_string bs)

from_hex_char-hex_digit : (d : ℕ) → d < 16 → from_hex_char (hex_digit d) ≡ some d
unfolding from_hex_char hex_digit
from_hex_char-hex_digit d h = ground arith

-- What was encoded decodes to the same bytes.
pub decode_string-encode_to_string :
    (bs : Bytes) → All IsByte bs → decode_string (encode_to_string bs) ≡ some bs
unfolding decode_string encode_to_string
decode_string-encode_to_string [] h = refl
decode_string-encode_to_string (b ∷ bs) h = ground (
  arith,
  from_hex_char-hex_digit (b / 16),
  from_hex_char-hex_digit (b % 16),
  decode_string-encode_to_string bs,
)

from_hex_char-lt : (c : ℕ) {d : ℕ} → from_hex_char c ≡ some d → d < 16
unfolding from_hex_char
from_hex_char-lt c e = ground arith

hex_digit-lt : (d : ℕ) → d < 16 → hex_digit d < 128
unfolding hex_digit
hex_digit-lt d h = ground arith

-- A hex text is ASCII.
pub encode_to_string-All : (bs : Bytes) → All IsByte bs → All (λ c. c < 128) (encode_to_string bs)
unfolding encode_to_string
encode_to_string-All [] h = tt
encode_to_string-All (b ∷ bs) h = (
  hex_digit-lt (b / 16) (omega arith),
  (hex_digit-lt (b % 16) (omega arith), encode_to_string-All bs h.1),
)

-- Whatever decodes, decodes to bytes.
pub decode_string-All : (s : Bytes) (bs : Bytes) → decode_string s ≡ some bs → All IsByte bs
unfolding decode_string
decode_string-All [] bs e = let p : [] ≡ bs = cc e in subst (All IsByte) p tt
decode_string-All (h ∷ []) bs e = cc
decode_string-All (h ∷ l ∷ s) bs e = elim (Option-cases (from_hex_char h)) [
  | inl p ↦ ground (arith, p)
  | inr (a, p) ↦ elim (Option-cases (from_hex_char l)) [
    | inl q ↦ ground (arith, p, q)
    | inr (b, q) ↦ elim (Option-cases (decode_string s)) [
      | inl r ↦ ground (arith, p, q, r)
      | inr (rest, r) ↦
          let made : (a * 16 + b) ∷ rest ≡ bs = ground (arith, p, q, r) in
          subst (All IsByte) made
            (omega (arith, from_hex_char-lt h p, from_hex_char-lt l q), decode_string-All s rest r)
    ]
  ]
]
