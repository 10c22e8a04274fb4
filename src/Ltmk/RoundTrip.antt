-- ===== src/Ltmk/RoundTrip.antt =====
-- `parse_ltmk` of custom_components/aqara_u200/client.py on what `bytes.hex` writes, and the keys that it
-- answers.
use haos_aqara.Base.{
  ℕ, ◌+◌, ◌*◌, ◌/◌, ◌%◌, ◌<◌, ◌≡◌, refl, ap, ap₂, ◌∙◌, false, some, List, [], ◌∷◌, length, Text,
  ◌==◌, nat_eq, arith, Bool-cases, inl, inr, All, All-reverse,
}
use mathlib.Core.List.{reverse, map, reverse-reverse}
use haos_aqara.Ltmk.{
  is_space, is_ascii_space, drop_spaces, strip, lower, remove_0x, remove, digit_value, push_byte,
  from_hex, from_place, digit, hex, require_32, cleaned, parse_ltmk,
}

-- What no step of the cleaning touches.
pub record IsPlain (c : ℕ) : Type 0 where
  pub no_space : is_space c ≡ false
  pub no_blank : is_ascii_space c ≡ false
  pub is_lower : lower c ≡ c
  pub no_colon : (c == b':') ≡ false
  pub not_space : (c == 32) ≡ false
  pub no_x : (c == b'x') ≡ false

digit-IsPlain : (n : ℕ) → n < 16 → IsPlain (digit n)
unfolding digit is_space is_ascii_space lower
digit-IsPlain n h = record {
  no_space = ground arith;
  no_blank = ground arith;
  is_lower = ground arith;
  no_colon = ground arith;
  not_space = ground arith;
  no_x = ground arith;
}

digit_value-digit : (n : ℕ) → n < 16 → digit_value (digit n) ≡ some n
unfolding digit digit_value
digit_value-digit n h = ground arith

abbrev pub IsByte : ℕ → Type 0
IsByte b = b < 256

hex-IsPlain : (bytes : List ℕ) → All IsByte bytes → All IsPlain (hex bytes)
unfolding hex
hex-IsPlain [] h = tt
hex-IsPlain (b ∷ bytes) (p, h) =
    let rest : All IsPlain (digit (b % 16) ∷ hex bytes) =
      (digit-IsPlain (b % 16) (omega arith), hex-IsPlain bytes h) in
    (digit-IsPlain (b / 16) (omega arith), rest)

drop_spaces-IsPlain : (s : Text) → All IsPlain s → drop_spaces s ≡ s
unfolding drop_spaces
drop_spaces-IsPlain [] h = refl
drop_spaces-IsPlain (c ∷ s) (p, h) = rw p.no_space

strip-IsPlain : (s : Text) → All IsPlain s → strip s ≡ s
unfolding strip
strip-IsPlain s h =
    ap (λ t. reverse (drop_spaces (reverse t))) (drop_spaces-IsPlain s h)
    ∙ ap reverse (drop_spaces-IsPlain (reverse s) (All-reverse IsPlain s h))
    ∙ reverse-reverse s

lower-IsPlain : (s : Text) → All IsPlain s → map lower s ≡ s
lower-IsPlain [] h = refl
lower-IsPlain (c ∷ s) (p, h) = ap₂ (λ d t. d ∷ t) p.is_lower (lower-IsPlain s h)

remove_0x-IsPlain : (s : Text) → All IsPlain s → remove_0x s ≡ s
unfolding remove_0x
remove_0x-IsPlain [] h = refl
remove_0x-IsPlain (c ∷ []) h = refl
remove_0x-IsPlain (c ∷ d ∷ s) (p, (q, h)) = elim (Bool-cases (c == b'0')) [
  | inl e ↦ rw (e, q.no_x)
  | inr e ↦ rw e
]

remove_colons-IsPlain : (s : Text) → All IsPlain s → remove b':' s ≡ s
unfolding remove
remove_colons-IsPlain [] h = refl
remove_colons-IsPlain (c ∷ s) (p, h) = rw (p.no_colon, remove_colons-IsPlain s h)

remove_blanks-IsPlain : (s : Text) → All IsPlain s → remove 32 s ≡ s
unfolding remove
remove_blanks-IsPlain [] h = refl
remove_blanks-IsPlain (c ∷ s) (p, h) = rw (p.not_space, remove_blanks-IsPlain s h)

cleaned-IsPlain : (s : Text) → All IsPlain s → cleaned s ≡ s
unfolding cleaned
cleaned-IsPlain s h = rw (
  strip-IsPlain s h,
  lower-IsPlain s h,
  remove_0x-IsPlain s h,
  remove_colons-IsPlain s h,
  remove_blanks-IsPlain s h,
)

nibbles : (b : ℕ) → (b / 16) * 16 + b % 16 ≡ b
nibbles b = omega arith

pub from_hex-hex : (bytes : List ℕ) → All IsByte bytes → from_hex (hex bytes) ≡ some bytes
unfolding from_hex hex from_place push_byte
from_hex-hex [] h = refl
from_hex-hex (b ∷ bytes) (p, h) =
    let top : b / 16 < 16 = omega arith in
    let bottom : b % 16 < 16 = omega arith in
    rw (
      (digit-IsPlain (b / 16) top).no_blank,
      digit_value-digit (b / 16) top,
      digit_value-digit (b % 16) bottom,
      from_hex-hex bytes h,
      nibbles b,
    )

-- What `bytes.hex` writes for a key of 32 bytes, `parse_ltmk` reads back as that key.
pub parse_ltmk-hex :
    (key : List ℕ) → length key ≡ 32 → All IsByte key → parse_ltmk (hex key) ≡ some key
unfolding parse_ltmk require_32
parse_ltmk-hex key h bytes =
    rw (cleaned-IsPlain (hex key) (hex-IsPlain key bytes), from_hex-hex key bytes, h)
