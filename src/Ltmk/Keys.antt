-- ===== src/Ltmk/Keys.antt =====
-- The keys that `parse_ltmk` of custom_components/aqara_u200/client.py answers.
use haos_aqara.Base.{
  ℕ, ◌<◌, ◌≡◌, subst, eq_of_nat_beq, Option, none, some, List, [], ◌∷◌, length, Text, ◌==◌, nat_eq,
  arith, All, Bool-cases, inl, inr,
}
use haos_aqara.Ltmk.{
  digit_value, push_byte, from_place, from_hex, Place, between, after_digit, failed, advance,
  second_digit, first_digit, require_32, cleaned, hex, parse_ltmk, is_ascii_space,
}
use haos_aqara.Ltmk.RoundTrip.{IsByte, parse_ltmk-hex}

IsDigit : Option ℕ → Type 0
IsDigit none = Unit
IsDigit (some n) = n < 16

digit_value-IsDigit : (c : ℕ) → IsDigit (digit_value c)
unfolding digit_value IsDigit
digit_value-IsDigit c = ground arith

-- A first digit that was read is less than 16.
IsSound : Place → Type 0
IsSound between = Unit
IsSound (after_digit top) = top < 16
IsSound failed = Unit

first_digit-IsSound : (d : Option ℕ) → IsDigit d → IsSound (first_digit d)
unfolding first_digit IsDigit IsSound
first_digit-IsSound none p = tt
first_digit-IsSound (some top) p = p

second_digit-IsSound : (d : Option ℕ) → IsSound (second_digit d)
unfolding second_digit IsSound
second_digit-IsSound none = tt
second_digit-IsSound (some _) = tt

between-IsSound : IsSound between
unfolding IsSound
between-IsSound = tt

failed-IsSound : IsSound failed
unfolding IsSound
failed-IsSound = tt

advance-IsSound : (place : Place) (c : ℕ) → IsSound (advance place c)
unfolding advance
advance-IsSound between c = elim (Bool-cases (is_ascii_space c)) [
  | inl e ↦ rw e between-IsSound
  | inr e ↦ rw e (first_digit-IsSound (digit_value c) (digit_value-IsDigit c))
]
advance-IsSound (after_digit top) c = second_digit-IsSound (digit_value c)
advance-IsSound failed c = failed-IsSound

-- Every byte of the key, where there is one.
AllBytes : Option (List ℕ) → Type 0
AllBytes none = Unit
AllBytes (some key) = All IsByte key

push_byte-AllBytes :
    (place : Place) (d : Option ℕ) (rest : Option (List ℕ))
    → IsSound place
    → IsDigit d
    → AllBytes rest
    → AllBytes (push_byte place d rest)
unfolding push_byte IsSound IsDigit AllBytes
push_byte-AllBytes (after_digit top) (some n) (some key) p q k = (omega arith, k)
push_byte-AllBytes (after_digit top) none rest p q k = k
push_byte-AllBytes (after_digit top) (some n) none p q k = k
push_byte-AllBytes between d rest p q k = k
push_byte-AllBytes failed d rest p q k = k

from_place-AllBytes : (place : Place) (s : Text) → IsSound place → AllBytes (from_place place s)
unfolding from_place AllBytes
from_place-AllBytes between [] p = tt
from_place-AllBytes (after_digit top) [] p = tt
from_place-AllBytes failed [] p = tt
from_place-AllBytes place (c ∷ s) p =
    push_byte-AllBytes place (digit_value c) (from_place (advance place c) s) p
      (digit_value-IsDigit c) (from_place-AllBytes (advance place c) s (advance-IsSound place c))

-- A 32-byte key
abbrev pub IsKey : List ℕ → Type 0
IsKey key = (length key ≡ 32) × All IsByte key

require_32-IsKey :
    (raw : Option (List ℕ)) → AllBytes raw → (key : List ℕ) → require_32 raw ≡ some key → IsKey key
unfolding require_32 AllBytes
require_32-IsKey none b key h = cc
require_32-IsKey (some raw) b key h = elim (Bool-cases (length raw == 32)) [
  | inl e ↦ let same : raw ≡ key = cc in subst IsKey same (eq_of_nat_beq (length raw) 32 e, b)
  | inr e ↦ cc
]

-- Whatever text `parse_ltmk` is given, a key that it answers has 32 bytes, each of them less than 256,
-- and the hexadecimal text that the config entry keeps of it is read as the same key by `parse_ltmk`.
pub parse_ltmk-IsKey :
    (value : Text) (key : List ℕ)
    → parse_ltmk value ≡ some key
    → IsKey key × (parse_ltmk (hex key) ≡ some key)
unfolding parse_ltmk from_hex
parse_ltmk-IsKey value key h =
    let valid =
      require_32-IsKey (from_hex (cleaned value))
        (from_place-AllBytes between (cleaned value) between-IsSound) key h in
    (valid, parse_ltmk-hex key valid.0 valid.1)
