-- ===== src/Ltmk.antt =====
-- `parse_ltmk` of custom_components/aqara_u200/client.py, with the methods of `str` and `bytes` that it
-- uses. Beyond ASCII `lower` is left out: what it makes of such a character is no hexadecimal digit
-- either, nor the `x` of the prefix.
pub mod Keys
pub mod RoundTrip
use haos_aqara.Base.{
  ℕ, ◌+◌, ◌-◌, ◌*◌, ◌/◌, ◌%◌, Bool, true, false, not, ◌&&◌, ◌||◌, Option, none, some, List, [], ◌∷◌,
  ◌++◌, length, Text, ltb, leb, ◌==◌, nat_eq, if◌then◌else◌,
}
use mathlib.Core.List.{reverse, map}

-- `str.isspace` of one character, which `strip` goes by.
unfoldable pub is_space : ℕ → Bool
is_space c =
    (leb 9 c && leb c 13)
    || ((leb 28 c && leb c 32)
        || (c == 0x85
            || (c == 0xa0
                || (c == 0x1680
                    || ((leb 0x2000 c && leb c 0x200a)
                        || (c == 0x2028
                            || (c == 0x2029 || (c == 0x202f || (c == 0x205f || c == 0x3000)))))))))

-- The blanks that `bytes.fromhex` skips.
unfoldable pub is_ascii_space : ℕ → Bool
is_ascii_space c = (leb 9 c && leb c 13) || c == 32

unfoldable pub drop_spaces : Text → Text
unfolding is_space
drop_spaces [] = []
drop_spaces (c ∷ s) = if is_space c then drop_spaces s else c ∷ s

unfoldable pub strip : Text → Text
unfolding drop_spaces
strip s = reverse (drop_spaces (reverse (drop_spaces s)))

-- `lower` of one character
unfoldable pub lower : ℕ → ℕ
lower c = if leb b'A' c && leb c b'Z' then c + 32 else c

-- `removeprefix("0x")`
unfoldable pub remove_0x : Text → Text
remove_0x (c ∷ d ∷ s) = if c == b'0' && d == b'x' then s else c ∷ d ∷ s
remove_0x s = s

-- `replace(c, "")` of one character
unfoldable pub remove : ℕ → Text → Text
remove c [] = []
remove c (d ∷ s) = let rest = remove c s in if d == c then rest else d ∷ rest

-- The value of a hexadecimal digit.
unfoldable pub digit_value : ℕ → Option ℕ
digit_value c =
    if leb b'0' c && leb c b'9'
    then some (c - 48)
    else if leb b'a' c && leb c b'f'
    then some (c - 87)
    else if leb b'A' c && leb c b'F'
    then some (c - 55)
    else none

-- Where `bytes.fromhex` stands: between two bytes, after the first digit of one, or at its `ValueError`.
pub data Place : Type 0 where
  between : Place
  after_digit : ℕ → Place
  failed : Place

unfoldable pub first_digit : Option ℕ → Place
first_digit none = failed
first_digit (some top) = after_digit top

unfoldable pub second_digit : Option ℕ → Place
second_digit none = failed
second_digit (some _) = between

unfoldable pub advance : Place → ℕ → Place
unfolding is_ascii_space first_digit second_digit
advance between c = if is_ascii_space c then between else first_digit (digit_value c)
advance (after_digit _) c = second_digit (digit_value c)
advance failed _ = failed

unfoldable pub push_byte : Place → Option ℕ → Option (List ℕ) → Option (List ℕ)
push_byte (after_digit top) (some bottom) (some bytes) = some ((top * 16 + bottom) ∷ bytes)
push_byte _ _ bytes = bytes

unfoldable pub from_place : Place → Text → Option (List ℕ)
unfolding advance push_byte
from_place between [] = some []
from_place (after_digit _) [] = none
from_place failed [] = none
from_place place (c ∷ s) = push_byte place (digit_value c) (from_place (advance place c) s)

-- `bytes.fromhex`; `none` is its `ValueError`.
unfoldable pub from_hex : Text → Option (List ℕ)
from_hex = from_place between

-- One digit of `bytes.hex`
unfoldable pub digit : ℕ → ℕ
digit n = if ltb n 10 then 48 + n else 87 + n

-- `bytes.hex`
unfoldable pub hex : List ℕ → Text
unfolding digit
hex [] = []
hex (b ∷ bytes) = digit (b / 16) ∷ digit (b % 16) ∷ hex bytes

unfoldable pub require_32 : Option (List ℕ) → Option (List ℕ)
require_32 none = none
require_32 (some raw) = if length raw == 32 then some raw else none

unfoldable pub cleaned : Text → Text
unfolding strip lower remove_0x remove
cleaned value = remove 32 (remove b':' (remove_0x (map lower (strip value))))

-- `parse_ltmk`; `none` is its `ValueError`.
unfoldable pub parse_ltmk : Text → Option (List ℕ)
unfolding cleaned from_hex require_32
parse_ltmk value = require_32 (from_hex (cleaned value))
