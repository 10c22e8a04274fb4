-- ===== src/Tests/Keys.antt =====
-- The theorems on the LTMK, at concrete inputs.
use haos_aqara.Base.{ℕ, zero, suc, ◌<◌, ◌≡◌, refl, some, List, [], ◌∷◌, Text, codes, All, arith}
use haos_aqara.Ltmk.{
  hex, parse_ltmk, require_32, cleaned, strip, drop_spaces, is_space, lower, remove, remove_0x,
  from_hex, from_place, advance, push_byte, first_digit, second_digit, digit_value, is_ascii_space,
}
use haos_aqara.Ltmk.RoundTrip.{IsByte}
use haos_aqara.Ltmk.Keys.{IsKey, parse_ltmk-IsKey}

-- The same byte again and again
abbrev repeat : ℕ → ℕ → List ℕ
repeat zero b = []
repeat (suc n) b = b ∷ repeat n b

pub repeat-IsByte : (n b : ℕ) → b < 256 → All IsByte (repeat n b)
repeat-IsByte zero b h = tt
repeat-IsByte (suc n) b h = (h, repeat-IsByte n b h)

abbrev pub key : List ℕ
key = repeat 32 0xab

pub key-IsByte : All IsByte key
key-IsByte = repeat-IsByte 32 0xab (omega arith)

abbrev typed : Text
typed = codes " 0xABABABAB:ABABABAB ABABABABABABABABABABABABABABABABABABABABABABABAB\n"

parse_ltmk-typed : parse_ltmk typed ≡ some key
unfolding parse_ltmk require_32 cleaned strip drop_spaces is_space lower remove remove_0x from_hex
    from_place advance push_byte first_digit second_digit digit_value is_ascii_space
parse_ltmk-typed = refl

parse_ltmk-IsKey_example : IsKey key × (parse_ltmk (hex key) ≡ some key)
parse_ltmk-IsKey_example = parse_ltmk-IsKey typed key parse_ltmk-typed
