-- ===== src/Diagnostics/Redacted.antt =====
-- What custom_components/aqara_u200/diagnostics.py leaves of the address and of the device id.
use haos_aqara.Base.{◌≡◌, false, some, List, ◌∷◌, Text, ◌==◌, nat_eq, All}
use haos_aqara.Diagnostics.{last_two, Runtime, Diagnostics, async_get_config_entry_diagnostics}

abbrev pub IsPart : Text → Type 0
IsPart = All (λ c. (c == b':') ≡ false)

-- Three parts or more, of which these are the last.
record EndsWith (x y : Text) (parts : List Text) : Type 0 where
  first : Text
  second : Text
  third : Text
  others : List Text
  all : parts ≡ first ∷ second ∷ third ∷ others
  last : last_two (second ∷ third ∷ others) ≡ some (x, y)

-- The diagnostics of an entry that has this address and this device id, and is otherwise `runtime`.
abbrev pub diagnostics_of : Runtime → (address device_id : Text) → Diagnostics
diagnostics_of runtime address device_id =
    async_get_config_entry_diagnostics (record runtime { address = address; device_id = device_id })
