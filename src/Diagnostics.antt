-- ===== src/Diagnostics.antt =====
-- custom_components/aqara_u200/diagnostics.py
pub mod Redacted
use haos_aqara.Base.{
  ℕ, zero, suc, ◌-◌, Bool, Option, none, some, String, List, [], ◌∷◌, ◌++◌, length, Text, codes,
  ◌==◌, nat_eq, if◌then◌else◌,
}
use haos_aqara.Base.Int.{ℤ}
use haos_aqara.Coordinator.State.{RuntimeSnapshot, Operation}

unfoldable pub onto_first : ℕ → List Text → List Text
onto_first c [] = (c ∷ []) ∷ []
onto_first c (part ∷ parts) = (c ∷ part) ∷ parts

-- `address.split(":")`
unfoldable pub split : Text → List Text
unfolding onto_first
split [] = [] ∷ []
split (c ∷ s) = let rest = split s in if c == b':' then [] ∷ rest else onto_first c rest

-- `parts[-2:]`, if there are two
unfoldable pub last_two : List Text → Option (Text × Text)
last_two [] = none
last_two (x ∷ []) = none
last_two (x ∷ y ∷ []) = some (x, y)
last_two (x ∷ y ∷ z ∷ parts) = last_two (y ∷ z ∷ parts)

unfoldable pub drop : ℕ → Text → Text
drop zero s = s
drop (suc n) [] = []
drop (suc n) (c ∷ s) = drop n s

-- `value[-4:]`
unfoldable pub last_four : Text → Text
unfolding drop
last_four value = drop (length value - 4) value

-- `_redact_address`
unfoldable pub redact_address : Text → Text
unfolding split last_two last_four
redact_address address = elim (last_two (split address)) [
  | some (x, y) ↦ codes "**:**:**:**:" ++ (x ++ (b':' ∷ y))
  | none ↦ codes "***" ++ last_four address
]

-- `_suffix`
unfoldable pub suffix : Text → Text
unfolding last_four
suffix [] = codes "***"
suffix (c ∷ value) = codes "***" ++ last_four (c ∷ value)

-- What the function reads of the entry and of its runtime data.
pub record Runtime : Type 0 where
  pub title : Text
  pub version : ℕ
  pub address : Text
  pub device_id : Text
  pub region : Text
  pub snapshot : RuntimeSnapshot

-- The dictionary that it returns.
pub record Diagnostics : Type 0 where
  pub title : Text
  pub version : ℕ
  pub address : Text
  pub device_id_suffix : Text
  pub region : Text
  pub reachable : Bool
  pub last_seen : Option ℕ
  pub rssi : Option ℤ
  pub control_enabled : Bool
  pub operation_in_progress : Bool
  pub last_operation : Option Operation
  pub last_error_type : Option String
  pub control_blocker : Option String

unfoldable pub async_get_config_entry_diagnostics : Runtime → Diagnostics
unfolding redact_address suffix
async_get_config_entry_diagnostics runtime = record {
  title = runtime.title;
  version = runtime.version;
  address = redact_address runtime.address;
  device_id_suffix = suffix runtime.device_id;
  region = runtime.region;
  reachable = runtime.snapshot.reachable;
  last_seen = runtime.snapshot.last_seen;
  rssi = runtime.snapshot.rssi;
  control_enabled = runtime.snapshot.control_enabled;
  operation_in_progress = runtime.snapshot.operation_in_progress;
  last_operation = runtime.snapshot.last_operation;
  last_error_type = runtime.snapshot.last_error_type;
  control_blocker =
      if runtime.snapshot.control_enabled then none else some "control adapter unavailable";
}
