-- ===== src/Errors/Builtin.antt =====
-- The exceptions of Python and of Home Assistant that the code raises itself, by their class names.
use haos_aqara.Base.{String, none, [], ◌∷◌}
use haos_aqara.Errors.{Raised, library, other}

abbrev raised : String → Raised
raised name = library (record { class = other; name = name; cause = none; context = none } ∷ []) 0

-- A key that a dictionary does not have
abbrev pub key_error : Raised
key_error = raised "KeyError"

abbrev pub value_error : Raised
value_error = raised "ValueError"

abbrev pub config_entry_auth_failed : Raised
config_entry_auth_failed = raised "ConfigEntryAuthFailed"

abbrev pub home_assistant_error : Raised
home_assistant_error = raised "HomeAssistantError"
