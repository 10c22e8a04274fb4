-- ===== src/Errors.antt =====
-- custom_components/aqara_u200/exceptions.py, and the exceptions of the libraries as far as
-- client.py and coordinator.py tell them apart.
pub mod Builtin
pub mod Chain
use haos_aqara.Base.{ℕ, Bool, true, false, Option, none, some, String, List, get_elem?}

-- The subclasses of `AqaraU200Error`. The base class itself is never raised.
pub data AqaraError : Type 0 where
  bluetooth_unavailable : AqaraError
  authentication : AqaraError
  operation : AqaraError
  presence_required : AqaraError

-- What the code tests of an exception that is not its own. `is_code` and `at_login` (the phase is
-- `FlowPhase.LOGIN`) are answers of the library's objects. `bleak` is a `BleakError` or a
-- `BleakConnectionError`, `timeout` a `TimeoutError`.
pub data LibraryClass : Type 0 where
  cloud_service : (is_code : ℕ → Bool) → LibraryClass
  u200_client : (at_login : Bool) → LibraryClass
  operation_in_progress : LibraryClass
  bleak : LibraryClass
  timeout : LibraryClass
  other : LibraryClass

-- An exception object: its class, `type(err).__name__`, `__cause__` and `__context__`, which are
-- the identities of other objects.
pub record Node : Type 0 where
  pub class : LibraryClass
  pub name : String
  pub cause : Option ℕ
  pub context : Option ℕ

-- The exception objects by their identity.
abbrev pub Objects : Type 0
Objects = List Node

-- A raised exception. `cancelled` is `asyncio.CancelledError`, which is no `Exception`.
pub data Raised : Type 0 where
  aqara : AqaraError → Raised
  cancelled : Raised
  library : Objects → ℕ → Raised

pub data Result {ℓ} (A : Type ℓ) : Type ℓ where
  ok : A → Result A
  err : Raised → Result A

-- `type(err).__name__`
unfoldable pub type_name : Raised → String
type_name (aqara bluetooth_unavailable) = "AqaraU200BluetoothUnavailableError"
type_name (aqara authentication) = "AqaraU200AuthenticationError"
type_name (aqara operation) = "AqaraU200OperationError"
type_name (aqara presence_required) = "AqaraU200PresenceRequiredError"
type_name cancelled = "CancelledError"
type_name (library objects i) = elim (get_elem? objects i) [
  | none ↦ "Exception"
  | some node ↦ node.name
]
