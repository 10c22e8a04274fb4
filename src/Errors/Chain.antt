-- ===== src/Errors/Chain.antt =====
-- `is_invalid_auth_error` of custom_components/aqara_u200/client.py: the walk along the causes of
-- an exception, which may run into a cycle.
pub mod Terminates
pub mod Finds
pub mod Correct
use haos_aqara.Base.{
  ℕ, zero, suc, ◌+◌, Bool, true, false, ◌||◌, Option, none, some, List, [], ◌∷◌, get_elem?, length,
  ◌==◌, nat_eq, if◌then◌else◌,
}
use haos_aqara.Errors.{
  LibraryClass, cloud_service, u200_client, operation_in_progress, bleak, timeout, other, Node,
  Objects, Raised, aqara, cancelled, library,
}

-- `isinstance(current, CloudServiceError) and current.is_code(810)`
unfoldable pub is_invalid_auth : LibraryClass → Bool
is_invalid_auth (cloud_service is_code) = is_code 810
is_invalid_auth _ = false

-- `id(current) in seen`
pub contains : ℕ → List ℕ → Bool
contains i [] = false
contains i (j ∷ seen) = i == j || contains i seen

-- `current.__cause__ or current.__context__`
pub next : Node → Option ℕ
next node = elim node.cause [ none ↦ node.context | some i ↦ some i ]

-- The `while` loop. A step without fuel gives `none`.
pub walk : ℕ → Objects → Option ℕ → List ℕ → Option Bool
walk fuel objects none seen = some false
walk zero objects (some i) seen = none
walk (suc fuel) objects (some i) seen = elim (get_elem? objects i) [
  | none ↦ some false
  | some node ↦
      let rest = walk fuel objects (next node) (i ∷ seen) in
      if contains i seen then some false else if is_invalid_auth node.class then some true else rest
]

-- One round more than there are objects: see `walk_total`.
unfoldable pub is_invalid_auth_error : Objects → ℕ → Bool
unfolding walk next contains is_invalid_auth
is_invalid_auth_error objects i = elim (walk (suc (length objects)) objects (some i) []) [
  | none ↦ false
  | some found ↦ found
]

-- `isinstance(err, U200ClientError) and err.phase is FlowPhase.LOGIN`
unfoldable pub is_login_failure : LibraryClass → Bool
is_login_failure (u200_client at_login) = at_login
is_login_failure _ = false

-- The class of the exception itself.
unfoldable pub class_of : Objects → ℕ → LibraryClass
class_of objects i = elim (get_elem? objects i) [ none ↦ other | some node ↦ node.class ]

-- The test of every `except Exception` clause of the adapter for a refusal of the credentials.
unfoldable pub is_auth_failure : Raised → Bool
is_auth_failure (aqara e) = false
is_auth_failure cancelled = false
is_auth_failure (library objects i) =
    is_invalid_auth_error objects i || is_login_failure (class_of objects i)

-- `isinstance(err, (BleakConnectionError, BleakError, TimeoutError))`
unfoldable pub is_connect_failure : Raised → Bool
unfolding class_of
is_connect_failure (library objects i) = elim (class_of objects i) [
  | bleak ↦ true
  | timeout ↦ true
  | _ ↦ false
]
is_connect_failure _ = false
