-- ===== src/Entities/Surface.antt =====
-- The `except AqaraU200Error` clause that the actions of all entities have: lock.py, number.py,
-- select.py, switch.py and button.py of custom_components/aqara_u200/.
use haos_aqara.Errors.{Raised, aqara, cancelled, library}
use haos_aqara.Errors.Builtin.{home_assistant_error}
use haos_aqara.Exec.{Exec, raise, catch}
use haos_aqara.Coordinator.State.{World}

unfoldable pub as_home_assistant_error : Raised → Raised
as_home_assistant_error (aqara e) = home_assistant_error
as_home_assistant_error cancelled = cancelled
as_home_assistant_error (library objects i) = library objects i

unfoldable pub surfaced : {E : Type 0} → Exec (World E) Unit → Exec (World E) Unit
unfolding as_home_assistant_error
surfaced request = catch request (λ e. raise (as_home_assistant_error e))
