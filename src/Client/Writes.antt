-- ===== src/Client/Writes.antt =====
-- The settings that `AqaraU200BleClientAdapter` (custom_components/aqara_u200/client.py) writes.
pub mod Acknowledged
use haos_aqara.Base.{ℕ, Bool, Option, none, some, String, List, [], ◌∷◌}
use haos_aqara.Errors.{Raised, Result, ok, err, aqara, operation, library, other}
use haos_aqara.Exec.{Exec, pure, raise, ◌>>=◌}
use haos_aqara.Boundary.{Call}
use haos_aqara.Client.Library.{Library, LockOperationWrite}
use haos_aqara.Client.Session.{Adapter, Session}
use haos_aqara.Client.Reads.{one_read}

-- What `results[0]` raises where there is no result.
abbrev pub index_error : Raised
index_error =
    library (record { class = other; name = "IndexError"; cause = none; context = none } ∷ []) 0

-- `results[0][1]`
unfoldable pub first_reply : Result (List (String × Option String)) → Result (Option String)
first_reply (ok []) = err index_error
first_reply (ok ((frame, reply) ∷ results)) = ok reply
first_reply (err e) = err e

module _ {D G P A E : Type 0} (lib : Library D G P A E) (self : Adapter A) where
  -- `_writer` of `_async_send_write`
  unfoldable pub send_frame : LockOperationWrite → P → Call E (Option String)
  unfolding first_reply
  send_frame write client e =
      let (results, callbacks, e') = lib.read_burst client (write ∷ []) e in
      (first_reply results, callbacks, e')

  -- `if response is None: raise ...`
  unfoldable pub require_reply : Option String → Exec (Session G E) (Unit {0})
  require_reply none = raise (aqara operation)
  require_reply (some response) = pure tt

  -- `_async_send_write`
  unfoldable pub send_write : LockOperationWrite → Exec (Session G E) (Unit {0})
  unfolding one_read send_frame require_reply
  send_write write = do response ← one_read lib self (send_frame write); require_reply response

  unfoldable pub async_set_alert_delay : ℕ → Exec (Session G E) (Unit {0})
  unfolding one_read require_reply
  async_set_alert_delay seconds = do
    response ← one_read lib self (λ client. lib.set_alert_delay client seconds)
    require_reply response
