-- ===== src/Client/Operate.antt =====
-- The operations of `AqaraU200BleClientAdapter` (custom_components/aqara_u200/client.py) that hold one
-- session: lock and unlock, the real-time listen, the change of the language and the enrolment.
pub mod Failures
pub mod Once
use haos_aqara.Base.{ℕ, Bool, Option, none, some, String, ◌==◌, string_eq, if◌then◌else◌}
use haos_aqara.Errors.{Raised, Result, aqara, bluetooth_unavailable}
use haos_aqara.Exec.{Exec, raise, gets, ◌>>=◌}
use haos_aqara.Boundary.{Call, EnrolKind, EnrolReport}
use haos_aqara.Client.Library.{Library, LockOperation, lock, unlock, keepalive}
use haos_aqara.Client.Session.{
  Adapter, Session, run_session, operate_failed, listen_failed, ignore_all, ignore_exception,
}

-- `_STATE_LISTEN_SECONDS`
abbrev pub state_listen_seconds : ℕ
state_listen_seconds = 3

-- `{"lock": ..., "unlock": ...}.get(operation, LockOperation.KEEPALIVE)`
unfoldable pub lock_operation : String → LockOperation
lock_operation operation =
    if operation == "lock" then lock else if operation == "unlock" then unlock else keepalive

module _ {D G P A E : Type 0} (lib : Library D G P A E) (self : Adapter A) where
  -- The two kinds of `try`, with the refusal of an unreachable device before them.
  unfoldable pub operate_on : {X : Type 0} → Option D → (P → Call E X) → Exec (Session G E) X
  unfolding run_session operate_failed ignore_exception
  operate_on none call = raise (aqara bluetooth_unavailable)
  operate_on (some ble_device) call =
      run_session lib self operate_failed ignore_exception ble_device call

  unfoldable pub listen_on : {X : Type 0} → Option D → (P → Call E X) → Exec (Session G E) X
  unfolding run_session listen_failed ignore_all
  listen_on none call = raise (aqara bluetooth_unavailable)
  listen_on (some ble_device) call = run_session lib self listen_failed ignore_all ble_device call

  unfoldable pub operate_session : {X : Type 0} → (P → Call E X) → Exec (Session G E) X
  unfolding operate_on
  operate_session call = do
    ble_device ← gets (λ s. lib.async_ble_device_from_address s.env)
    operate_on ble_device call

  -- `_async_operate`
  unfoldable pub operate : String → (listen_after : ℕ) → Exec (Session G E) (Option Bool)
  unfolding operate_session lock_operation
  operate operation listen_after =
      operate_session (λ client. lib.operate client (lock_operation operation) listen_after)

  unfoldable pub async_lock : Exec (Session G E) (Option Bool)
  unfolding operate
  async_lock = operate "lock" state_listen_seconds

  unfoldable pub async_unlock : Exec (Session G E) (Option Bool)
  unfolding operate
  async_unlock = operate "unlock" state_listen_seconds

  unfoldable pub async_read_state : ℕ → Exec (Session G E) (Option Bool)
  unfolding operate
  async_read_state listen_after = operate "listen" listen_after

  unfoldable pub async_listen_realtime : ℕ → Exec (Session G E) (Unit {0})
  unfolding listen_on
  async_listen_realtime seconds = do
    ble_device ← gets (λ s. lib.async_ble_device_from_address s.env)
    listen_on ble_device (λ client. lib.listen client seconds)

  unfoldable pub async_change_language : String → Exec (Session G E) (Unit {0})
  unfolding operate_session
  async_change_language language = operate_session (λ client. lib.change_language client language)

  unfoldable pub async_enrol_credential :
      ℕ → EnrolKind → ℕ → Exec (Session G E) (Option EnrolReport)
  unfolding operate_session
  async_enrol_credential user_group_id kind timeout =
      operate_session (λ client. lib.enrol_credential client user_group_id kind timeout)
