-- ===== src/Client/Session.antt =====
-- One connection of `AqaraU200BleClientAdapter` (custom_components/aqara_u200/client.py): resolve the
-- device, connect, run one call of the library, normalize what it raises and disconnect.
pub mod Ends
pub mod Closes
use haos_aqara.Base.{
  ℕ, zero, suc, Bool, true, false, ◌&&◌, not, Option, none, some, Text, List, [], ◌∷◌, ◌++◌,
  if◌then◌else◌, get_or,
}
use haos_aqara.Errors.{
  Raised, Result, ok, err, aqara, cancelled, authentication, bluetooth_unavailable, operation,
}
use haos_aqara.Errors.Chain.{is_auth_failure, is_connect_failure}
use haos_aqara.Exec.{Exec, pure, raise, gets, modify, attempt, catch, finally, ◌>>=◌, ◌>>◌}
use haos_aqara.Boundary.{Call, Callback}
use haos_aqara.Client.Library.{Library}

-- The fields of the adapter but for Home Assistant and the Bluetooth manager.
pub record Adapter (A : Type 0) : Type 0 where
  pub auth : Option A
  pub device_id : Text
  pub region : Text
  pub ltmk : Option (List ℕ)

-- What the adapter does with a connection. `used` is the call of the library that the connection is for.
pub data Step : Type 0 where
  connecting connected used disconnecting slept : Step

-- The local variables `bleak_client` and `started` (`operation_started`), the steps taken, the latest
-- first, what was called back so far, and the world behind the adapter.
pub record Session (G E : Type 0) : Type 0 where
  pub bleak_client : Option G
  pub started : Bool
  pub steps : List Step
  pub callbacks : List Callback
  pub env : E

abbrev pub disconnect_timeout : ℕ
disconnect_timeout = 10

-- The clauses of `async_change_language`, `async_enrol_credential` and `_async_operate`.
unfoldable pub operate_failed : {X : Type 0} → (started : Bool) → Raised → Result X
operate_failed started cancelled = err cancelled
operate_failed started e =
    if is_auth_failure e
    then err (aqara authentication)
    else if not started && is_connect_failure e
    then err (aqara bluetooth_unavailable)
    else err (aqara operation)

-- The clauses of `async_listen_realtime`.
unfoldable pub listen_failed : {X : Type 0} → (started : Bool) → Raised → Result X
listen_failed started cancelled = err cancelled
listen_failed started e =
    if is_auth_failure e then err (aqara authentication) else err (aqara operation)

-- The clauses of `_async_one_read`.
unfoldable pub read_failed : {X : Type 0} → (started : Bool) → Raised → Result (Option X)
read_failed started cancelled = err cancelled
read_failed started e = if is_auth_failure e then err (aqara authentication) else ok none

-- The clauses around the disconnection: `_async_one_read` and `async_listen_realtime` let nothing out.
unfoldable pub ignore_all : Result (Unit {0}) → Result (Unit {0})
ignore_all _ = ok tt

-- The others let a cancellation out.
unfoldable pub ignore_exception : Result (Unit {0}) → Result (Unit {0})
ignore_exception (err cancelled) = err cancelled
ignore_exception _ = ok tt

module _ {G E : Type 0} where
  unfoldable pub step : Step → Session G E → Session G E
  step x s = record s { steps = x ∷ s.steps }

  -- `await call`
  unfoldable pub await : {X : Type 0} → Call E X → Exec (Session G E) X
  await call s =
      ((call s.env).0, record s { callbacks = s.callbacks ++ (call s.env).1; env = (call s.env).2 })

  -- `bleak_client = None` and `started = False`
  unfoldable pub fresh : Session G E → Session G E
  fresh s = record s { bleak_client = none; started = false }

  unfoldable pub connected_to : G → Session G E → Session G E
  connected_to bleak_client s = record s {
    bleak_client = some bleak_client;
    steps = connected ∷ s.steps;
  }

  unfoldable pub start : Session G E → Session G E
  start s = record s { started = true }

  -- The call of the library that the connection is for, whatever `started` is by then.
  unfoldable pub invoke : {X : Type 0} → Call E X → Exec (Session G E) X
  unfolding step await
  invoke call = do modify (step used); await call

  unfoldable pub give : {X : Type 0} → Result X → Exec (Session G E) X
  give r s = (r, s)

  unfoldable pub recover : {X : Type 0} → (Bool → Raised → Result X) → Raised → Exec (Session G E) X
  unfolding give
  recover failed e = do started ← gets (λ s. s.started); give (failed started e)

module _ {D G P A E : Type 0} (lib : Library D G P A E) (self : Adapter A) where
  -- `ble_device_callback`
  unfoldable pub ble_device_callback : D → E → D
  ble_device_callback ble_device e = elim (lib.async_ble_device_from_address e) [
    | none ↦ ble_device
    | some found ↦ found
  ]

  unfoldable pub from_gatt : G → Exec (Session G E) P
  from_gatt bleak_client s =
      let (r, env) =
        lib.from_gatt self.auth bleak_client self.device_id self.region self.ltmk s.env in
      (r, record s { env = env })

  unfoldable pub connect : D → Exec (Session G E) P
  unfolding step await connected_to from_gatt ble_device_callback
  connect ble_device = do
    modify (step connecting)
    bleak_client ← await (lib.establish_connection ble_device (ble_device_callback ble_device))
    modify (connected_to bleak_client)
    from_gatt bleak_client

  -- `if bleak_client is not None: ...`
  unfoldable pub disconnect :
      (Result (Unit {0}) → Result (Unit {0})) → Option G → Exec (Session G E) (Unit {0})
  unfolding step await give
  disconnect except none = pure tt
  disconnect except (some bleak_client) = do
    modify (step disconnecting)
    outcome ← attempt (await (lib.disconnect disconnect_timeout bleak_client))
    give (except outcome)

  unfoldable pub release : (Result (Unit {0}) → Result (Unit {0})) → Exec (Session G E) (Unit {0})
  unfolding disconnect
  release except = do bleak_client ← gets (λ s. s.bleak_client); disconnect except bleak_client

  unfoldable pub body : {X : Type 0} → D → (P → Call E X) → Exec (Session G E) X
  unfolding connect start invoke
  body ble_device call = do
    protocol_client ← connect ble_device
    modify start
    invoke (call protocol_client)

  -- The `try` that every operation of the adapter has, with its clauses and its `finally`.
  unfoldable pub run_session :
      {X : Type 0}
      → (failed : Bool → Raised → Result X) → (except : Result (Unit {0}) → Result (Unit {0})) → D
      → (P → Call E X)
      → Exec (Session G E) X
  unfolding fresh body recover release
  run_session failed except ble_device call = do
    modify fresh
    finally (catch (body ble_device call) (recover failed)) (release except)
