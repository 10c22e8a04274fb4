-- ===== src/Lib.antt =====
-- A model of the Home Assistant integration custom_components/aqara_u200, which operates an Aqara U200
-- door lock over Bluetooth, with proofs of what its parts guarantee.
--
-- The parts and how they interact:
-- * The coordinator (coordinator.py, `AqaraU200Coordinator`) keeps the state that the entities show,
--   serializes everything that needs the connection with one operation lock, and publishes snapshots.
--   Coordinator/State has its fields and `_build_snapshot`; Coordinator/Callbacks what is called back
--   (`_on_realtime_event`, `async_handle_bluetooth_state`) and `await`; Coordinator/Read the reads
--   (`_is_unread`, `_apply_read`, `_async_read_one`, `_async_do_read`); Coordinator/Tally the tally of
--   credentials in `_apply_read`; Coordinator/Operation the operations (`_async_run_operation`,
--   `_async_run_set_operation`) with the presence ladder (`_async_ensure_presence`);
--   Coordinator/Requests the `async_` methods of the entities and services; Coordinator/Refresh
--   `async_refresh_all`, the battery poll, the real-time listen and their start and stop;
--   Coordinator/Interleaving any number of these operations, reads and listens side by side, as steps.
-- * The contract between the coordinator and a lock (client.py, `AqaraU200Client`) is the record `Client`
--   of Boundary, on which all of the coordinator is parametrized.
-- * The adapter (client.py, `AqaraU200BleClientAdapter`) implements the contract on the library aqara-ble
--   and bleak, which are the parameter `Library` of Client/Library. Client/Session is one connection,
--   Client/Reads the reads with their retries, Client/Writes the acknowledged settings, Client/Operate
--   lock, unlock, listen, language and enrolment, Client/Offline the key of the offline sessions;
--   Client/Adapter puts them together as a `Client`.
-- * The config flow (config_flow.py) is Config: Config/Data the data and options of an entry and what the
--   user fills in, Config/Schema the forms, Config/Flow the discovery and the results of a step,
--   Config/Steps the cloud steps, Config/Local the local step and the reauthentication, Config/Options the
--   options flow. Config/Cloud has the set-up helpers of client.py on the cloud part of aqara-ble, the
--   parameter `Cloud`, and Ltmk its `parse_ltmk`. `FlowHost` is what the flow calls of Home Assistant.
-- * The set-up of an entry (__init__.py) is Setup: Setup/Credentials from the data of the entry to the
--   adapter, Setup what `async_setup_entry` registers and starts, with `async_start` of bluetooth.py,
--   Setup/Unload the callbacks of an unload, Setup/Reload what is asked of Home Assistant for one. Frontend
--   is frontend.py with `async_setup`, on the parameter `FrontendHost`.
-- * The entities (lock.py, number.py, select.py, switch.py, button.py, sensor.py, binary_sensor.py) are
--   Entities, each file a module, the sensors one; Entities/Identity is what the `__init__` of each class
--   and the `async_setup_entry` of each platform register; Entities/Surface is the `except` clause that they
--   share, and Entities/Commands all their actions. Diagnostics is diagnostics.py.
-- * Errors has the exceptions (exceptions.py, and what is told apart of the libraries' ones), Errors/Chain
--   `is_invalid_auth_error` of client.py. Bluetooth is bluetooth.py, Const the constants of const.py,
--   Settings the values that are read from the lock and how they are compared.
-- * Base, Exec and Exec/Keeps are shared: lists and equality on the native numbers, a coroutine as a
--   function from a state to a result and the state (what was written before an exception stays), and
--   invariants of such coroutines. Tests applies the theorems at concrete inputs.
--
-- Conventions. A coroutine runs by itself, but in Coordinator/Interleaving. An awaited call returns its
-- result, the list of what was called back while it was awaited (advertisements, events of the lock,
-- reports of an enrolment, requests to stop), and the world behind it; `await` runs the callbacks on the
-- coordinator's state in order. The wait for the operation lock is such a call, after which the lock is
-- held. What the coordinator does to Home Assistant (events, notifications, reauthentication, tasks,
-- published snapshots) is a list of effects, the latest last. In Coordinator/Interleaving the state is
-- the same, the lock has the list of its waiters, `asyncio.Lock` is first come, first served, and a step
-- is what one coroutine does between two places where it may be suspended. A session of the adapter records its steps, the latest first. Texts that serve
-- as tags are data types, with a constructor for every other text where the code falls through. Durations
-- are whole seconds, as all constants are, and the hours between two polls are a whole number. All
-- notifications of a coordinator have one id, and what is created under it replaces what was shown. Exceptions of the libraries are objects with an identity, a
-- class, a cause and a context, which may form a cycle.
--
-- Bounds. The walk along the causes has fuel for one round more than there are objects, which is shown
-- to be enough. The battery poll and the real-time listen run until they are stopped, so their models take
-- the number of rounds that are observed. All other loops are structural.
--
-- Not modelled: messages and log lines; what Home Assistant does with a form, a unique id, the platforms
-- and a background task, which are parameters or left to it; the names, icons and units of the entities;
-- `str.lower` beyond ASCII. A dictionary is a record of optional fields, and a missing key of it raises
-- the `KeyError` of Errors/Builtin.
pub mod Base
pub mod Errors
pub mod Exec
pub mod Const
pub mod Bluetooth
pub mod Settings
pub mod Ltmk
pub mod Config
pub mod Setup
pub mod Entities
pub mod Diagnostics
pub mod Frontend
pub mod Boundary
pub mod Client
pub mod Coordinator
pub mod Tests
