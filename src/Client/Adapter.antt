-- ===== src/Client/Adapter.antt =====
-- `AqaraU200BleClientAdapter` as an implementation of the contract `AqaraU200Client`
-- (custom_components/aqara_u200/client.py), which the coordinator works with.
use haos_aqara.Base.{true, false, none, []}
use haos_aqara.Exec.{Exec}
use haos_aqara.Boundary.{Call, Client}
use haos_aqara.Client.Library.{Library}
use haos_aqara.Client.Session.{Adapter, Session}
use haos_aqara.Client.Reads.{
  async_read_settings, read_value, async_read_user_table, async_add_visitor_password,
  async_delete_user, async_read_front_connection, async_read_battery, async_read_lock_status,
  async_read_alert_delay,
}
use haos_aqara.Client.Writes.{send_write, async_set_alert_delay}
use haos_aqara.Client.Offline.{offline_enabled}
use haos_aqara.Client.Operate.{
  async_read_state, async_lock, async_unlock, async_listen_realtime, async_change_language,
  async_enrol_credential,
}

module _ {G E : Type 0} where
  -- The state in which a call of the adapter starts.
  unfoldable pub idle : E → Session G E
  idle e = record { bleak_client = none; started = false; steps = []; callbacks = []; env = e }

  -- A call of the adapter, as its caller sees it.
  unfoldable pub as_call : {X : Type 0} → Exec (Session G E) X → Call E X
  unfolding idle
  as_call m e = ((m (idle e)).0, (m (idle e)).1.callbacks, (m (idle e)).1.env)

module _ {D G P A E : Type 0} (lib : Library D G P A E) (self : Adapter A) where
  unfoldable pub adapter : Client E
  unfolding as_call
  adapter = record {
    control_enabled = true;
    offline_enabled = offline_enabled self;
    async_read_user_table = as_call (async_read_user_table lib self);
    async_add_visitor_password =
        λ pin group_id. as_call (async_add_visitor_password lib self pin group_id);
    async_delete_user = λ user_id. as_call (async_delete_user lib self user_id);
    async_read_front_connection = as_call (async_read_front_connection lib self);
    async_enrol_credential =
        λ group kind timeout. as_call (async_enrol_credential lib self group kind timeout);
    async_lock = as_call (async_lock lib self);
    async_unlock = as_call (async_unlock lib self);
    async_read_state = λ listen_after. as_call (async_read_state lib self listen_after);
    async_listen_realtime = λ seconds. as_call (async_listen_realtime lib self seconds);
    async_read_battery = as_call (async_read_battery lib self);
    async_read_lock_status = as_call (async_read_lock_status lib self);
    async_read_door_type = as_call (read_value lib self lib.read_door_type);
    async_read_assist_turn = as_call (read_value lib self lib.read_assist_turn);
    async_read_pull_spring = as_call (read_value lib self lib.read_pull_spring);
    async_read_auxiliary_locking = as_call (read_value lib self lib.read_auxiliary_locking);
    async_read_settings = as_call (async_read_settings lib self);
    async_read_system_volume = as_call (read_value lib self lib.read_system_volume);
    async_read_language = as_call (read_value lib self lib.read_language);
    async_read_alarm_volume = as_call (read_value lib self lib.read_alarm_volume);
    async_read_alert_volume = as_call (read_value lib self lib.read_alert_volume);
    async_read_auto_lockup_delay = as_call (read_value lib self lib.read_auto_lockup_delay);
    async_read_auto_lock_time = as_call (read_value lib self lib.read_auto_lock_time);
    async_read_verify_fail_time = as_call (read_value lib self lib.read_verify_fail_time);
    async_read_alert_delay = as_call (async_read_alert_delay lib self);
    async_set_assist_turn =
        λ enabled. as_call (send_write lib self (lib.build_set_assist_turn enabled));
    async_set_auxiliary_locking = λ touch close resume any.
        as_call (send_write lib self (lib.build_set_auxiliary_locking touch close resume any));
    async_set_alert_volume =
        λ level. as_call (send_write lib self (lib.build_set_alert_volume level));
    async_set_alarm_volume =
        λ silent. as_call (send_write lib self (lib.build_set_alarm_volume silent));
    async_set_alert_delay = λ seconds. as_call (async_set_alert_delay lib self seconds);
    async_set_verify_fail_time =
        λ seconds. as_call (send_write lib self (lib.build_set_verify_fail_time seconds));
    async_set_auto_lockup_relock_delay =
        λ seconds. as_call (send_write lib self (lib.build_set_auto_lockup_delay_time seconds));
    async_set_auto_lock_on_close_delay = λ seconds.
        as_call (send_write lib self (lib.build_set_auto_lock_on_close_delay_time seconds));
    async_enable_auxiliary_locking_on_close =
        as_call (send_write lib self lib.build_set_auxiliary_locking_on_close_enabled);
    async_enable_auxiliary_locking_relock =
        as_call (send_write lib self lib.build_set_auxiliary_locking_relock_enabled);
    async_change_language = λ language. as_call (async_change_language lib self language);
  }
