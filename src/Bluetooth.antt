-- ===== src/Bluetooth.antt =====
-- custom_components/aqara_u200/bluetooth.py: the reachability of the lock as Home Assistant's
-- Bluetooth reports it.
use haos_aqara.Base.{ℕ, Bool, true, false, Option, none, some}
use haos_aqara.Base.Int.{ℤ}

-- `last_seen` is a time, which is only passed on.
pub record BluetoothState : Type 0 where
  pub reachable : Bool
  pub last_seen : Option ℕ
  pub rssi : Option ℤ

-- `AqaraU200BluetoothManager.__init__`: whether Home Assistant has a connectable device.
unfoldable pub initial_state : Bool → BluetoothState
initial_state has_device = record { reachable = has_device; last_seen = none; rssi = none }

-- What Home Assistant calls back: an advertisement at a time, with the signal strength if the
-- service information has one, or the loss of the device.
pub data Advertisement : Type 0 where
  discovered : (now : ℕ) (rssi : Option ℤ) → Advertisement
  unavailable : Advertisement

-- `_async_discovered` and `_async_unavailable`: the state that is stored and passed on.
unfoldable pub on_advertisement : Advertisement → BluetoothState → BluetoothState
on_advertisement (discovered now rssi) state = record {
  reachable = true;
  last_seen = some now;
  rssi = rssi;
}
on_advertisement unavailable state = record state { reachable = false }
