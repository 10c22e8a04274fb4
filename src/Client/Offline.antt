-- ===== src/Client/Offline.antt =====
-- The key of the offline sessions: `__init__` and `async_enable_offline` of
-- `AqaraU200BleClientAdapter` (custom_components/aqara_u200/client.py).
pub mod Keeps
use haos_aqara.Base.{
  ℕ, ◌≡◌, ◌≢◌, refl, ◌⊎◌, inl, inr, Bool, true, false, ◌&&◌, not, Option, none, some, is_some,
  is_none, Text, List, if◌then◌else◌,
}
use haos_aqara.Errors.{Raised, Result, ok, err, cancelled}
use haos_aqara.Boundary.{Call, Callback}
use haos_aqara.Client.Library.{Library}
use haos_aqara.Client.Session.{Adapter}

-- `__init__`; `none` is the `ValueError`.
unfoldable pub new_adapter :
    {A : Type 0}
    → Option A
    → (device_id region : Text) → (ltmk : Option (List ℕ)) → Option (Adapter A)
new_adapter auth device_id region ltmk =
    if is_none auth && is_none ltmk
    then none
    else some (record { auth = auth; device_id = device_id; region = region; ltmk = ltmk })

unfoldable pub offline_enabled : {A : Type 0} → Adapter A → Bool
offline_enabled self = is_some self.ltmk

-- What follows the call of `fetch_ltmk`.
unfoldable pub fetched : {A : Type 0} → Adapter A → Result (List ℕ) → Result Bool × Adapter A
fetched self (ok ltmk) = (ok true, record self { ltmk = some ltmk })
fetched self (err cancelled) = (err cancelled, self)
fetched self (err _) = (ok false, self)

module _ {D G P A E : Type 0} (lib : Library D G P A E) where
  unfoldable pub fetch : Adapter A → A → E → (Result Bool × Adapter A) × E
  unfolding fetched
  fetch self auth e = (
    fetched self (lib.fetch_ltmk auth self.device_id e).0,
    (lib.fetch_ltmk auth self.device_id e).2,
  )

  -- `if self._auth is None: ...`
  unfoldable pub fetch_with : Adapter A → Option A → E → (Result Bool × Adapter A) × E
  unfolding fetch
  fetch_with self none e = ((ok false, self), e)
  fetch_with self (some auth) e = fetch self auth e

  -- `if self._ltmk is not None: ...`
  unfoldable pub enable : Adapter A → Option (List ℕ) → E → (Result Bool × Adapter A) × E
  unfolding fetch_with
  enable self (some ltmk) e = ((ok true, self), e)
  enable self none e = fetch_with self self.auth e

  -- `async_enable_offline`
  unfoldable pub async_enable_offline : Adapter A → E → (Result Bool × Adapter A) × E
  unfolding enable
  async_enable_offline self e = enable self self.ltmk e
