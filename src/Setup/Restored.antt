-- ===== src/Setup/Restored.antt =====
-- That the set-up of custom_components/aqara_u200/__init__.py reads back the key of the entry.
use haos_aqara.Base.{◌≡◌, ap, sym, ℕ, none, some, List, [], ◌∷◌, Text, length, arith}
use haos_aqara.Errors.{ok}
use haos_aqara.Ltmk.{hex, from_hex, from_place}
use haos_aqara.Ltmk.Keys.{IsKey}
use haos_aqara.Ltmk.RoundTrip.{from_hex-hex}
use haos_aqara.Config.Data.{ConfigData, default_region}
use haos_aqara.Config.Cloud.{Cloud, get_or_default}
use haos_aqara.Setup.Credentials.{stored_key, setup_client}

from_hex-empty : (key : List ℕ) → from_hex [] ≡ some key → length key ≡ 0
unfolding from_hex from_place
from_hex-empty key h = let empty : [] ≡ key = cc in ap length (sym empty)

stored_key-from_hex :
    {E : Type 0} (text : Text) (key : List ℕ) (env : E)
    → length key ≡ 32
    → from_hex text ≡ some key
    → stored_key (some text) env ≡ (ok (some key), env)
unfolding stored_key
stored_key-from_hex [] key env valid h = ground (arith, from_hex-empty key h)
stored_key-from_hex (c ∷ text) key env valid h = rw (h, stored_key)

pub stored_key-hex :
    {E : Type 0} (key : List ℕ) (env : E)
    → IsKey key
    → stored_key (some (hex key)) env ≡ (ok (some key), env)
stored_key-hex key env valid =
    stored_key-from_hex (hex key) key env valid.0 (from_hex-hex key valid.1)

module _ {A E : Type 0} (lib : Cloud A E) where
  -- An entry with a key and without an account.
  pub setup_client-local :
      (config : ConfigData) (address device_id : Text) (key : List ℕ) (env : E)
      → config.address ≡ some address
      → config.device_id ≡ some device_id
      → config.account ≡ none
      → config.ltmk ≡ some (hex key)
      → IsKey key
      → setup_client lib config env ≡ (
        ok (record {
          auth = none;
          device_id = device_id;
          region = get_or_default default_region config.region;
          ltmk = some key;
        }),
        env,
      )
  unfolding setup_client
  setup_client-local config address device_id key env a d c l valid =
      rw (a, d, c, l, stored_key-hex key env valid)
