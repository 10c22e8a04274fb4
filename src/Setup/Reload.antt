-- ===== src/Setup/Reload.antt =====
-- What custom_components/aqara_u200/__init__.py asks of Home Assistant when an entry is unloaded, and
-- when its options have changed.
use haos_aqara.Base.{Bool, List, Text}
use haos_aqara.Exec.{Exec, pure, ◌>>◌}
use haos_aqara.Entities.Identity.Platforms.{Platform, platforms}

-- `hass.config_entries`: the unload of platforms, and the reload of an entry.
pub record ConfigEntries (E : Type 0) : Type 0 where
  pub async_unload_platforms : List Platform → Exec E Bool
  pub async_reload : (entry_id : Text) → Exec E Bool

module _ {E : Type 0} (config_entries : ConfigEntries E) where
  unfoldable pub async_unload_entry : Exec E Bool
  async_unload_entry = config_entries.async_unload_platforms platforms

  -- `_async_reload_on_options`
  unfoldable pub async_reload_on_options : (entry_id : Text) → Exec E Unit
  async_reload_on_options entry_id = do config_entries.async_reload entry_id; pure tt
