-- ===== src/Frontend.antt =====
-- custom_components/aqara_u200/frontend.py, and `async_setup` of
-- custom_components/aqara_u200/__init__.py, which calls it. What Home Assistant does is the parameter
-- `FrontendHost`.
pub mod Once
use haos_aqara.Base.{
  Bool, true, false, List, [], ◌∷◌, ◌++◌, ◌==◌, list_eq, nat_eq, Text, codes, if◌then◌else◌,
}
use haos_aqara.Exec.{Exec, pure, gets, modify, ◌>>=◌, ◌>>◌}
use haos_aqara.Entities.Identity.{domain}

-- `FRONTEND_URL_PATH` and `FRONTEND_MODULE_URL`
abbrev pub frontend_url_path : Text
frontend_url_path = codes "/aqara_u200_frontend"

abbrev pub frontend_module_url : Text
frontend_module_url = frontend_url_path ++ codes "/aqara-u200-card.js"

-- `StaticPathConfig`
pub record StaticPath : Type 0 where
  pub url_path : Text
  pub path : Text
  pub cache_headers : Bool

-- `hass.http.async_register_static_paths`, `async_get_integration` with the version of what it finds,
-- and the URLs under `DATA_EXTRA_MODULE_URL` with their `add`.
pub record FrontendHost (E : Type 0) : Type 0 where
  pub async_register_static_paths : List StaticPath → Exec E (Unit {0})
  pub async_get_integration : Text → Exec E Text
  pub urls : E → List Text
  pub add : Text → E → E

-- `url in urls`
unfoldable pub contains : Text → List Text → Bool
contains url [] = false
contains url (u ∷ urls) = let rest = contains url urls in if u == url then true else rest

-- `f"{FRONTEND_MODULE_URL}?v={integration.version}"`
unfoldable pub module_url : Text → Text
module_url version = frontend_module_url ++ (codes "?v=" ++ version)

module _ {E : Type 0} (host : FrontendHost E) where
  -- `if module_url not in module_urls.urls: module_urls.add(module_url)`
  unfoldable pub add_if_absent : Text → E → E
  unfolding contains
  add_if_absent url e = if contains url (host.urls e) then e else host.add url e

  -- `async_register_frontend`, with `_FRONTEND_DIR`
  unfoldable pub async_register_frontend : (frontend_dir : Text) → Exec E Unit
  unfolding add_if_absent module_url
  async_register_frontend frontend_dir = do
    host.async_register_static_paths
        (record { url_path = frontend_url_path; path = frontend_dir; cache_headers = true } ∷ [])
    version ← host.async_get_integration domain
    modify (add_if_absent (module_url version))

  -- `async_setup`
  unfoldable pub async_setup : (frontend_dir : Text) → Exec E Bool
  unfolding async_register_frontend
  async_setup frontend_dir = do async_register_frontend frontend_dir; pure true
