-- ===== src/Frontend/Once.antt =====
-- That `async_register_frontend` of custom_components/aqara_u200/frontend.py has the card loaded under the
-- URL of the installed version, and is not added again.
use haos_aqara.Base.{◌≡◌, Bool, true, ◌||◌, ◌==◌, list_eq, nat_eq, List, [], ◌∷◌, Text}
use haos_aqara.Errors.{ok}
use haos_aqara.Exec.{Exec}
use haos_aqara.Entities.Identity.{domain}
use haos_aqara.Frontend.{
  FrontendHost, StaticPath, frontend_url_path, contains, module_url, add_if_absent, async_setup,
}

-- What is documented of Home Assistant: the URLs are a set, so that a URL that is added is in it with
-- those that were, the other two calls leave the set, and the version that is found is the installed one.
pub record IsRegistry {E : Type 0} (host : FrontendHost E) (version : Text) : Type 0 where
  pub added :
      (url v : Text) (e : E)
      → contains v (host.urls (host.add url e)) ≡ (v == url || contains v (host.urls e))
  pub served :
      (paths : List StaticPath) (e : E)
      → host.urls (host.async_register_static_paths paths e).1 ≡ host.urls e
  pub looked_up :
      (name : Text) (e : E) → host.urls (host.async_get_integration name e).1 ≡ host.urls e
  pub installed : (e : E) (v : Text) → (host.async_get_integration domain e).0 ≡ ok v → v ≡ version

-- What the two other calls of the set-up leave, the static path of the card with its folder and the
-- lookup of the integration.
abbrev pub called : {E : Type 0} → FrontendHost E → Text → E → E
called host dir e =
    (host.async_get_integration domain
      (host.async_register_static_paths
        (record { url_path = frontend_url_path; path = dir; cache_headers = true } ∷ []) e).1).1

module _ {E : Type 0} (host : FrontendHost E) (version : Text)
    (registry : IsRegistry host version) where
  -- Where a set-up that answers has come to.
  record Registered (dir : Text) (e : E) (answer : Bool) : Type 0 where
    answered : answer ≡ true
    state : (async_setup host dir e).1 ≡ add_if_absent host (module_url version) (called host dir e)
