-- ===== src/Tests/Registry.antt =====
-- The theorems on what is registered with Home Assistant: two locks, and a frontend that keeps its URLs.
use haos_aqara.Base.{
  ◌≡◌, ◌≢◌, refl, ap, List, [], ◌∷◌, arith, All, Distinct, length, get_or, Text, codes,
  if◌then◌else◌, list_eq, nat_eq,
}
use haos_aqara.Errors.{ok}
use haos_aqara.Entities.Identity.{Owner}
use haos_aqara.Entities.Identity.Platforms.{Platform}
use haos_aqara.Entities.Identity.Unique.{registered, registered-Distinct}
use haos_aqara.Frontend.{FrontendHost, contains}

abbrev two_locks : List Owner
two_locks =
    record { address = codes "54:EF:44:00:AB:CD"; title = codes "Front door" }
    ∷ record { address = codes "54:EF:44:00:AB:CE"; title = codes "Back door" }
    ∷ []

registered-Distinct_example : Distinct (registered Platform.sensor two_locks)
registered-Distinct_example =
    let none_left : All {A = Text} (λ address. length address ≡ 17) [] = tt in
    let second : All (λ address. length address ≡ 17) (codes "54:EF:44:00:AB:CE" ∷ []) =
      (refl, none_left) in
    let last : Distinct (codes "54:EF:44:00:AB:CE" ∷ []) = (tt, tt) in
    let apart : codes "54:EF:44:00:AB:CD" ≢ codes "54:EF:44:00:AB:CE" =
      λ e. omega (arith, ap (λ text. get_or text 16 0) e) in
    registered-Distinct Platform.sensor 17 two_locks (refl, second) ((apart, tt), last)

-- The URLs as a set: a URL that is there is not listed again.
abbrev frontend : FrontendHost (List Text)
frontend = record {
  async_register_static_paths = λ paths urls. (ok tt, urls);
  async_get_integration = λ name urls. (ok (codes "0.13.0"), urls);
  urls = λ urls. urls;
  add = λ url urls. if contains url urls then urls else url ∷ urls;
}
