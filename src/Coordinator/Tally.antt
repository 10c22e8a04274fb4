-- ===== src/Coordinator/Tally.antt =====
-- The per-type tally of the credential table in `_apply_read` of
-- custom_components/aqara_u200/coordinator.py. A dictionary is an association list in the order of
-- insertion.
pub mod Laws
use Prim.Native.Nat.{Ordering}
use Prim.Native.String.{compare}
use haos_aqara.Base.{ℕ, ◌+◌, String, List, [], ◌∷◌, ◌==◌, string_eq, if◌then◌else◌}
use haos_aqara.Settings.Data.{UserCredential}

-- `by_type.get(name, 0)`
unfoldable pub count_of : String → List (String × ℕ) → ℕ
count_of name [] = 0
count_of name ((k, n) ∷ by_type) = if k == name then n else count_of name by_type

-- `by_type[name] = n`
pub set_count : String → ℕ → List (String × ℕ) → List (String × ℕ)
set_count name n [] = (name, n) ∷ []
set_count name n ((k, m) ∷ by_type) =
    if k == name then (k, n) ∷ by_type else (k, m) ∷ set_count name n by_type

-- The loop `for cred in value`.
pub tally : List UserCredential → List (String × ℕ) → List (String × ℕ)
unfolding count_of set_count
tally [] by_type = by_type
tally (cred ∷ value) by_type =
    tally value (set_count cred.type_name (count_of cred.type_name by_type + 1) by_type)

-- `sorted` on pairs with distinct first parts, as an insertion sort.
pub insert_item : String × ℕ → List (String × ℕ) → List (String × ℕ)
insert_item item [] = item ∷ []
insert_item item (first ∷ rest) = elim (compare item.0 first.0) [
  | Ordering.gt ↦ first ∷ insert_item item rest
  | _ ↦ item ∷ first ∷ rest
]

pub sort_items : List (String × ℕ) → List (String × ℕ)
unfolding insert_item
sort_items [] = []
sort_items (item ∷ items) = insert_item item (sort_items items)

-- `tuple(sorted(by_type.items()))`
unfoldable pub credentials_by_type : List UserCredential → List (String × ℕ)
unfolding tally sort_items
credentials_by_type value = sort_items (tally value [])
