-- ===== src/Coordinator/Tally/Laws.antt =====
-- The counts of the tally of credentials of custom_components/aqara_u200/coordinator.py.
use Prim.Native.Nat.{Ordering}
use Prim.Native.String.{compare}
use text.Mathlib.TextPositions.{compare_refl}
use haos_aqara.Base.{
  ℕ, ◌+◌, ◌≡◌, refl, false, String, List, [], ◌∷◌, ◌==◌, string_eq, if◌then◌else◌, length, arith,
}
use haos_aqara.Settings.Data.{UserCredential}
use haos_aqara.Coordinator.Tally.{
  count_of, set_count, tally, insert_item, sort_items, credentials_by_type,
}
use text.Mathlib.TextEquality.{eq_iff}

-- How many credentials have a type.
pub occurrences : String → List UserCredential → ℕ
occurrences name [] = 0
occurrences name (cred ∷ value) = (if cred.type_name == name then 1 else 0) + occurrences name value

count_of-set_count :
    (name k : String) (n : ℕ) (by_type : List (String × ℕ))
    → count_of name (set_count k n by_type) ≡ (if k == name then n else count_of name by_type)
unfolding count_of set_count
count_of-set_count name k n [] = refl
count_of-set_count name k n ((j, m) ∷ by_type) =
    ground (arith, count_of-set_count name k n by_type, eq_iff j k, eq_iff j name, eq_iff k name)

count_of-tally :
    (name : String) (value : List UserCredential) (by_type : List (String × ℕ))
    → count_of name (tally value by_type) ≡ count_of name by_type + occurrences name value
unfolding tally occurrences
count_of-tally name [] by_type = omega arith
count_of-tally name (cred ∷ value) by_type =
    let n = count_of cred.type_name by_type + 1 in
    ground (
      arith,
      count_of-tally name value (set_count cred.type_name n by_type),
      count_of-set_count name cred.type_name n by_type,
      eq_iff cred.type_name name,
    )

gt_ne : (s t : String) → compare s t ≡ Ordering.gt → (s == t) ≡ false
gt_ne s t h = ground (arith, eq_iff s t, compare_refl s)

count_of-insert_item :
    (name : String) (item : String × ℕ) (items : List (String × ℕ))
    → count_of name (insert_item item items)
      ≡ (if item.0 == name then item.1 else count_of name items)
unfolding count_of insert_item
count_of-insert_item name item [] = refl
count_of-insert_item name item (first ∷ rest) = ground (
  arith,
  count_of-insert_item name item rest,
  gt_ne item.0 first.0,
  eq_iff item.0 first.0,
  eq_iff first.0 name,
  eq_iff item.0 name,
)

count_of-sort_items :
    (name : String) (items : List (String × ℕ))
    → count_of name (sort_items items) ≡ count_of name items
unfolding count_of sort_items
count_of-sort_items name [] = refl
count_of-sort_items name (item ∷ items) =
    ground
      (arith, count_of-insert_item name item (sort_items items), count_of-sort_items name items)

-- The published tally gives for each type the number of credentials of that type.
pub credentials_by_type-counts :
    (name : String) (value : List UserCredential)
    → count_of name (credentials_by_type value) ≡ occurrences name value
unfolding credentials_by_type count_of
credentials_by_type-counts name value =
    omega (arith, count_of-sort_items name (tally value []), count_of-tally name value [])

-- The sum of all counts.
pub total : List (String × ℕ) → ℕ
total [] = 0
total (item ∷ items) = item.1 + total items

total-set_count :
    (k : String) (by_type : List (String × ℕ))
    → total (set_count k (count_of k by_type + 1) by_type) ≡ total by_type + 1
unfolding total set_count count_of
total-set_count k [] = omega arith
total-set_count k (item ∷ by_type) = ground (arith, total-set_count k by_type)

total-tally :
    (value : List UserCredential) (by_type : List (String × ℕ))
    → total (tally value by_type) ≡ total by_type + length value
unfolding tally
total-tally [] by_type = omega arith
total-tally (cred ∷ value) by_type = ground (
  arith,
  total-tally value (set_count cred.type_name (count_of cred.type_name by_type + 1) by_type),
  total-set_count cred.type_name by_type,
)

total-insert_item :
    (item : String × ℕ) (items : List (String × ℕ))
    → total (insert_item item items) ≡ item.1 + total items
unfolding total insert_item
total-insert_item item [] = refl
total-insert_item item (first ∷ rest) = ground (arith, total-insert_item item rest)

total-sort_items : (items : List (String × ℕ)) → total (sort_items items) ≡ total items
unfolding total sort_items
total-sort_items [] = refl
total-sort_items (item ∷ items) =
    ground (arith, total-insert_item item (sort_items items), total-sort_items items)

-- The counts of the published tally add up to the length of the table.
pub total-credentials_by_type :
    (value : List UserCredential) → total (credentials_by_type value) ≡ length value
unfolding credentials_by_type total
total-credentials_by_type value =
    omega (arith, total-sort_items (tally value []), total-tally value [])
