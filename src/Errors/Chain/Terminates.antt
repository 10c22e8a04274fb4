-- ===== src/Errors/Chain/Terminates.antt =====
-- The number of rounds of `is_invalid_auth_error` of custom_components/aqara_u200/client.py.
use haos_aqara.Base.{
  ℕ, zero, suc, ◌+◌, ◌≤◌, ◌<◌, ◌≡◌, ◌≢◌, inl, inr, false, Option, none, some, List, [], ◌∷◌, arith,
  get_elem?, length, nat_eq, if◌then◌else◌, Option-cases,
}
use haos_aqara.Errors.{Node, Objects}
use haos_aqara.Errors.Chain.{contains, next, walk}

-- How many identities below `n` the walk has not seen.
unseen : ℕ → List ℕ → ℕ
unseen zero seen = 0
unseen (suc n) seen = (if contains n seen then 0 else 1) + unseen n seen

unseen-le : (n : ℕ) (seen : List ℕ) → unseen n seen ≤ n
unfolding unseen
unseen-le zero seen = omega arith
unseen-le (suc n) seen = ground (arith, unseen-le n seen)

unseen-cons-le : (n i : ℕ) (seen : List ℕ) → unseen n (i ∷ seen) ≤ unseen n seen
unfolding unseen contains
unseen-cons-le zero i seen = omega arith
unseen-cons-le (suc n) i seen = ground (arith, unseen-cons-le n i seen)

unseen-cons-lt :
    (n i : ℕ) (seen : List ℕ)
    → i < n
    → contains i seen ≡ false
    → unseen n (i ∷ seen) < unseen n seen
unfolding unseen contains
unseen-cons-lt zero i seen h new = absurd (omega arith)
unseen-cons-lt (suc n) i seen h new =
    ground (arith, unseen-cons-lt n i seen, unseen-cons-le n i seen)

get_elem?-lt :
    (objects : Objects) (i : ℕ) {node : Node} → get_elem? objects i ≡ some node → i < length objects
get_elem?-lt [] i h = cc
get_elem?-lt (x ∷ objects) zero h = omega arith
get_elem?-lt (x ∷ objects) (suc i) h = omega (arith, get_elem?-lt objects i h)

walk_ends :
    (fuel : ℕ) (objects : Objects) (current : Option ℕ) (seen : List ℕ)
    → unseen (length objects) seen < fuel
    → walk fuel objects current seen ≢ none
unfolding walk
walk_ends fuel objects none seen h = ground arith
walk_ends zero objects (some i) seen h = absurd (omega arith)
walk_ends (suc fuel) objects (some i) seen h = elim (Option-cases (get_elem? objects i)) [
  | inl missing ↦ ground arith
  | inr (node, found) ↦ ground (
    arith,
    walk_ends fuel objects (next node) (i ∷ seen),
    unseen-cons-lt (length objects) i seen (get_elem?-lt objects i found),
  )
]

-- The walk from any exception ends within one round more than there are objects.
pub walk_total :
    (objects : Objects) (i : ℕ) → walk (suc (length objects)) objects (some i) [] ≢ none
walk_total objects i =
    walk_ends (suc (length objects)) objects (some i) []
      (omega (arith, unseen-le (length objects) []))
