-- ===== src/Errors/Chain/Finds.antt =====
-- `is_invalid_auth_error` of custom_components/aqara_u200/client.py against the chain of causes as a
-- relation, round by round.
use haos_aqara.Base.{
  subst, ℕ, zero, suc, ◌≡◌, refl, ◌⊎◌, inl, inr, true, false, Option, none, some, List, ◌∷◌, arith,
  get_elem?, nat_eq, Bool-cases, Option-cases,
}
use haos_aqara.Errors.{Node, Objects}
use haos_aqara.Errors.Chain.{contains, next, walk, is_invalid_auth}

-- `Linked objects i j`: exception `j` is on the chain of causes of exception `i`.
pub data Linked (objects : Objects) (i : ℕ) : ℕ → Type 0 where
  here : Linked objects i i
  step :
      {j k : ℕ} (node : Node)
      → Linked objects i j
      → get_elem? objects j ≡ some node
      → next node ≡ some k
      → Linked objects i k

-- Some exception on the chain is Aqara's refusal of the credentials.
pub record HasInvalidAuth (objects : Objects) (i : ℕ) : Type 0 where
  pub at : ℕ
  pub linked : Linked objects i at
  pub node : Node
  pub found : get_elem? objects at ≡ some node
  pub refused : is_invalid_auth node.class ≡ true

-- A link can be put in front of a chain.
link :
    {objects : Objects} {i k : ℕ} {j : ℕ} (node : Node)
    → get_elem? objects i ≡ some node
    → next node ≡ some k
    → Linked objects k j
    → Linked objects i j
link node found e here = step node here found e
link node found e (step n l f g) = step n (link node found e l) f g

prefix_auth :
    {objects : Objects} {i k : ℕ} (node : Node)
    → get_elem? objects i ≡ some node
    → next node ≡ some k
    → HasInvalidAuth objects k
    → HasInvalidAuth objects i
prefix_auth node found e h = record {
  at = h.at;
  linked = link node found e h.linked;
  node = h.node;
  found = h.found;
  refused = h.refused;
}

abbrev Starts : Objects → Option ℕ → Type 0
Starts objects none = ⊥
Starts objects (some i) = HasInvalidAuth objects i

prefix-Starts :
    {objects : Objects} {i : ℕ} (node : Node) (o : Option ℕ)
    → get_elem? objects i ≡ some node
    → next node ≡ o
    → Starts objects o
    → HasInvalidAuth objects i
prefix-Starts node none found e h = absurd h
prefix-Starts node (some k) found e h = prefix_auth node found e h

-- What the walk reports is there.
pub walk_sound :
    (fuel : ℕ) (objects : Objects) (current : Option ℕ) (seen : List ℕ)
    → walk fuel objects current seen ≡ some true
    → Starts objects current
unfolding walk
walk_sound fuel objects none seen h = cc
walk_sound zero objects (some i) seen h = cc
walk_sound (suc fuel) objects (some i) seen h = elim (Option-cases (get_elem? objects i)) [
  | inl missing ↦ absurd (ground arith)
  | inr (node, found) ↦ elim (Bool-cases (is_invalid_auth node.class)) [
    | inl hit ↦ record { at = i; linked = here; node = node; found = found; refused = hit }
    | inr miss ↦
        prefix-Starts node (next node) found refl
          (walk_sound fuel objects (next node) (i ∷ seen) (ground arith))
  ]
]

-- What the walk has seen before it comes to `current`: no refusal, and every link leads to another
-- object that was seen or to `current`.
pub record Passed (objects : Objects) (current : Option ℕ) (seen : List ℕ) : Type 0 where
  pub clean :
      (j : ℕ) (node : Node)
      → contains j seen ≡ true
      → get_elem? objects j ≡ some node
      → is_invalid_auth node.class ≡ false
  pub closed :
      (j k : ℕ) (node : Node)
      → contains j seen ≡ true
      → get_elem? objects j ≡ some node
      → next node ≡ some k
      → (contains k seen ≡ true) ⊎ (current ≡ some k)

Passed-cons :
    {objects : Objects} {i : ℕ} {seen : List ℕ} (node : Node)
    → Passed objects (some i) seen
    → get_elem? objects i ≡ some node
    → is_invalid_auth node.class ≡ false
    → Passed objects (next node) (i ∷ seen)
unfolding contains
Passed-cons node p found miss = record {
  clean = λ j n m f. ground (arith, p.clean j n);
  closed = λ j k n m f e. ground (arith, p.closed j k n);
}

-- In a cycle everything that is linked was seen.
linked_seen :
    {objects : Objects} {i j : ℕ} {seen : List ℕ}
    → Passed objects (some i) seen
    → contains i seen ≡ true
    → Linked objects i j
    → contains j seen ≡ true
linked_seen p old here = old
linked_seen {i} {j = k} {seen} p old (step {j} node l f e) =
    elim (p.closed j k node (linked_seen p old l) f e) [ inl s ↦ s | inr same ↦ ground arith ]

abbrev Clean : Objects → Option ℕ → Type 0
Clean objects none = Unit
Clean objects (some i) =
    (j : ℕ) (node : Node)
    → Linked objects i j
    → get_elem? objects j ≡ some node
    → is_invalid_auth node.class ≡ false

Clean-next :
    {objects : Objects} {i : ℕ} (node : Node) (o : Option ℕ)
    → get_elem? objects i ≡ some node
    → is_invalid_auth node.class ≡ false
    → next node ≡ o
    → Clean objects o
    → Clean objects (some i)
Clean-next {objects} {i} node o found miss e h j n l f = go l f
  where
    after : {k : ℕ} → Linked objects i k → (k ≡ i) ⊎ ((m : ℕ) × (o ≡ some m) × Linked objects m k)
    after here = inl refl
    after (step {j = a} {k = b} x l f g) = elim (after l) [
      | inl first ↦ inr (b, ground arith, here)
      | inr (m, q, l') ↦ inr (m, q, step x l' f g)
    ]

    go : Linked objects i j → get_elem? objects j ≡ some n → is_invalid_auth n.class ≡ false
    go l f = elim (after l) [
      | inl first ↦ ground arith
      | inr (m, q, l') ↦ (subst (Clean objects) q h) j n l' f
    ]

-- Where the walk reports nothing, no exception on the rest of the chain is a refusal.
pub walk_complete :
    (fuel : ℕ) (objects : Objects) (current : Option ℕ) (seen : List ℕ)
    → Passed objects current seen
    → walk fuel objects current seen ≡ some false
    → Clean objects current
unfolding walk
walk_complete fuel objects none seen p h = tt
walk_complete zero objects (some i) seen p h = absurd (ground arith)
walk_complete (suc fuel) objects (some i) seen p h = elim (Option-cases (get_elem? objects i)) [
  | inl missing ↦ λ j n l f. absurd (dead missing l f)
  | inr (node, found) ↦ elim (Bool-cases (contains i seen)) [
    | inl old ↦ λ j n l f. p.clean j n (linked_seen p old l) f
    | inr new ↦ elim (Bool-cases (is_invalid_auth node.class)) [
      | inl hit ↦ absurd (ground arith)
      | inr miss ↦ Clean-next node (next node) found miss refl (
          walk_complete fuel objects (next node) (i ∷ seen) (Passed-cons node p found miss)
            (ground arith))
    ]
  ]
]
  where
    dead :
        {j : ℕ} {n : Node}
        → get_elem? objects i ≡ none
        → Linked objects i j
        → get_elem? objects j ≡ some n
        → ⊥
    dead missing here f = ground arith
    dead missing (step node l g e) f = dead missing l g
