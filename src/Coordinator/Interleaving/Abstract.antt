-- ===== src/Coordinator/Interleaving/Abstract.antt =====
-- An abstract lock: one that nobody or one coroutine owns, and that is taken and given back. It is
-- what the operation lock of custom_components/aqara_u200/coordinator.py is measured against.
use haos_aqara.Base.{
  ℕ, ◌≡◌, ◌≢◌, ap, ◌∙◌, sym, Bool, true, false, Option, none, some, List, [], ◌∷◌, ◌++◌, ◌==◌,
  nat_eq, arith, if◌then◌else◌, nat_beq_refl, Bool-cases, inl, inr,
}
use haos_aqara.Coordinator.Interleaving.{Want, Place, outside, holding}
use haos_aqara.Coordinator.Interleaving.Assign.{assign, assign-same, assign-other, assign-cases}

-- The state of the abstract lock: its owner, and what it is wanted for.
abbrev pub Owner : Type 0
Owner = Option (ℕ × Want)

pub data Event : Type 0 where
  acquired : ℕ → Want → Event
  released : ℕ → Event

-- The abstract lock: it is taken while it is free, and given back by its owner; else `none`.
abbrev pub replay : List Event → Owner → Option Owner
replay [] owner = some owner
replay (acquired i want ∷ events) none = replay events (some (i, want))
replay (released i ∷ events) (some (j, want)) =
    let rest = replay events none in if j == i then rest else none
replay _ _ = none

pub replay-append :
    (events more : List Event) (o p : Owner)
    → replay events o ≡ some p
    → replay (events ++ more) o ≡ replay more p
replay-append [] more o p h = ap (replay more) (grind (arith, h))
replay-append (acquired i want ∷ events) more none p h =
    replay-append events more (some (i, want)) p h
replay-append (acquired i want ∷ events) more (some x) p h = cc
replay-append (released i ∷ events) more (some (j, want)) p h = elim (Bool-cases (j == i)) [
  | inl e ↦ rw e (replay-append events more none p (rw e at h))
  | inr e ↦ let bad : none ≡ some p = rw e at h in cc
]
replay-append (released i ∷ events) more none p h = cc

abbrev pub is_holding : Place → Bool
is_holding (holding want) = true
is_holding _ = false

-- Exactly the owner is within the lock.
abbrev pub Owned : Owner → (ℕ → Place) → Type 0
Owned none place = (j : ℕ) → is_holding (place j) ≡ false
Owned (some (i, want)) place =
    (place i ≡ holding want) × ((j : ℕ) → is_holding (place j) ≡ (i == j))

abbrev pub wanted : Owner → Option Want
wanted none = none
wanted (some (i, want)) = some want

differ : (i j : ℕ) → i ≢ j → (i == j) ≡ false
differ i j apart = ground arith

same-beq : (i j : ℕ) → i ≡ j → (i == j) ≡ true
same-beq i j same = ap (λ k. i == k) (sym same) ∙ nat_beq_refl i

pub Owned-assign :
    (o : Owner) (place : ℕ → Place) (i : ℕ) (p : Place)
    → Owned o place
    → is_holding (place i) ≡ false
    → is_holding p ≡ false
    → Owned o (assign place i p)
Owned-assign none place i p h was now = λ j. elim (assign-cases place p i j) [
  | inl (same, e) ↦ ap is_holding e ∙ now
  | inr (apart, e) ↦ ap is_holding e ∙ h j
]
Owned-assign (some (k, want)) place i p (h, only) was now = (
  assign-other place p i k (λ e. grind (arith, ap place e)) ∙ h,
  λ j. elim (assign-cases place p i j) [
    | inl (same, e) ↦ ap is_holding e ∙ now ∙ sym was ∙ only i ∙ ap (λ x. k == x) same
    | inr (apart, e) ↦ ap is_holding e ∙ only j
  ],
)

pub Owned-enter :
    (place : ℕ → Place) (i : ℕ) (want : Want)
    → Owned none place
    → Owned (some (i, want)) (assign place i (holding want))
Owned-enter place i want h = (
  assign-same place (holding want) i,
  λ j. elim (assign-cases place (holding want) i j) [
    | inl (same, e) ↦ ap is_holding e ∙ sym (same-beq i j same)
    | inr (apart, e) ↦ ap is_holding e ∙ h j ∙ sym (differ i j apart)
  ],
)

pub Owned-leave :
    (place : ℕ → Place) (i : ℕ) (want : Want)
    → Owned (some (i, want)) place
    → Owned none (assign place i outside)
Owned-leave place i want (h, only) = λ j. elim (assign-cases place outside i j) [
  | inl (same, e) ↦ ap is_holding e
  | inr (apart, e) ↦ ap is_holding e ∙ only j ∙ differ i j apart
]
