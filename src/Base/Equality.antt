-- ===== src/Base/Equality.antt =====
-- Python's `==` as a Boolean test, one instance for each type of value that the code compares.
use Prim.Native.Nat.{ℕ, compare, Ordering}
use Prim.Native.String.{String}
use mathlib.Core.Bool.{Bool, true, false, not, ◌&&◌}
use mathlib.Core.List.{List, [], ◌∷◌}
use mathlib.Core.Option.{Option, none, some}
use mathlib.Core.Path.{◌≡◌, refl, ap, ap₂}
use native.Mathlib.Omega.{arith}
use text.Mathlib.Text.{◌==◌ as str_eq}
use text.Mathlib.TextEquality.{eq_iff}

pub record Eq {ℓ} (A : Type ℓ) : Type ℓ where
  pub beq : A → A → Bool
  pub eq_of_beq : (a b : A) → beq a b ≡ true → a ≡ b
  pub beq_refl : (a : A) → beq a a ≡ true

infix 50 ◌==◌ ◌!=◌
abbrev pub ◌==◌ {ℓ} : {A : Type ℓ} ⦃e : Eq A⦄ → A → A → Bool
◌==◌ ⦃e⦄ = e.beq

abbrev pub ◌!=◌ {ℓ} : {A : Type ℓ} ⦃e : Eq A⦄ → A → A → Bool
a != b = not (a == b)

pub and-eq-true : (a b : Bool) → (a && b) ≡ true → (a ≡ true) × (b ≡ true)
and-eq-true true b h = (refl, h)
and-eq-true false b h = cc

abbrev nat_beq : ℕ → ℕ → Bool
nat_beq a b = elim (compare a b) [ Ordering.eq ↦ true | _ ↦ false ]

pub eq_of_nat_beq : (a b : ℕ) → nat_beq a b ≡ true → a ≡ b
eq_of_nat_beq a b h = ground arith

pub nat_beq_refl : (a : ℕ) → nat_beq a a ≡ true
nat_beq_refl a = ground arith

instance abbrev pub nat_eq : Eq ℕ
nat_eq = record { beq = nat_beq; eq_of_beq = eq_of_nat_beq; beq_refl = nat_beq_refl }

instance abbrev pub string_eq : Eq String
string_eq = record {
  beq = str_eq;
  eq_of_beq = λ a b. (eq_iff a b).0;
  beq_refl = λ a. (eq_iff a a).1 refl;
}

abbrev bool_beq : Bool → Bool → Bool
bool_beq true b = b
bool_beq false b = not b

pub eq_of_bool_beq : (a b : Bool) → bool_beq a b ≡ true → a ≡ b
eq_of_bool_beq a b h = ground arith

pub bool_beq_refl : (a : Bool) → bool_beq a a ≡ true
bool_beq_refl a = ground arith

instance abbrev pub bool_eq : Eq Bool
bool_eq = record { beq = bool_beq; eq_of_beq = eq_of_bool_beq; beq_refl = bool_beq_refl }

module _ {ℓ} {A : Type ℓ} ⦃e : Eq A⦄ where
  abbrev option_beq : Option A → Option A → Bool
  option_beq none none = true
  option_beq (some a) (some b) = e.beq a b
  option_beq _ _ = false

  pub eq_of_option_beq : (a b : Option A) → option_beq a b ≡ true → a ≡ b
  eq_of_option_beq none none h = refl
  eq_of_option_beq none (some b) h = cc
  eq_of_option_beq (some a) none h = cc
  eq_of_option_beq (some a) (some b) h = ap some (e.eq_of_beq a b h)

  pub option_beq_refl : (a : Option A) → option_beq a a ≡ true
  option_beq_refl none = refl
  option_beq_refl (some a) = e.beq_refl a

  instance abbrev pub option_eq : Eq (Option A)
  option_eq = record { beq = option_beq; eq_of_beq = eq_of_option_beq; beq_refl = option_beq_refl }

  abbrev list_beq : List A → List A → Bool
  list_beq [] [] = true
  list_beq [] (y ∷ ys) = false
  list_beq (x ∷ xs) [] = false
  list_beq (x ∷ xs) (y ∷ ys) = e.beq x y && list_beq xs ys

  pub eq_of_list_beq : (xs ys : List A) → list_beq xs ys ≡ true → xs ≡ ys
  eq_of_list_beq [] [] h = refl
  eq_of_list_beq [] (y ∷ ys) h = cc
  eq_of_list_beq (x ∷ xs) [] h = cc
  eq_of_list_beq (x ∷ xs) (y ∷ ys) h =
      let (p, q) = and-eq-true (e.beq x y) (list_beq xs ys) h in
      ap₂ ◌∷◌ (e.eq_of_beq x y p) (eq_of_list_beq xs ys q)

  pub list_beq_refl : (xs : List A) → list_beq xs xs ≡ true
  list_beq_refl [] = refl
  list_beq_refl (x ∷ xs) = rw (e.beq_refl x) (list_beq_refl xs)

  instance abbrev pub list_eq : Eq (List A)
  list_eq = record { beq = list_beq; eq_of_beq = eq_of_list_beq; beq_refl = list_beq_refl }

module _ {ℓ κ} {A : Type ℓ} {B : Type κ} ⦃d : Eq A⦄ ⦃e : Eq B⦄ where
  abbrev pair_beq : A × B → A × B → Bool
  pair_beq (a, b) (a', b') = d.beq a a' && e.beq b b'

  pub eq_of_pair_beq : (p q : A × B) → pair_beq p q ≡ true → p ≡ q
  eq_of_pair_beq (a, b) (a', b') h =
      let (x, y) = and-eq-true (d.beq a a') (e.beq b b') h in
      λ i. (d.eq_of_beq a a' x i, e.eq_of_beq b b' y i)

  pub pair_beq_refl : (p : A × B) → pair_beq p p ≡ true
  pair_beq_refl (a, b) = rw (d.beq_refl a) (e.beq_refl b)

  instance abbrev pub pair_eq : Eq (A × B)
  pair_eq = record { beq = pair_beq; eq_of_beq = eq_of_pair_beq; beq_refl = pair_beq_refl }
