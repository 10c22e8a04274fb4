-- ===== src/Coordinator/Interleaving/Assign.antt =====
-- A family over the coroutines, with the place of one of them changed.
use haos_aqara.Base.{
  ℕ, ◌≡◌, refl, ◌≢◌, ◌⊎◌, inl, inr, ◌==◌, nat_eq, arith, if◌then◌else◌, Bool-cases, eq_of_nat_beq,
  nat_beq_refl,
}

unfoldable pub assign {ℓ} : {A : Type ℓ} → (ℕ → A) → ℕ → A → ℕ → A
assign f i a j = if i == j then a else f j

module _ {ℓ} {A : Type ℓ} (f : ℕ → A) (a : A) where
  pub assign-same : (i : ℕ) → assign f i a i ≡ a
  unfolding assign
  assign-same i = rw (nat_beq_refl i) refl

  pub assign-other : (i j : ℕ) → i ≢ j → assign f i a j ≡ f j
  unfolding assign
  assign-other i j apart = elim (Bool-cases (i == j)) [
    | inl e ↦ absurd (apart (eq_of_nat_beq i j e))
    | inr e ↦ rw e refl
  ]

  -- The changed place, or another one.
  pub assign-cases :
      (i j : ℕ) → ((i ≡ j) × (assign f i a j ≡ a)) ⊎ ((i ≢ j) × (assign f i a j ≡ f j))
  unfolding assign
  assign-cases i j = elim (Bool-cases (i == j)) [
    | inl e ↦ inl (eq_of_nat_beq i j e, rw e refl)
    | inr e ↦ inr (ground arith, rw e refl)
  ]
