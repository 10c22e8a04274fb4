-- ===== src/Exec.antt =====
-- A coroutine that reads and writes a state and may raise. What was written before an exception
-- stays written, so the state comes back beside the exception too.
pub mod Keeps
use haos_aqara.Base.{◌≡◌, refl, Bool, if◌then◌else◌}
use haos_aqara.Errors.{Raised, Result, ok, err}

abbrev pub Exec {ℓ} : Type ℓ → Type ℓ → Type ℓ
Exec S A = S → Result A × S

module _ {ℓ} {S A : Type ℓ} where
  abbrev pub pure : A → Exec S A
  pure a s = (ok a, s)

  abbrev pub raise : Raised → Exec S A
  raise e s = (err e, s)

  abbrev pub gets : (S → A) → Exec S A
  gets f s = (ok (f s), s)

  abbrev handle : Result A × S → (Raised → Exec S A) → Result A × S
  handle (ok a, s) f = (ok a, s)
  handle (err e, s) f = f e s

  -- `try: m` with the `except` clauses `f`
  abbrev pub catch : Exec S A → (Raised → Exec S A) → Exec S A
  catch m f s = handle (m s) f

  abbrev attempt_of : Result A × S → Result (Result A) × S
  attempt_of (r, s) = (ok r, s)

  -- a `try` whose `except` clauses are taken apart by what follows
  abbrev pub attempt : Exec S A → Exec S (Result A)
  attempt m s = attempt_of (m s)

module _ {ℓ} {S A B : Type ℓ} where
  abbrev then_do : Result A × S → (A → Exec S B) → Result B × S
  then_do (ok a, s) f = f a s
  then_do (err e, s) f = (err e, s)

  infixl 5 ◌>>=◌ ◌>>◌
  abbrev pub ◌>>=◌ : Exec S A → (A → Exec S B) → Exec S B
  ◌>>=◌ m f s = then_do (m s) f

  abbrev pub ◌>>◌ : Exec S A → Exec S B → Exec S B
  m >> n = m >>= λ _. n

  -- The rest runs where the first part comes back.
  pub bind-ok :
      (m : Exec S A) (f : A → Exec S B) (s : S) (a : A) → (m s).0 ≡ ok a → (m >>= f) s ≡ f a (m s).1
  bind-ok m f s a h = continues (m s).0 h
    where
      continues : (r : Result A) → r ≡ ok a → then_do (r, (m s).1) f ≡ f a (m s).1
      continues (ok b) e = cc
      continues (err x) e = cc

  -- A sequence that comes back has a first part that comes back.
  pub bind-ok_inv :
      (m : Exec S A) (f : A → Exec S B) (s : S) (b : B)
      → ((m >>= f) s).0 ≡ ok b
      → (a : A) × ((m s).0 ≡ ok a) × ((f a (m s).1).0 ≡ ok b)
  bind-ok_inv m f s b h = splits (m s).0 refl h
    where
      splits :
          (r : Result A)
          → (m s).0 ≡ r
          → (then_do (r, (m s).1) f).0 ≡ ok b
          → (a : A) × ((m s).0 ≡ ok a) × ((f a (m s).1).0 ≡ ok b)
      splits (ok a) e h = (a, e, h)
      splits (err x) e h = cc

  abbrev close : Result A → Result B × S → Result A × S
  close r (ok _, s) = (r, s)
  close r (err e, s) = (err e, s)

  abbrev after : Result A × S → Exec S B → Result A × S
  after (r, s) cleanup = close r (cleanup s)

  -- `try: m` with `finally: cleanup`; an exception of the clean-up replaces the outcome
  abbrev pub finally : Exec S A → Exec S B → Exec S A
  finally m cleanup s = after (m s) cleanup

module _ {S : Type 0} where
  abbrev pub modify : (S → S) → Exec S Unit
  modify f s = (ok tt, f s)

  -- `if b: m`
  abbrev pub when : Bool → Exec S Unit → Exec S Unit
  when b m = if b then m else pure tt
