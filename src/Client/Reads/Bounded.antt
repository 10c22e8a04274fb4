-- ===== src/Client/Reads/Bounded.antt =====
-- The retries of a read of custom_components/aqara_u200/client.py.
use haos_aqara.Base.{
  ℕ, zero, suc, ◌+◌, ◌-◌, ◌≡◌, refl, sym, ap, subst, ◌∙◌, Bool, true, false, Option, none, ◌∷◌,
  arith, if◌then◌else◌, ltb, ltb-suc, false≢true,
}
use haos_aqara.Errors.{Raised, Result, ok, err, cancelled}
use haos_aqara.Exec.{pure, when, ◌>>=◌, ◌>>◌}
use haos_aqara.Boundary.{Call}
use haos_aqara.Const.{ble_read_gap_seconds}
use haos_aqara.Client.Library.{Library}
use haos_aqara.Client.Session.{Adapter, Session, step, slept, await}
use haos_aqara.Client.Session.Ends.{openings, closings, uses, attempts, pauses}
use haos_aqara.Client.Reads.{one_read, pause, attempts_left, read_retry}
use haos_aqara.Client.Reads.Normal.{IsQuiet, Reads, one_read-Reads, one_read-unpaused}

-- `asyncio.sleep` raises nothing but the cancellation of its task.
abbrev pub SleepIsPlain : {D G P A E : Type 0} → Library D G P A E → Type 0
SleepIsPlain {E = E} lib = (n : ℕ) (e : E) (x : Raised) → (lib.sleep n e).0 ≡ err x → x ≡ cancelled

abbrev value_or : {A : Type 0} → A → Result A → A
value_or d (ok x) = x
value_or d (err e) = d

ok_injective : {A : Type 0} {x y : A} → ok x ≡ ok y → x ≡ y
ok_injective {A = A} {x = x} p = ap (value_or x) p

module _ {G E X : Type 0} where
  -- A read that gives up, with a value that is not useful, has waited before every attempt but the first.
  pub record Retried (is_useful : Option X → Bool) (n : ℕ) (s : Session G E)
      (q : Result (Option X) × Session G E) : Type 0 where
    pub bounds : Reads n (n - 1) s q
    pub spaced :
        (v : Option X)
        → q.0 ≡ ok v
        → is_useful v ≡ false
        → pauses q.1.steps ≡ pauses s.steps + (n - 1)

module _ {D G P A E X : Type 0} (lib : Library D G P A E) (self : Adapter A)
    (plain : SleepIsPlain lib) (is_useful : Option X → Bool) (reader : P → Call E (Option X)) where
  done-Retried :
      (n : ℕ) (s u : Session G E) (r : Result (Option X))
      → Reads 1 0 s (r, u)
      → ((v : Option X) → r ≡ ok v → is_useful v ≡ true)
      → Retried is_useful (suc n) s (r, u)
  done-Retried n s u r h p = record {
    bounds = record {
      closed = h.closed;
      once = omega (arith, h.once);
      tried = omega (arith, h.tried);
      paused = omega (arith, h.paused);
      quiet = h.quiet;
    };
    spaced = λ v e f. elim (false≢true (sym f ∙ p v e)) [ ];
  }

  -- An attempt and a pause, and then `n` more.
  join-Retried :
      (n : ℕ) (s u v : Session G E) (q : Result (Option X) × Session G E) (value : Option X)
      → Reads 1 0 s (ok value, u)
      → Reads 0 1 u (ok value, v)
      → pauses v.steps ≡ pauses u.steps + 1
      → pauses u.steps ≡ pauses s.steps
      → Retried is_useful (suc n) v q
      → Retried is_useful (suc (suc n)) s q
  join-Retried n s u v q value h g p p' k = record {
    bounds = record {
      closed = omega (arith, h.closed, g.closed, k.bounds.closed);
      once = omega (arith, h.once, g.once, k.bounds.once);
      tried = omega (arith, h.tried, g.tried, k.bounds.tried);
      paused = omega (arith, k.bounds.paused, p, p');
      quiet = k.bounds.quiet;
    };
    spaced = λ w e f. omega (arith, k.spaced w e f, p, p');
  }

  -- What follows a value of no use: the pause, and the attempts that are left.
  paused_Retried :
      (n : ℕ) (s u v : Session G E) (value : Option X) (r : Result (Unit {0}))
      → v.steps ≡ slept ∷ u.steps
      → ((e : Raised) → r ≡ err e → e ≡ cancelled)
      → Reads 1 0 s (ok value, u)
      → pauses u.steps ≡ pauses s.steps
      → Retried is_useful (suc n) v (attempts_left lib self is_useful reader (suc n) value v)
      → Retried is_useful
          (suc (suc n))
          s
          (◌>>=◌ (λ _. (r, v)) (λ _. attempts_left lib self is_useful reader (suc n) value) u)
  unfolding openings closings uses attempts pauses
  paused_Retried n s u v value (err e) c p h g k = record {
    bounds = record {
      closed = rw (c) (omega (arith, h.closed));
      once = rw (c) (omega (arith, h.once));
      tried = rw (c) (omega (arith, h.tried));
      paused = rw (c) (omega (arith, h.paused));
      quiet = subst (λ x. IsQuiet {X = Option X} (err x)) (sym (p e refl)) tt;
    };
    spaced = λ w f q. cc f;
  }
  paused_Retried n s u v value (ok tt) c p h g k =
      join-Retried n s u v _ value h
        (record {
          closed = rw (c) (omega arith);
          once = rw (c) (omega arith);
          tried = rw (c) (omega arith);
          paused = rw (c) (omega arith);
          quiet = tt;
        })
        (rw (c) (omega arith)) g k

  useless_Retried :
      (n : ℕ) (s u : Session G E) (value : Option X)
      → Reads 1 0 s (ok value, u)
      → pauses u.steps ≡ pauses s.steps
      → ((w : Option X) (v : Session G E)
          → Retried is_useful n v (attempts_left lib self is_useful reader n w v))
      → Retried is_useful
          (suc n)
          s
          ((when (ltb 0 n) (pause lib self) >> attempts_left lib self is_useful reader n value) u)
  unfolding attempts_left pause await step
  useless_Retried zero s u value h g k = record { bounds = h; spaced = λ w e f. omega (arith, g) }
  useless_Retried (suc n) s u value h g k =
      subst
        (λ b.
          Retried is_useful (suc (suc n)) s
            ((when b (pause lib self) >> attempts_left lib self is_useful reader (suc n) value) u))
        (sym (ltb-suc n))
        (paused_Retried n s u (pause lib self u).1 value (pause lib self u).0 refl
          (plain ble_read_gap_seconds u.env) h g (k value (pause lib self u).1))

  chosen_Retried :
      (n : ℕ) (s u : Session G E) (value : Option X) (useful : Bool)
      → is_useful value ≡ useful
      → Reads 1 0 s (ok value, u)
      → pauses u.steps ≡ pauses s.steps
      → ((w : Option X) (v : Session G E)
          → Retried is_useful n v (attempts_left lib self is_useful reader n w v))
      → Retried is_useful (suc n) s (
          (if useful
              then pure value
              else (when (ltb 0 n) (pause lib self)
                  >> attempts_left lib self is_useful reader n value))
            u)
  chosen_Retried n s u value true b h g k =
      done-Retried n s u (ok value) h λ v e. ap is_useful (sym (ok_injective e)) ∙ b
  chosen_Retried n s u value false b h g k = useless_Retried n s u value h g k

  read_Retried :
      (n : ℕ) (s : Session G E) (q : Result (Option X) × Session G E)
      → Reads 1 0 s q
      → pauses q.1.steps ≡ pauses s.steps
      → ((w : Option X) (v : Session G E)
          → Retried is_useful n v (attempts_left lib self is_useful reader n w v))
      → Retried is_useful (suc n) s (
          ◌>>=◌
            (λ _. q)
            (λ value'.
              if is_useful value'
              then pure value'
              else (when (ltb 0 n) (pause lib self)
                  >> attempts_left lib self is_useful reader n value'))
            s)
  read_Retried n s (err e, u) h g k = done-Retried n s u (err e) h λ v f. cc f
  read_Retried n s (ok value, u) h g k = chosen_Retried n s u value (is_useful value) refl h g k

  pub attempts_left-Retried :
      (n : ℕ) (value : Option X) (s : Session G E)
      → Retried is_useful n s (attempts_left lib self is_useful reader n value s)
  unfolding attempts_left
  attempts_left-Retried zero value s = record {
    bounds = record {
      closed = omega arith;
      once = omega arith;
      tried = omega arith;
      paused = omega arith;
      quiet = tt;
    };
    spaced = λ v e f. omega arith;
  }
  attempts_left-Retried (suc n) value s =
      read_Retried n s (one_read lib self reader s) (one_read-Reads lib self reader s)
        (one_read-unpaused lib self reader s) (attempts_left-Retried n)

  -- A read with retries runs three sessions at most and waits twice at most, closes every connection
  -- that it opens, and raises nothing but an authentication failure or a cancellation, where
  -- `asyncio.sleep` raises nothing but a cancellation.
  pub read_retry-Reads : (s : Session G E) → Reads 3 2 s (read_retry lib self is_useful reader s)
  unfolding read_retry
  read_retry-Reads s = (attempts_left-Retried 3 none s).bounds

  -- A read with retries that comes back with a value of no use has waited twice, where
  -- `asyncio.sleep` raises nothing but a cancellation.
  pub read_retry-pauses :
      (v : Option X) (s : Session G E)
      → (read_retry lib self is_useful reader s).0 ≡ ok v
      → is_useful v ≡ false
      → pauses (read_retry lib self is_useful reader s).1.steps ≡ pauses s.steps + 2
  unfolding read_retry
  read_retry-pauses v s = (attempts_left-Retried 3 none s).spaced v
