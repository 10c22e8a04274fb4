-- ===== src/Client/Reads/Normal.antt =====
-- One read of the adapter of custom_components/aqara_u200/client.py, as its caller sees it.
use haos_aqara.Base.{
  ℕ, ◌+◌, ◌≤◌, ◌≡◌, refl, sym, subst, ◌∙◌, ◌⊎◌, inl, inr, Bool, true, false, Option, none, some,
  arith, if◌then◌else◌,
}
use haos_aqara.Errors.{Raised, Result, ok, err, aqara, cancelled, library, authentication}
use haos_aqara.Errors.Chain.{is_auth_failure}
use haos_aqara.Boundary.{Call}
use haos_aqara.Client.Library.{Library}
use haos_aqara.Client.Session.{Adapter, Session, read_failed, ignore_all}
use haos_aqara.Client.Session.Ends.{openings, closings, uses, attempts, pauses}
use haos_aqara.Client.Session.Closes.{
  Source, answered, unreached, broken, interrupted, run_session-Closes,
}
use haos_aqara.Client.Operate.Failures.{ignore_all-cancelled, FailsSanitized}
use haos_aqara.Client.Reads.{read_from, one_read}

-- A read ends with a value or `None`, with an authentication failure, or cancelled.
abbrev pub IsQuiet : {X : Type 0} → Result X → Type 0
IsQuiet (ok x) = Unit
IsQuiet (err cancelled) = Unit
IsQuiet (err (aqara authentication)) = Unit
IsQuiet (err _) = ⊥

-- `None`, or an exception.
abbrev Empty : (X : Type 0) → Result (Option X) → Type 0
Empty X r = (r ≡ ok none) ⊎ FailsSanitized r

module _ (X : Type 0) where
  chosen-IsQuiet :
      (auth : Bool) → IsQuiet {X = Option X} (if auth then err (aqara authentication) else ok none)
  chosen-IsQuiet true = tt
  chosen-IsQuiet false = tt

  chosen-Empty : (auth : Bool) → Empty X (if auth then err (aqara authentication) else ok none)
  chosen-Empty true = inr tt
  chosen-Empty false = inl refl

  read_failed-IsQuiet : (started : Bool) (e : Raised) → IsQuiet (read_failed {X = X} started e)
  unfolding read_failed
  read_failed-IsQuiet started cancelled = tt
  read_failed-IsQuiet started (aqara e) = chosen-IsQuiet (is_auth_failure (aqara e))
  read_failed-IsQuiet started (library objects i) =
      chosen-IsQuiet (is_auth_failure (library objects i))

module _ {G E X : Type 0} where
  Source-IsQuiet :
      (s : Session G E) (q : Result (Option X) × Session G E) → Source read_failed s q → IsQuiet q.0
  Source-IsQuiet s q (answered x p n) = subst IsQuiet (sym p) tt
  Source-IsQuiet s q (unreached e p n) = subst IsQuiet (sym p) (read_failed-IsQuiet X false e)
  Source-IsQuiet s q (broken e p n) = subst IsQuiet (sym p) (read_failed-IsQuiet X true e)
  Source-IsQuiet s q (interrupted p n) = subst IsQuiet (sym p) tt

  -- What a read of at most `n` sessions and `m` pauses guarantees.
  pub record Reads (n m : ℕ) (s : Session G E) (q : Result (Option X) × Session G E) : Type 0 where
    pub closed : openings q.1.steps + closings s.steps ≡ closings q.1.steps + openings s.steps
    pub once : uses q.1.steps ≤ uses s.steps + n
    pub tried : attempts q.1.steps ≤ attempts s.steps + n
    pub paused : pauses q.1.steps ≤ pauses s.steps + m
    pub quiet : IsQuiet q.0

module _ {D G P A E X : Type 0} (lib : Library D G P A E) (self : Adapter A) where
  read_from-Reads :
      (ble_device : Option D) (reader : P → Call E (Option X)) (s : Session G E)
      → Reads 1 0 s (read_from lib self ble_device reader s)
  unfolding read_from
  read_from-Reads none reader s = record {
    closed = omega arith;
    once = omega arith;
    tried = omega arith;
    paused = omega arith;
    quiet = tt;
  }
  read_from-Reads (some ble_device) reader s =
      let h =
        run_session-Closes lib self read_failed ignore_all ignore_all-cancelled ble_device reader
          s in
      record {
        closed = h.balanced;
        once = h.once;
        tried = omega (arith, h.tried);
        paused = omega (arith, h.paused);
        quiet = Source-IsQuiet s _ h.source;
      }

  -- One read makes one session at most, closes what it opened, never waits, and raises nothing but an
  -- authentication failure or a cancellation.
  pub one_read-Reads :
      (reader : P → Call E (Option X)) (s : Session G E) → Reads 1 0 s (one_read lib self reader s)
  unfolding one_read
  one_read-Reads reader s = read_from-Reads (lib.async_ble_device_from_address s.env) reader s

  read_from-unpaused :
      (ble_device : Option D) (reader : P → Call E (Option X)) (s : Session G E)
      → pauses (read_from lib self ble_device reader s).1.steps ≡ pauses s.steps
  unfolding read_from
  read_from-unpaused none reader s = refl
  read_from-unpaused (some ble_device) reader s =
      (run_session-Closes lib self read_failed ignore_all ignore_all-cancelled ble_device reader
        s).paused

  pub one_read-unpaused :
      (reader : P → Call E (Option X)) (s : Session G E)
      → pauses (one_read lib self reader s).1.steps ≡ pauses s.steps
  unfolding one_read
  one_read-unpaused reader s = read_from-unpaused (lib.async_ble_device_from_address s.env) reader s

module _ (X : Type 0) where
  not_some : {x : X} (r : Result (Option X)) → r ≡ ok (some x) → Empty X r → ⊥
  not_some r p (inl q) = cc (p, q)
  not_some r p (inr h) = subst FailsSanitized p h

  read_failed-Empty : (started : Bool) (e : Raised) → Empty X (read_failed started e)
  unfolding read_failed
  read_failed-Empty started cancelled = inr tt
  read_failed-Empty started (aqara e) = chosen-Empty X (is_auth_failure (aqara e))
  read_failed-Empty started (library objects i) =
      chosen-Empty X (is_auth_failure (library objects i))

module _ {G E X : Type 0} where
  Source-answered :
      (s : Session G E) (q : Result (Option X) × Session G E) (x : X)
      → Source read_failed s q
      → q.0 ≡ ok (some x)
      → uses q.1.steps ≡ uses s.steps + 1
  Source-answered s q x (answered y p n) u = n
  Source-answered s q x (unreached e p n) u =
      elim (not_some X (read_failed false e) (sym p ∙ u) (read_failed-Empty X false e)) [ ]
  Source-answered s q x (broken e p n) u = n
  Source-answered s q x (interrupted p n) u = cc (p, u)

module _ {D G P A E X : Type 0} (lib : Library D G P A E) (self : Adapter A) where
  read_from-answered :
      (ble_device : Option D) (reader : P → Call E (Option X)) (s : Session G E) (x : X)
      → (read_from lib self ble_device reader s).0 ≡ ok (some x)
      → uses (read_from lib self ble_device reader s).1.steps ≡ uses s.steps + 1
  unfolding read_from
  read_from-answered none reader s x p = cc p
  read_from-answered (some ble_device) reader s x p =
      Source-answered s _ x
        (run_session-Closes lib self read_failed ignore_all ignore_all-cancelled ble_device reader
          s).source
        p

  pub one_read-answered :
      (reader : P → Call E (Option X)) (s : Session G E) (x : X)
      → (one_read lib self reader s).0 ≡ ok (some x)
      → uses (one_read lib self reader s).1.steps ≡ uses s.steps + 1
  unfolding one_read
  one_read-answered reader s x p =
      read_from-answered (lib.async_ble_device_from_address s.env) reader s x p
