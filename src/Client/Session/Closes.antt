-- ===== src/Client/Session/Closes.antt =====
-- How a whole session of custom_components/aqara_u200/client.py ends, in counts of its steps.
use haos_aqara.Base.{
  ℕ, ◌+◌, ◌≤◌, ◌≡◌, refl, sym, subst, ap, Bool, true, false, Option, none, some, arith,
}
use haos_aqara.Errors.{Raised, Result, ok, err, cancelled}
use haos_aqara.Exec.{catch, finally}
use haos_aqara.Boundary.{Call}
use haos_aqara.Client.Library.{Library}
use haos_aqara.Client.Session.{
  Adapter, Session, run_session, body, release, disconnect, recover, await, give, step, fresh,
  disconnecting, disconnect_timeout,
}
use haos_aqara.Client.Session.Ends.{
  openings, closings, uses, attempts, pauses, Tried, unconnected, unused, ran, body-Tried,
}

-- Where the outcome of a session comes from: the answer of the library, a failure before its call
-- or in it, or a cancellation of the disconnection.
pub data Source {G E X : Type 0} (failed : Bool → Raised → Result X) (s : Session G E)
    : Result X × Session G E → Type 0 where
  answered :
      {q : Result X × Session G E} (x : X)
      → q.0 ≡ ok x
      → uses q.1.steps ≡ uses s.steps + 1
      → Source failed s q
  unreached :
      {q : Result X × Session G E} (e : Raised)
      → q.0 ≡ failed false e
      → uses q.1.steps ≡ uses s.steps
      → Source failed s q
  broken :
      {q : Result X × Session G E} (e : Raised)
      → q.0 ≡ failed true e
      → uses q.1.steps ≡ uses s.steps + 1
      → Source failed s q
  interrupted :
      {q : Result X × Session G E}
      → q.0 ≡ err cancelled
      → uses q.1.steps ≤ uses s.steps + 1
      → Source failed s q

pub record Closes {G E X : Type 0} (failed : Bool → Raised → Result X) (s : Session G E)
    (q : Result X × Session G E) : Type 0 where
  pub balanced : openings q.1.steps + closings s.steps ≡ closings q.1.steps + openings s.steps
  pub once : uses q.1.steps ≤ uses s.steps + 1
  pub tried : attempts q.1.steps ≡ attempts s.steps + 1
  pub paused : pauses q.1.steps ≡ pauses s.steps
  pub source : Source failed s q

module _ {G E X : Type 0} (failed : Bool → Raised → Result X) where
  -- The same, before the clean-up: `closed` disconnections are left to do.
  pub record Left (c : ℕ) (s : Session G E) (q : Result X × Session G E) : Type 0 where
    pub opened : openings q.1.steps ≡ openings s.steps + c
    pub closed : closings q.1.steps ≡ closings s.steps
    pub once : uses q.1.steps ≤ uses s.steps + 1
    pub tried : attempts q.1.steps ≡ attempts s.steps + 1
    pub paused : pauses q.1.steps ≡ pauses s.steps
    pub source : Source failed s q

abbrev opened_as : {G : Type 0} → Option G → ℕ
opened_as none = 0
opened_as (some g) = 1

module _ {D G P A E X : Type 0} (lib : Library D G P A E) (self : Adapter A)
    (failed : Bool → Raised → Result X) (except : Result (Unit {0}) → Result (Unit {0}))
    (quiet : (r : Result (Unit {0})) (e : Raised) → except r ≡ err e → e ≡ cancelled) where
  closed_Closes :
      (s u v : Session G E) (r : Result X) (z : Result (Unit {0}))
      → Closes failed s (r, v)
      → ((e : Raised) → z ≡ err e → e ≡ cancelled)
      → Closes failed s (finally (λ _. (r, u)) (λ _. (z, v)) u)
  closed_Closes s u v r (ok tt) h p = h
  closed_Closes s u v r (err e) h p = record {
    balanced = h.balanced;
    once = h.once;
    tried = h.tried;
    paused = h.paused;
    source = interrupted (ap err (p e refl)) h.once;
  }

  Source-step :
      (s u v : Session G E) (r : Result X)
      → uses v.steps ≡ uses u.steps
      → Source failed s (r, u)
      → Source failed s (r, v)
  Source-step s u v r p (answered x e n) = answered x e (cc (p, n))
  Source-step s u v r p (unreached x e n) = unreached x e (cc (p, n))
  Source-step s u v r p (broken x e n) = broken x e (cc (p, n))
  Source-step s u v r p (interrupted e n) = interrupted e (omega (arith, p, n))

  released_Closes :
      (s u : Session G E) (r : Result X) (c : Option G)
      → Left failed (opened_as c) s (r, u)
      → Closes failed s (finally (λ _. (r, u)) (disconnect lib self except c) u)
  unfolding disconnect step await give openings closings uses attempts pauses
  released_Closes s u r none h = record {
    balanced = omega (arith, h.opened, h.closed);
    once = h.once;
    tried = h.tried;
    paused = h.paused;
    source = h.source;
  }
  released_Closes s u r (some g) h =
      let z = await (lib.disconnect disconnect_timeout g) (step disconnecting u) in
      closed_Closes s u z.1 r (except z.0)
        (record {
          balanced = omega (arith, h.opened, h.closed);
          once = h.once;
          tried = h.tried;
          paused = h.paused;
          source = Source-step s u z.1 r refl h.source;
        })
        (quiet z.0)

  released_at :
      (s u : Session G E) (r : Result X) (c : Option G)
      → u.bleak_client ≡ c
      → Left failed (opened_as c) s (r, u)
      → Closes failed s (finally (λ _. (r, u)) (release lib self except) u)
  unfolding release
  released_at s u r c p h =
      released_Closes s u r u.bleak_client
        (subst (λ c'. Left failed (opened_as c') s (r, u)) (sym p) h)

  caught_Closes :
      (s : Session G E) (q : Result X × Session G E)
      → Tried s q
      → Closes failed s (finally (catch (λ _. q) (recover failed)) (release lib self except) s)
  unfolding recover give release
  caught_Closes s (ok x, u) (ran g c n h) = released_at s u (ok x) (some g) c (record {
    opened = h.opened;
    closed = omega (arith, h.closed);
    once = omega (arith, h.used_for);
    tried = h.tried;
    paused = omega (arith, h.paused);
    source = answered x refl h.used_for;
  })
  caught_Closes s (err e, u) (ran g c n h) =
      released_at s u (failed u.started e) (some g) c (record {
        opened = h.opened;
        closed = omega (arith, h.closed);
        once = omega (arith, h.used_for);
        tried = h.tried;
        paused = omega (arith, h.paused);
        source = broken e (ap (λ b. failed b e) n) h.used_for;
      })
  caught_Closes s (err e, u) (unused g c n h) =
      released_at s u (failed u.started e) (some g) c (record {
        opened = h.opened;
        closed = omega (arith, h.closed);
        once = omega (arith, h.used_for);
        tried = h.tried;
        paused = omega (arith, h.paused);
        source = unreached e (ap (λ b. failed b e) n) (omega (arith, h.used_for));
      })
  caught_Closes s (err e, u) (unconnected c n h) =
      released_at s u (failed u.started e) none c (record {
        opened = h.opened;
        closed = omega (arith, h.closed);
        once = omega (arith, h.used_for);
        tried = h.tried;
        paused = omega (arith, h.paused);
        source = unreached e (ap (λ b. failed b e) n) (omega (arith, h.used_for));
      })

  pub run_session-Closes :
      (ble_device : D) (call : P → Call E X) (s : Session G E)
      → Closes failed s (run_session lib self failed except ble_device call s)
  unfolding run_session
  run_session-Closes ble_device call s =
      caught_Closes s (body lib self ble_device call (fresh s))
        (body-Tried lib self call ble_device s)
