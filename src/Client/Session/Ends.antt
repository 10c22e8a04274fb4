-- ===== src/Client/Session/Ends.antt =====
-- How the `try` block of a session of custom_components/aqara_u200/client.py ends, in counts of its
-- steps.
use haos_aqara.Base.{ℕ, suc, ◌+◌, ◌≡◌, refl, true, false, none, some, List, [], ◌∷◌, arith}
use haos_aqara.Errors.{Raised, Result, ok, err}
use haos_aqara.Exec.{modify, ◌>>=◌, ◌>>◌}
use haos_aqara.Boundary.{Call}
use haos_aqara.Client.Library.{Library}
use haos_aqara.Client.Session.{
  Adapter, Session, Step, connecting, connected, used, disconnecting, slept, body, connect,
  from_gatt, fresh, start, invoke, connected_to, await, step, ble_device_callback,
}

-- The connections that were opened.
unfoldable pub openings : List Step → ℕ
openings [] = 0
openings (connected ∷ steps) = suc (openings steps)
openings (_ ∷ steps) = openings steps

-- The connections that were closed.
unfoldable pub closings : List Step → ℕ
closings [] = 0
closings (disconnecting ∷ steps) = suc (closings steps)
closings (_ ∷ steps) = closings steps

-- The calls of the library that a connection was opened for.
unfoldable pub uses : List Step → ℕ
uses [] = 0
uses (used ∷ steps) = suc (uses steps)
uses (_ ∷ steps) = uses steps

-- The attempts to connect.
unfoldable pub attempts : List Step → ℕ
attempts [] = 0
attempts (connecting ∷ steps) = suc (attempts steps)
attempts (_ ∷ steps) = attempts steps

-- The pauses.
unfoldable pub pauses : List Step → ℕ
pauses [] = 0
pauses (slept ∷ steps) = suc (pauses steps)
pauses (_ ∷ steps) = pauses steps

module _ {G E : Type 0} where
  -- What the steps from `s` to `u` add up to.
  pub record Counts (o c n a p : ℕ) (s u : Session G E) : Type 0 where
    pub opened : openings u.steps ≡ openings s.steps + o
    pub closed : closings u.steps ≡ closings s.steps + c
    pub used_for : uses u.steps ≡ uses s.steps + n
    pub tried : attempts u.steps ≡ attempts s.steps + a
    pub paused : pauses u.steps ≡ pauses s.steps + p

  -- How the `try` block ends: without a connection, before the call of the library, or after it.
  pub data Tried {X : Type 0} (s : Session G E) : Result X × Session G E → Type 0 where
    unconnected :
        {e : Raised} {u : Session G E}
        → u.bleak_client ≡ none
        → u.started ≡ false
        → Counts 0 0 0 1 0 s u
        → Tried s (err e, u)
    unused :
        {e : Raised} {u : Session G E} (g : G)
        → u.bleak_client ≡ some g
        → u.started ≡ false
        → Counts 1 0 0 1 0 s u
        → Tried s (err e, u)
    ran :
        {r : Result X} {u : Session G E} (g : G)
        → u.bleak_client ≡ some g
        → u.started ≡ true
        → Counts 1 0 1 1 0 s u
        → Tried s (r, u)

module _ {D G P A E X : Type 0} (lib : Library D G P A E) (self : Adapter A)
    (call : P → Call E X) where
  used_Tried :
      (s u : Session G E) (g : G) (q : Result P × Session G E)
      → q.1.bleak_client ≡ some g
      → q.1.started ≡ false
      → Counts 1 0 0 1 0 s q.1
      → Tried s (◌>>=◌ (λ _. q) (λ p. modify start >> invoke (call p)) u)
  unfolding start invoke step await openings closings uses attempts pauses
  used_Tried s u g (ok p, v) c n h = ran g c refl (record {
    opened = h.opened;
    closed = h.closed;
    used_for = omega (arith, h.used_for);
    tried = h.tried;
    paused = h.paused;
  })
  used_Tried s u g (err e, v) c n h = unused g c n h

  connected_Tried :
      (s v : Session G E) (q : Result G × Session G E)
      → q.1.bleak_client ≡ none
      → q.1.started ≡ false
      → Counts 0 0 0 1 0 s q.1
      → Tried s (
          ◌>>=◌
            (◌>>=◌ (λ _. q) (λ g. modify (connected_to g) >> from_gatt lib self g))
            (λ p. modify start >> invoke (call p))
            v)
  unfolding connected_to from_gatt openings closings uses attempts pauses
  connected_Tried s v (err e, u) c n h = unconnected c n h
  connected_Tried s v (ok g, u) c n h =
      used_Tried s v g (from_gatt lib self g (connected_to g u)) refl n (record {
        opened = omega (arith, h.opened);
        closed = h.closed;
        used_for = h.used_for;
        tried = h.tried;
        paused = h.paused;
      })

  pub body-Tried :
      (ble_device : D) (s : Session G E) → Tried s (body lib self ble_device call (fresh s))
  unfolding body connect fresh step await ble_device_callback openings closings uses attempts pauses
  body-Tried ble_device s =
      connected_Tried s (fresh s)
        (await (lib.establish_connection ble_device (ble_device_callback lib self ble_device))
          (step connecting (fresh s)))
        refl refl
        (record {
          opened = omega arith;
          closed = omega arith;
          used_for = omega arith;
          tried = omega arith;
          paused = omega arith;
        })
