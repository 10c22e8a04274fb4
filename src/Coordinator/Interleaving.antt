-- ===== src/Coordinator/Interleaving.antt =====
-- The coroutines of custom_components/aqara_u200/coordinator.py side by side: any number of
-- operations, guarded reads and held listens over the one `asyncio.Lock` of the coordinator. Each
-- `await` is a point where another one may go on. The lock hands itself to its waiters in the order
-- in which they came; a coroutine that finds it free passes through the queue as well, in two steps.
pub mod Assign
pub mod Kept
pub mod Abstract
pub mod Owner
pub mod Shown
pub mod Visible
use haos_aqara.Base.{
  ℕ, suc, ◌+◌, ◌≡◌, Bool, true, false, not, ◌&&◌, Option, none, some, List, [], ◌∷◌, ◌++◌, ◌==◌,
  nat_eq, if◌then◌else◌,
}
use haos_aqara.Errors.{Result}
use haos_aqara.Exec.{modify, catch, finally}
use haos_aqara.Boundary.{Callback, Context}
use haos_aqara.Settings.Data.{ReadName, Value}
use haos_aqara.Coordinator.State.{Operation, pending, done, Effect, World}
use haos_aqara.Coordinator.Callbacks.{emit, update, preempt_listen, run_callback}
use haos_aqara.Coordinator.Read.{set_lock, finish_read}
use haos_aqara.Coordinator.Operation.{set_locked, apply_value, begin, finish, on_error}
use haos_aqara.Coordinator.Refresh.Tasks.{Action, act}
use haos_aqara.Coordinator.Interleaving.Assign.{assign}

-- What a coroutine wants the lock for.
pub data Want : Type 0 where
  operation : Operation → Want
  read : ReadName → Want
  listen : Want

-- Where a coroutine stands: outside, at `async with self._operation_lock`, or within it.
pub data Place : Type 0 where
  outside : Place
  waiting holding : Want → Place

abbrev pub is_waiting : Place → Bool
is_waiting (waiting want) = true
is_waiting _ = false

-- A part of an operation, or of the listen, between two of its `await`s: the value that is read to
-- confirm a write, the position that was observed, an event or a notification of the presence
-- ladder, and the end of the task of the listen.
pub data Stretch : Want → Type 0 where
  applied : {op : Operation} (name : ReadName) → Option (Value name) → Stretch (operation op)
  observed : {op : Operation} → Option Bool → Stretch (operation op)
  shown : {op : Operation} → Effect → Stretch (operation op)
  ended : Stretch listen

-- How the awaited part ends, for an operation, a read and a listen.
abbrev pub Outcome : Want → Type 0
Outcome (operation op) = Result (Unit {0})
Outcome (read name) = Result (Option (Value name))
Outcome listen = Result (Unit {0})

-- The coordinator, the waiters of the lock, and where each coroutine stands.
pub record System (E : Type 0) : Type 0 where
  pub world : World E
  pub queue : List ℕ
  pub place : ℕ → Place

-- `deque.remove` of a waiter
pub drop : ℕ → List ℕ → List ℕ
drop i [] = []
drop i (j ∷ queue) = let rest = drop i queue in if j == i then queue else j ∷ rest

module _ {E : Type 0} where
  -- The tests before the lock is asked for.
  unfoldable pub may_ask : Want → World E → Bool
  may_ask (operation op) w = true
  may_ask (read name) w = w.bluetooth.reachable
  may_ask listen w = not w.self.realtime_stop && w.bluetooth.reachable

  -- `_preempt_listen`, which the listen itself does not call
  unfoldable pub ask : Want → World E → World E
  unfolding preempt_listen
  ask (operation op) w = preempt_listen w
  ask (read name) w = preempt_listen w
  ask listen w = w

  -- The test behind the lock, of the operations only
  unfoldable pub may_start : Want → World E → Bool
  may_start (operation op) w = w.bluetooth.reachable
  may_start (read name) w = true
  may_start listen w = true

  -- The code on the way out of a refused operation
  unfoldable pub refuse : World E → World E
  unfolding set_lock
  refuse w = set_lock false (set_lock true w)

module _ {E : Type 0} (cx : Context E) where
  -- From the lock to the first `await` behind it
  unfoldable pub start : Want → World E → World E
  unfolding set_lock begin
  start (operation op) w = begin cx op (set_lock true w)
  start (read name) w = set_lock true w
  start listen w = update (λ self. record self { listen_handle = some pending }) (set_lock true w)

  unfoldable pub go_on : {want : Want} → Stretch want → World E → World E
  unfolding apply_value set_locked
  go_on (applied name value) w = apply_value name value w
  go_on (observed {op} position) w = update (set_locked op position) w
  go_on (shown effect) w = emit effect w
  go_on ended w = update (λ self. record self { listen_handle = some done }) w

  -- From the end of the awaited part to the end of the coroutine, the release of the lock included
  unfoldable pub stop : (want : Want) → Outcome want → World E → World E
  unfolding set_lock finish on_error finish_read
  stop (operation op) outcome w =
      set_lock false (finally (catch (λ v. (outcome, v)) (on_error cx)) (modify (finish cx)) w).1
  stop (read name) outcome w = (finish_read cx name outcome (set_lock false w)).1
  stop listen outcome w = set_lock false (update (λ self. record self { listen_handle = none }) w)

  -- One step, by one coroutine or by Home Assistant.
  pub data Step (s : System E) : System E → Type 0 where
    asks :
        (i : ℕ) (want : Want)
        → s.place i ≡ outside
        → may_ask want s.world ≡ true
        → Step s (record {
          world = ask want s.world;
          queue = s.queue ++ i ∷ [];
          place = assign s.place i (waiting want);
        })
    -- cancelled while it waits
    gives_up :
        (i : ℕ) (want : Want)
        → s.place i ≡ waiting want
        → Step s
            (record { world = s.world; queue = drop i s.queue; place = assign s.place i outside })
    enters :
        (i : ℕ) (want : Want) (rest : List ℕ)
        → s.queue ≡ i ∷ rest
        → s.place i ≡ waiting want
        → s.world.self.operation_lock ≡ false
        → may_start want s.world ≡ true
        → Step s (record {
          world = start want s.world;
          queue = rest;
          place = assign s.place i (holding want);
        })
    is_refused :
        (i : ℕ) (want : Want) (rest : List ℕ)
        → s.queue ≡ i ∷ rest
        → s.place i ≡ waiting want
        → s.world.self.operation_lock ≡ false
        → may_start want s.world ≡ false
        → Step s (record { world = refuse s.world; queue = rest; place = assign s.place i outside })
    goes_on :
        (i : ℕ) (want : Want) (stretch : Stretch want)
        → s.place i ≡ holding want
        → Step s (record { world = go_on stretch s.world; queue = s.queue; place = s.place })
    leaves :
        (i : ℕ) (want : Want) (outcome : Outcome want)
        → s.place i ≡ holding want
        → Step s (record {
          world = stop want outcome s.world;
          queue = s.queue;
          place = assign s.place i outside;
        })
    called_back :
        (c : Callback)
        → Step s (record { world = run_callback cx c s.world; queue = s.queue; place = s.place })
    -- the tasks are started and stopped
    acts :
        (a : Action) → Step s (record { world = act a s.world; queue = s.queue; place = s.place })

  -- What the steps lead to from a coordinator that no coroutine uses.
  pub data Reach (w : World E) : System E → Type 0 where
    begins : Reach w (record { world = w; queue = []; place = λ i. outside })
    later : {s t : System E} → Reach w s → Step s t → Reach w t
