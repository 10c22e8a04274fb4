-- ===== src/Coordinator/Refresh/Tasks.antt =====
-- The two background tasks of custom_components/aqara_u200/coordinator.py: how often they are started
-- and stopped.
use haos_aqara.Base.{
  ℕ, suc, ◌+◌, ◌≡◌, refl, ap, Bool, true, false, Option, none, some, List, [], ◌∷◌, ◌++◌, arith,
  if◌then◌else◌,
}
use haos_aqara.Coordinator.State.{
  World, Effect, Handle, pending, done, task_created, task_cancelled, realtime, battery,
  listen_cancelled,
}
use haos_aqara.Coordinator.Callbacks.{preempt_listen, emit, update}
use haos_aqara.Coordinator.Refresh.{
  async_start_realtime, async_stop_realtime, async_start_battery, async_stop_battery,
}

-- How often each task was created and cancelled.
unfoldable pub created_realtime : List Effect → ℕ
created_realtime [] = 0
created_realtime (task_created realtime ∷ effects) = suc (created_realtime effects)
created_realtime (_ ∷ effects) = created_realtime effects

unfoldable pub cancelled_realtime : List Effect → ℕ
cancelled_realtime [] = 0
cancelled_realtime (task_cancelled realtime ∷ effects) = suc (cancelled_realtime effects)
cancelled_realtime (_ ∷ effects) = cancelled_realtime effects

created_realtime-append :
    (xs ys : List Effect) → created_realtime (xs ++ ys) ≡ created_realtime xs + created_realtime ys
unfolding created_realtime
created_realtime-append [] ys = omega arith
created_realtime-append (task_created realtime ∷ xs) ys =
    omega (arith, created_realtime-append xs ys)
created_realtime-append (_ ∷ xs) ys = created_realtime-append xs ys

cancelled_realtime-append :
    (xs ys : List Effect)
    → cancelled_realtime (xs ++ ys) ≡ cancelled_realtime xs + cancelled_realtime ys
unfolding cancelled_realtime
cancelled_realtime-append [] ys = omega arith
cancelled_realtime-append (task_cancelled realtime ∷ xs) ys =
    omega (arith, cancelled_realtime-append xs ys)
cancelled_realtime-append (_ ∷ xs) ys = cancelled_realtime-append xs ys

-- What a setup, a change of the options and an unload do to the tasks.
pub data Action : Type 0 where
  start_realtime stop_realtime start_battery stop_battery : Action

abbrev as_one : Bool → ℕ
as_one true = 1
as_one false = 0

module _ {E : Type 0} where
  abbrev pub act : Action → World E → World E
  act start_realtime w = async_start_realtime w
  act stop_realtime w = async_stop_realtime w
  act start_battery w = async_start_battery w
  act stop_battery w = async_stop_battery w

  abbrev pub act_all : List Action → World E → World E
  act_all [] w = w
  act_all (action ∷ actions) w = act_all actions (act action w)

  -- The listen task that the field stands for is the only one that was created and not cancelled.
  pub record HasOne (w : World E) : Type 0 where
    pub balance :
        created_realtime w.effects ≡ cancelled_realtime w.effects + as_one w.self.realtime_task

  -- Two more effects of which none, one or the other is of this task.
  grown-HasOne :
      (w : World E) (b : Bool) (new : List Effect)
      → created_realtime w.effects + created_realtime new
        ≡ cancelled_realtime w.effects + cancelled_realtime new + as_one b
      → (w' : World E) → w'.effects ≡ w.effects ++ new
      → w'.self.realtime_task ≡ b
      → HasOne w'
  grown-HasOne w b new e w' p q = record {
    balance =
        rw (p, q)
          (omega (
            arith,
            created_realtime-append w.effects new,
            cancelled_realtime-append w.effects new,
            e,
          ));
  }

  start_case :
      (w : World E) (task : Bool)
      → w.self.realtime_task ≡ task
      → HasOne w
      → HasOne (
          if task
          then w
          else emit
              (task_created realtime)
              (update (λ self. record self { realtime_stop = false; realtime_task = true }) w))
  unfolding created_realtime cancelled_realtime
  start_case w true p h = h
  start_case w false p h =
      grown-HasOne w true (task_created realtime ∷ []) (omega (arith, h.balance, ap as_one p)) _
        refl refl

  start_realtime-HasOne : (w : World E) → HasOne w → HasOne (async_start_realtime w)
  unfolding async_start_realtime
  start_realtime-HasOne w h = start_case w w.self.realtime_task refl h

  preempt_case :
      (w : World E) (handle : Option Handle)
      → HasOne w
      → HasOne (elim handle [ some pending ↦ emit listen_cancelled w | _ ↦ w ])
  unfolding created_realtime cancelled_realtime
  preempt_case w none h = h
  preempt_case w (some done) h = h
  preempt_case w (some pending) h =
      grown-HasOne w w.self.realtime_task (listen_cancelled ∷ []) (omega (arith, h.balance)) _ refl
        refl

  preempt_listen-HasOne : (w : World E) → HasOne w → HasOne (preempt_listen w)
  unfolding preempt_listen
  preempt_listen-HasOne w h = preempt_case w w.self.listen_handle h

  stop_case :
      (w : World E) (task : Bool)
      → w.self.realtime_task ≡ task
      → HasOne w
      → HasOne (
          if task
          then emit
              (task_cancelled realtime)
              (update (λ self. record self { realtime_task = false }) w)
          else w)
  unfolding created_realtime cancelled_realtime
  stop_case w false p h = h
  stop_case w true p h =
      grown-HasOne w false (task_cancelled realtime ∷ []) (omega (arith, h.balance, ap as_one p)) _
        refl refl

  stop_realtime-HasOne : (w : World E) → HasOne w → HasOne (async_stop_realtime w)
  unfolding async_stop_realtime
  stop_realtime-HasOne w h =
      let w' = update (λ self. record self { realtime_stop = true }) w in
      stop_case (preempt_listen w') (preempt_listen w').self.realtime_task refl
        (preempt_listen-HasOne w' (record { balance = h.balance }))

  battery_case :
      (w w' : World E) (e : Effect) (test : Bool)
      → created_realtime (e ∷ []) ≡ 0
      → cancelled_realtime (e ∷ []) ≡ 0
      → w'.effects ≡ w.effects ++ e ∷ []
      → w'.self.realtime_task ≡ w.self.realtime_task
      → (w'' : World E) → w''.effects ≡ w.effects
      → w''.self.realtime_task ≡ w.self.realtime_task
      → HasOne w
      → HasOne (if test then w'' else w')
  battery_case w w' e true c d p q w'' p' q' h = record { balance = rw (p', q') h.balance }
  battery_case w w' e false c d p q w'' p' q' h =
      grown-HasOne w w.self.realtime_task (e ∷ []) (omega (arith, h.balance, c, d)) w' p q

  start_battery-HasOne : (w : World E) → HasOne w → HasOne (async_start_battery w)
  unfolding async_start_battery created_realtime cancelled_realtime
  start_battery-HasOne w h =
      battery_case w _ (task_created battery) w.self.battery_task refl refl refl refl w refl refl h

  stop_battery_case :
      (w : World E) (task : Bool)
      → HasOne w
      → HasOne (
          if task
          then emit (task_cancelled battery) (
              update
                (λ self. record self { battery_task = false })
                (update (λ self. record self { battery_stop = true }) w))
          else update (λ self. record self { battery_stop = true }) w)
  unfolding created_realtime cancelled_realtime
  stop_battery_case w false h = record { balance = h.balance }
  stop_battery_case w true h =
      grown-HasOne w w.self.realtime_task (task_cancelled battery ∷ []) (omega (arith, h.balance)) _
        refl refl

  stop_battery-HasOne : (w : World E) → HasOne w → HasOne (async_stop_battery w)
  unfolding async_stop_battery created_realtime cancelled_realtime
  stop_battery-HasOne w h = stop_battery_case w w.self.battery_task h

  -- Whatever the order in which the tasks are started and stopped, there is at most one task of the
  -- real-time listen: as many were created as were cancelled, and one more exactly while the field
  -- holds one.
  pub act_all-HasOne : (actions : List Action) (w : World E) → HasOne w → HasOne (act_all actions w)
  act_all-HasOne [] w h = h
  act_all-HasOne (start_realtime ∷ actions) w h =
      act_all-HasOne actions _ (start_realtime-HasOne w h)
  act_all-HasOne (stop_realtime ∷ actions) w h = act_all-HasOne actions _ (stop_realtime-HasOne w h)
  act_all-HasOne (start_battery ∷ actions) w h = act_all-HasOne actions _ (start_battery-HasOne w h)
  act_all-HasOne (stop_battery ∷ actions) w h = act_all-HasOne actions _ (stop_battery-HasOne w h)
