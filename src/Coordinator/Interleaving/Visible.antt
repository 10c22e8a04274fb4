-- ===== src/Coordinator/Interleaving/Visible.antt =====
-- What the entities see of custom_components/aqara_u200/coordinator.py while several coroutines run.
use haos_aqara.Base.{
  ◌≡◌, refl, ap, sym, subst, Bool, true, false, option_eq, bool_eq, nat_eq, none, some,
}
use haos_aqara.Boundary.{Context}
use haos_aqara.Coordinator.State.{World, build_snapshot}
use haos_aqara.Coordinator.Callbacks.{publish, run_callback}
use haos_aqara.Coordinator.Read.{set_lock}
use haos_aqara.Coordinator.Operation.{begin, on_error}
use haos_aqara.Exec.{catch}
use haos_aqara.Coordinator.Refresh.Tasks.{act}
use haos_aqara.Coordinator.Interleaving.{
  Want, operation, read, listen, Stretch, applied, observed, shown, ended, Outcome, ask, start,
  go_on, stop, refuse, System, Step, asks, gives_up, enters, is_refused, goes_on, leaves,
  called_back, acts, Reach, begins, later,
}
use haos_aqara.Coordinator.Interleaving.Kept.{
  marks, Serves, marks-ask, marks-run_callback, marks-act, go_on-Serves,
}
use haos_aqara.Coordinator.Interleaving.Owner.{Reach-alone, Reach-free}
use haos_aqara.Coordinator.Interleaving.Shown.{
  Shows, ask-Shows, refuse-Shows, run_callback-Shows, act-Shows, finish_read-Shows, set_lock-Shows,
  finish-Shows,
}

module _ {E : Type 0} (cx : Context E) where
  abbrev ShowsUnless : Bool → World E → Type 0
  ShowsUnless true w = Unit
  ShowsUnless false w = Shows cx w

  -- Marks that stay, or become those of an operation, leave nothing new to show.
  unless :
      (before now : Bool) (v w : World E)
      → now ≡ before
      → (Shows cx w → Shows cx v)
      → ShowsUnless before w
      → ShowsUnless now v
  unless true true v w e f h = tt
  unless false false v w e f h = f h
  unless true false v w e f h = cc
  unless false true v w e f h = tt

  quiet_if : (now : Bool) (w : World E) → Shows cx w → ShowsUnless now w
  quiet_if true w h = tt
  quiet_if false w h = h

  kept_quiet : (w : World E) → Shows cx w → ShowsUnless w.self.operation_in_progress w
  kept_quiet w = quiet_if w.self.operation_in_progress w

  busy :
      (w : World E)
      → w.self.operation_in_progress ≡ true
      → ShowsUnless w.self.operation_in_progress w
  busy w e = subst (λ b. ShowsUnless b w) (sym e) tt

  quiet : (now : Bool) (w : World E) → now ≡ false → ShowsUnless now w → Shows cx w
  quiet now w e h = subst (λ b. ShowsUnless b w) e h

  -- Within the lock only an operation changes what the entities see, and not publish it at once.
  start-ShowsUnless :
      (want : Want) (w : World E)
      → Serves none (marks w.self)
      → Shows cx w
      → ShowsUnless (start cx want w).self.operation_in_progress (start cx want w)
  unfolding start set_lock build_snapshot begin publish
  start-ShowsUnless (operation op) w (free, still, no_listen) h =
      busy (start cx (operation op) w) refl
  start-ShowsUnless (read name) w (free, still, no_listen) h = kept_quiet (start cx (read name) w) h
  start-ShowsUnless listen w (free, still, no_listen) h = kept_quiet (start cx listen w) h

  stop-Shows :
      (want : Want) (outcome : Outcome want) (w : World E)
      → Serves (some want) (marks w.self)
      → ShowsUnless w.self.operation_in_progress w
      → Shows cx (stop cx want outcome w)
  unfolding stop set_lock build_snapshot
  stop-Shows (operation op) outcome w serves h =
      finish-Shows cx (catch (λ v. (outcome, v)) (on_error cx) w).1
  stop-Shows (read name) outcome w (held, still, no_listen) h =
      finish_read-Shows cx name outcome (set_lock false w)
        (set_lock-Shows cx false w (quiet w.self.operation_in_progress w still h))
  stop-Shows listen outcome w (held, still, listening) h =
      quiet w.self.operation_in_progress w still h

  ended-ShowsUnless :
      (w : World E)
      → ShowsUnless w.self.operation_in_progress w
      → ShowsUnless (go_on cx ended w).self.operation_in_progress (go_on cx ended w)
  unfolding go_on build_snapshot
  ended-ShowsUnless w h = unless w.self.operation_in_progress _ (go_on cx ended w) w refl (λ k. k) h

  go_on-ShowsUnless :
      {want : Want} (stretch : Stretch want) (w : World E)
      → Serves (some want) (marks w.self)
      → ShowsUnless w.self.operation_in_progress w
      → ShowsUnless (go_on cx stretch w).self.operation_in_progress (go_on cx stretch w)
  go_on-ShowsUnless (applied name value) w serves h =
      busy (go_on cx (applied name value) w) (go_on-Serves cx (applied name value) w serves).1
  go_on-ShowsUnless (observed position) w serves h =
      busy (go_on cx (observed position) w) (go_on-Serves cx (observed position) w serves).1
  go_on-ShowsUnless (shown effect) w serves h =
      busy (go_on cx (shown effect) w) (go_on-Serves cx (shown effect) w serves).1
  go_on-ShowsUnless ended w serves h = ended-ShowsUnless w h

  module _ {w : World E} (unused : Serves none (marks w.self)) where
    Step-ShowsUnless :
        {s t : System E}
        → Reach cx w s
        → Step cx s t
        → ShowsUnless s.world.self.operation_in_progress s.world
        → ShowsUnless t.world.self.operation_in_progress t.world
    Step-ShowsUnless {s} r (asks i want out may) h =
        unless _ _ (ask want s.world) s.world (ap (λ m. m.in_progress) (marks-ask want s.world))
          (ask-Shows cx want s.world) h
    Step-ShowsUnless r (gives_up i want waits) h = h
    Step-ShowsUnless {s} r (enters i want rest head waits free may) h =
        let serves = Reach-free cx unused r free in
        start-ShowsUnless want s.world serves (quiet _ s.world serves.1 h)
    Step-ShowsUnless {s} r (is_refused i want rest head waits free may) h =
        kept_quiet (refuse s.world)
          (refuse-Shows cx s.world (quiet _ s.world (Reach-free cx unused r free).1 h))
    Step-ShowsUnless {s} r (goes_on i want stretch holds) h =
        go_on-ShowsUnless stretch s.world (Reach-alone cx unused r i want holds).0 h
    Step-ShowsUnless {s} r (leaves i want outcome holds) h =
        kept_quiet (stop cx want outcome s.world)
          (stop-Shows want outcome s.world (Reach-alone cx unused r i want holds).0 h)
    Step-ShowsUnless {s} r (called_back c) h =
        unless _ _ (run_callback cx c s.world) s.world
          (ap (λ m. m.in_progress) (marks-run_callback cx c s.world))
          (run_callback-Shows cx c s.world) h
    Step-ShowsUnless {s} r (acts a) h =
        unless _ _ (act a s.world) s.world (ap (λ m. m.in_progress) (marks-act a s.world))
          (act-Shows cx a s.world) h

    Reach-ShowsUnless :
        {s : System E}
        → Shows cx w
        → Reach cx w s
        → ShowsUnless s.world.self.operation_in_progress s.world
    Reach-ShowsUnless coherent begins = kept_quiet w coherent
    Reach-ShowsUnless coherent (later r st) = Step-ShowsUnless r st (Reach-ShowsUnless coherent r)

    -- Whatever coroutines run, in any interleaving, and whatever is called back, from a coordinator
    -- that nobody uses and whose state the entities see: while no operation is in progress, the
    -- entities see the state as it is, but for the type of the last error, which a read that the cloud
    -- refuses notes and does not publish.
    pub Reach-Shows :
        {s : System E}
        → Shows cx w
        → Reach cx w s
        → s.world.self.operation_in_progress ≡ false
        → Shows cx s.world
    Reach-Shows {s} coherent r e = quiet _ s.world e (Reach-ShowsUnless coherent r)
