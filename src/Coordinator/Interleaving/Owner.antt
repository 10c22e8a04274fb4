-- ===== src/Coordinator/Interleaving/Owner.antt =====
-- The operation lock of custom_components/aqara_u200/coordinator.py against the abstract lock of
-- Coordinator/Interleaving/Abstract.antt.
use haos_aqara.Base.{
  ℕ, ◌≡◌, refl, ap, ◌∙◌, sym, subst, false, none, some, List, [], ◌∷◌, ◌++◌, ◌==◌, nat_eq,
  nat_beq_refl, Bool-cases, eq_of_nat_beq, false≢true, inl, inr,
}
use haos_aqara.Boundary.{Context}
use haos_aqara.Coordinator.State.{World}
use haos_aqara.Coordinator.Interleaving.{
  Want, outside, waiting, holding, System, Step, asks, gives_up, enters, is_refused, goes_on,
  leaves, called_back, acts, Reach, begins, later, go_on, stop, Stretch, Outcome,
}
use haos_aqara.Coordinator.Interleaving.Assign.{assign}
use haos_aqara.Coordinator.Interleaving.Kept.{
  marks, Serves, Serves-locked, marks-ask, marks-act, marks-run_callback, start-Serves,
  go_on-Serves, stop-Serves, refuse-Serves,
}
use haos_aqara.Coordinator.Interleaving.Abstract.{
  Owner, Event, acquired, released, replay, replay-append, is_holding, Owned, wanted, Owned-assign,
  Owned-enter, Owned-leave,
}

-- The fields of the coordinator and the places of the coroutines tell of this owner.
pub record Implements {E : Type 0} (s : System E) (owner : Owner) : Type 0 where
  pub serves : Serves (wanted owner) (marks s.world.self)
  pub owned : Owned owner s.place

module _ {E : Type 0} (s : System E) where
  -- The lock of an owner is not free.
  pub held-locked :
      (i : ℕ) (want : Want)
      → Implements s (some (i, want))
      → s.world.self.operation_lock ≡ false
      → ⊥
  held-locked i want h free =
      false≢true (sym free ∙ Serves-locked want (marks s.world.self) h.serves)

  -- Who is within the lock is its owner.
  pub holding-owner :
      (i : ℕ) (want : Want) (o : Owner)
      → Implements s o
      → s.place i ≡ holding want
      → o ≡ some (i, want)
  holding-owner i want none h holds = absurd (false≢true (sym (h.owned i) ∙ ap is_holding holds))
  holding-owner i want (some (k, want')) h holds = elim (Bool-cases (k == i)) [
    | inl e ↦
        let same : k ≡ i = eq_of_nat_beq k i e in
        let wants : holding want' ≡ holding want = sym h.owned.0 ∙ ap s.place same ∙ holds in cc
    | inr e ↦ absurd (false≢true (sym e ∙ sym (h.owned.1 i) ∙ ap is_holding holds))
  ]

-- What a step does to the abstract lock. A refused operation takes it and gives it back at once.
module _ {E : Type 0} (cx : Context E) where
  pub events : {s t : System E} → Step cx s t → List Event
  events (asks i want out may) = []
  events (gives_up i want waits) = []
  events (enters i want rest head waits free may) = acquired i want ∷ []
  events (is_refused i want rest head waits free may) = acquired i want ∷ released i ∷ []
  events (goes_on i want stretch holds) = []
  events (leaves i want outcome holds) = released i ∷ []
  events (called_back c) = []
  events (acts a) = []

  pub history : {w : World E} {s : System E} → Reach cx w s → List Event
  unfolding events
  history begins = []
  history (later r st) = history r ++ events st

  go_on-Implements :
      (s : System E) (i : ℕ) (want : Want) (stretch : Stretch want)
      → Implements s (some (i, want))
      → Implements (record s { world = go_on cx stretch s.world }) (some (i, want))
  go_on-Implements s i want stretch h = record {
    serves = go_on-Serves cx stretch s.world h.serves;
    owned = h.owned;
  }

  stop-Implements :
      (s : System E) (i : ℕ) (want : Want) (outcome : Outcome want)
      → Implements s (some (i, want))
      → Implements
          (record {
            world = stop cx want outcome s.world;
            queue = s.queue;
            place = assign s.place i outside;
          })
          none
  stop-Implements s i want outcome h = record {
    serves = stop-Serves cx want outcome s.world h.serves;
    owned = Owned-leave s.place i want h.owned;
  }

  Step-Implements :
      {s t : System E} (st : Step cx s t) (o : Owner)
      → Implements s o
      → (p : Owner) × (replay (events st) o ≡ some p) × Implements t p
  unfolding events
  Step-Implements {s} (asks i want out may) o h = (
    o,
    refl,
    record {
      serves = subst (Serves (wanted o)) (sym (marks-ask want s.world)) h.serves;
      owned = Owned-assign o s.place i (waiting want) h.owned (ap is_holding out) refl;
    },
  )
  Step-Implements {s} (gives_up i want waits) o h = (
    o,
    refl,
    record {
      serves = h.serves;
      owned = Owned-assign o s.place i outside h.owned (ap is_holding waits) refl;
    },
  )
  Step-Implements {s} (enters i want rest head waits free may) none h = (
    some (i, want),
    refl,
    record {
      serves = start-Serves cx want s.world h.serves;
      owned = Owned-enter s.place i want h.owned;
    },
  )
  Step-Implements {s} (enters i want rest head waits free may) (some (k, want')) h =
      absurd (held-locked s k want' h free)
  Step-Implements {s} (is_refused i want rest head waits free may) none h = (
    none,
    rw (nat_beq_refl i) refl,
    record {
      serves = refuse-Serves s.world h.serves;
      owned = Owned-assign none s.place i outside h.owned (ap is_holding waits) refl;
    },
  )
  Step-Implements {s} (is_refused i want rest head waits free may) (some (k, want')) h =
      absurd (held-locked s k want' h free)
  Step-Implements {s} (goes_on i want stretch holds) o h =
      let own = holding-owner s i want o h holds in
      (
        o,
        refl,
        subst (Implements (record s { world = go_on cx stretch s.world })) (sym own)
            (go_on-Implements s i want stretch (subst (Implements s) own h)),
      )
  Step-Implements {s} (leaves i want outcome holds) o h =
      let own = holding-owner s i want o h holds in
      (
        none,
        ap (replay (released i ∷ [])) own ∙ rw (nat_beq_refl i) refl,
        stop-Implements s i want outcome (subst (Implements s) own h),
      )
  Step-Implements {s} (called_back c) o h = (
    o,
    refl,
    record {
      serves = subst (Serves (wanted o)) (sym (marks-run_callback cx c s.world)) h.serves;
      owned = h.owned;
    },
  )
  Step-Implements {s} (acts a) o h = (
    o,
    refl,
    record {
      serves = subst (Serves (wanted o)) (sym (marks-act a s.world)) h.serves;
      owned = h.owned;
    },
  )

  -- The coordinator refines the abstract lock. From a coordinator that nobody uses, whatever the
  -- coroutines do and Home Assistant calls, the entries and the exits are those of a lock with one
  -- owner at a time, and the fields of the coordinator tell of the owner that this lock has in the
  -- end: `_operation_lock` is held exactly if there is one, an operation is in progress exactly if
  -- the owner is one, and it is the last operation then, and a task of the listen is kept exactly if
  -- the owner is the listen.
  pub history-Implements :
      {w : World E} {s : System E}
      → Serves none (marks w.self)
      → (r : Reach cx w s) → (o : Owner) × (replay (history r) none ≡ some o) × Implements s o
  unfolding history
  history-Implements unused begins = (none, refl, record { serves = unused; owned = λ j. refl })
  history-Implements unused (later r st) =
      let (o, replayed, h) = history-Implements unused r in
      let (p, step, h') = Step-Implements st o h in
      (p, replay-append (history r) (events st) none o replayed ∙ step, h')

  -- In every state that is reached from a coordinator that nobody uses: while a coroutine is within
  -- the lock, no other one is, and the fields are those of its work, so an operation within it is in
  -- progress, is the last operation and is not disturbed by a task of the listen.
  pub Reach-alone :
      {w : World E} {s : System E}
      → Serves none (marks w.self)
      → Reach cx w s
      → (i : ℕ) (want : Want) → s.place i ≡ holding want
      → Serves (some want) (marks s.world.self) × ((j : ℕ) → is_holding (s.place j) ≡ (i == j))
  Reach-alone {s} unused r i want holds =
      let (o, replayed, h) = history-Implements unused r in
      let own = subst (Implements s) (holding-owner s i want o h holds) h in
      (own.serves, own.owned.1)

  -- Where the lock is free, nobody is within it.
  pub Reach-free :
      {w : World E} {s : System E}
      → Serves none (marks w.self)
      → Reach cx w s
      → s.world.self.operation_lock ≡ false
      → Serves none (marks s.world.self)
  Reach-free {s} unused r free = let (o, replayed, h) = history-Implements unused r in by_owner o h
    where
      by_owner : (o : Owner) → Implements s o → Serves none (marks s.world.self)
      by_owner none h = h.serves
      by_owner (some (i, want)) h = absurd (held-locked s i want h free)
