-- ===== src/Tests/Toggles.antt =====
-- The theorem on the auxiliary toggles, at a lock that keeps the mask in its state.
use haos_aqara.Base.{
  ℕ, [], ◌≡◌, refl, Bool, true, false, some, ◌+◌, ◌/◌, ◌%◌, ◌==◌, nat_eq, if◌then◌else◌,
}
use haos_aqara.Errors.{ok}
use haos_aqara.Boundary.{Context}
use haos_aqara.Settings.Data.{touch_to_lock, close_to_lock}
use haos_aqara.Coordinator.Callbacks.{await, preempt_listen}
use haos_aqara.Coordinator.Read.{read_one}
use haos_aqara.Coordinator.Requests.{set_auxiliary_toggle}
use haos_aqara.Coordinator.Requests.Masks.{same, known_on}
use haos_aqara.Coordinator.Requests.Toggled.{KeepsMask, full, set_auxiliary_toggle-known_on}
use haos_aqara.Tests.Lock.{client, context, world}

-- The state of the lock is the mask, a bit for each toggle.
abbrev code : (touch close resume any : Bool) → ℕ
code touch close resume any =
    (if touch then 1 else 0)
    + (if close then 2 else 0)
    + (if resume then 4 else 0)
    + (if any then 8 else 0)

abbrev keeping : Context ℕ
keeping = record (context true) {
  client = record (client true) {
    async_set_auxiliary_locking =
        λ touch close resume any e. (ok tt, [], code touch close resume any);
    async_read_auxiliary_locking = λ e.
        (ok (some (full (e % 2 == 1) (e / 2 % 2 == 1) (e / 4 % 2 == 1) (e / 8 % 2 == 1))), [], e);
  };
}

reports :
    (touch close resume any : Bool) (e : ℕ)
    → (keeping.client.async_read_auxiliary_locking
        (keeping.client.async_set_auxiliary_locking touch close resume any e).2).0
      ≡ ok (some (full touch close resume any))
reports true true true true e = refl
reports true true true false e = refl
reports true true false true e = refl
reports true true false false e = refl
reports true false true true e = refl
reports true false true false e = refl
reports true false false true e = refl
reports true false false false e = refl
reports false true true true e = refl
reports false true true false e = refl
reports false true false true e = refl
reports false true false false e = refl
reports false false true true e = refl
reports false false true false e = refl
reports false false false true e = refl
reports false false false false e = refl

keeping-KeepsMask : KeepsMask keeping
keeping-KeepsMask = record {
  reports = λ touch close resume any e h. reports touch close resume any e;
}

changed : (set_auxiliary_toggle keeping close_to_lock true world).0 ≡ ok tt
unfolding set_auxiliary_toggle await preempt_listen read_one
changed = refl

set_auxiliary_toggle-known_on_example :
    known_on touch_to_lock
      (set_auxiliary_toggle keeping close_to_lock true world).1.self.settings.auxiliary_locking
    ≡ (if same close_to_lock touch_to_lock
        then true
        else known_on touch_to_lock world.self.settings.auxiliary_locking)
set_auxiliary_toggle-known_on_example =
    set_auxiliary_toggle-known_on keeping keeping-KeepsMask close_to_lock touch_to_lock true world
      changed
