-- ===== src/Coordinator/Callbacks/Frame.antt =====
-- The callbacks of custom_components/aqara_u200/coordinator.py during an `await`, field by field.
use haos_aqara.Base.{◌∙◌, ℕ, ◌≡◌, refl, Bool, Option, List, [], ◌∷◌, arith, String}
use haos_aqara.Exec.Keeps.{Keeps}
use haos_aqara.Boundary.{
  Callback, advertisement, lock_event, enrol_report, stop_battery, stop_realtime, Call, Context,
}
use haos_aqara.Settings.Data.{LockSettings}
use haos_aqara.Coordinator.State.{Coordinator, World, build_snapshot, Operation, Handle}
use haos_aqara.Coordinator.Callbacks.{run_callback, run_callbacks, await}

-- A property of the world that does not depend on the environment and survives each callback
-- survives an `await`.
module _ {E : Type 0} (cx : Context E) (P : World E → Type 0)
    (step : (c : Callback) (w : World E) → P w → P (run_callback cx c w)) where
  run_callbacks-keeps : (cs : List Callback) (w : World E) → P w → P (run_callbacks cx cs w)
  unfolding run_callbacks
  run_callbacks-keeps [] w h = h
  run_callbacks-keeps (c ∷ cs) w h = run_callbacks-keeps cs (run_callback cx c w) (step c w h)

  pub Keeps-await :
      ((w : World E) (env : E) → P w → P (record w { env = env }))
      → {A : Type 0} (call : Call E A) → Keeps P (await cx call)
  unfolding await
  Keeps-await elsewhere call = record {
    at = λ w h.
        let (r, cs, env) = call w.env in
        run_callbacks-keeps cs (record w { env = env }) (elsewhere w env h);
  }

-- The published snapshot is the one that `_build_snapshot` would build.
abbrev pub IsCoherent : {E : Type 0} → Context E → World E → Type 0
IsCoherent cx w = w.snapshot ≡ build_snapshot cx.client.control_enabled w.bluetooth w.self

module _ {E : Type 0} (cx : Context E) where
  run_callback-IsCoherent :
      (c : Callback) (w : World E) → IsCoherent cx w → IsCoherent cx (run_callback cx c w)
  unfolding run_callback build_snapshot
  run_callback-IsCoherent (advertisement ad) w h = refl
  run_callback-IsCoherent (enrol_report report) w h = h
  run_callback-IsCoherent stop_battery w h = h
  run_callback-IsCoherent stop_realtime w h = h
  run_callback-IsCoherent (lock_event event) w h = ground arith

-- The fields that no callback writes.
pub record Core : Type 0 where
  pub operation_lock : Bool
  pub operation_in_progress : Bool
  pub last_operation : Option Operation
  pub last_error_type : Option String
  pub settings : LockSettings
  pub credential_count : Option ℕ
  pub credentials_by_type : Option (List (String × ℕ))
  pub realtime_task : Bool
  pub listen_handle : Option Handle
  pub battery_task : Bool

abbrev pub core : Coordinator → Core
core self = record {
  operation_lock = self.operation_lock;
  operation_in_progress = self.operation_in_progress;
  last_operation = self.last_operation;
  last_error_type = self.last_error_type;
  settings = self.settings;
  credential_count = self.credential_count;
  credentials_by_type = self.credentials_by_type;
  realtime_task = self.realtime_task;
  listen_handle = self.listen_handle;
  battery_task = self.battery_task;
}

module _ {E : Type 0} (cx : Context E) where
  pub run_callback-core :
      (c : Callback) (w : World E) → core (run_callback cx c w).self ≡ core w.self
  unfolding run_callback
  run_callback-core (advertisement ad) w = refl
  run_callback-core (enrol_report report) w = refl
  run_callback-core stop_battery w = refl
  run_callback-core stop_realtime w = refl
  run_callback-core (lock_event event) w = ground arith

  -- No `await` writes them.
  pub core-await :
      {A : Type 0} (call : Call E A) (w : World E) → core (await cx call w).1.self ≡ core w.self
  core-await call w =
      (Keeps-await cx (λ v. core v.self ≡ core w.self) (λ c v h. run_callback-core c v ∙ h)
          (λ v env h. h) call).at
        w refl

  pub await-IsCoherent : {A : Type 0} (call : Call E A) → Keeps (IsCoherent cx) (await cx call)
  await-IsCoherent call =
      Keeps-await cx (IsCoherent cx) (run_callback-IsCoherent cx) (λ w env h. h) call

module _ {E : Type 0} (cx : Context E) where
  env-run_callback : (c : Callback) (w : World E) → (run_callback cx c w).env ≡ w.env
  unfolding run_callback
  env-run_callback (advertisement ad) w = refl
  env-run_callback (enrol_report report) w = refl
  env-run_callback stop_battery w = refl
  env-run_callback stop_realtime w = refl
  env-run_callback (lock_event event) w = ground arith

  env-run_callbacks : (cs : List Callback) (w : World E) → (run_callbacks cx cs w).env ≡ w.env
  unfolding run_callbacks
  env-run_callbacks [] w = refl
  env-run_callbacks (c ∷ cs) w = env-run_callbacks cs (run_callback cx c w) ∙ env-run_callback c w

  -- An `await` leaves the world behind the contract as the call leaves it.
  pub env-await :
      {A : Type 0} (call : Call E A) (w : World E) → (await cx call w).1.env ≡ (call w.env).2
  unfolding await
  env-await call w = env-run_callbacks (call w.env).1 (record w { env = (call w.env).2 })

  pub result-await :
      {A : Type 0} (call : Call E A) (w : World E) → (await cx call w).0 ≡ (call w.env).0
  unfolding await
  result-await call w = refl
