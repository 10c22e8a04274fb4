-- ===== src/Coordinator/Operation/Reread.antt =====
-- What a settings write of custom_components/aqara_u200/coordinator.py leaves, where it is confirmed by
-- a read: what the lock reports then, not what was asked for.
use haos_aqara.Base.{◌≡◌, refl, sym, ap, ◌∙◌, subst, false, Option, none, some, arith}
use haos_aqara.Const.{data_presence_window_seconds}
use haos_aqara.Errors.{Result, ok, err}
use haos_aqara.Exec.{Exec, catch, bind-ok, bind-ok_inv, modify, ◌>>=◌, ◌>>◌}
use haos_aqara.Boundary.{Context, Call}
use haos_aqara.Settings.Data.{ReadName, Value}
use haos_aqara.Coordinator.State.{Coordinator, World, Operation, PressReason, build_snapshot}
use haos_aqara.Coordinator.Callbacks.{await, publish}
use haos_aqara.Coordinator.Callbacks.Frame.{IsCoherent}
use haos_aqara.Coordinator.Read.{set_lock, read_one}
use haos_aqara.Coordinator.Read.Applied.{stored, apply_read-IsWrite}
use haos_aqara.Coordinator.Operation.{
  run_set_operation, require, confirm, apply_value, on_error, finish,
}
use haos_aqara.Coordinator.Operation.Outcome.{
  IsStarted, Ended, not_acquired, unreachable, body_ran, serialized-Ended,
}
use haos_aqara.Coordinator.Operation.Presence.{caught_ok}

-- Nothing is in progress any more.
abbrev pub over : Coordinator → Coordinator
over self = record self { operation_in_progress = false; operation_lock = false }

-- The fields after the operation: the reported value is stored, if one was reported.
abbrev pub reported : (name : ReadName) → Option (Value name) → Coordinator → Coordinator
reported name none self = over self
reported name (some value) self = over (stored name value self)

module _ {E : Type 0} (cx : Context E) where
  -- A write that succeeded, seen from its end: where it was sent, how it was answered, what was read
  -- right after it, and the state with this.
  pub record Reread {A : Type 0} (op : Operation) (action : Call E A) (name : ReadName)
      (w w' : World E) : Type 0 where
    pub start : World E
    pub started : IsStarted cx op w start
    pub at : World E
    pub written : A
    pub answered : (await cx action at).0 ≡ ok written
    pub value : Option (Value name)
    pub reread : (await cx (read_one cx name) (await cx action at).1).0 ≡ ok value
    pub state :
        w'.self ≡ reported name value (await cx (read_one cx name) (await cx action at).1).1.self
    pub coherent : IsCoherent cx w'

  left :
      (name : ReadName) (value : Option (Value name)) (v : World E)
      → (set_lock false (finish cx (apply_value name value v))).self ≡ reported name value v.self
  unfolding set_lock finish publish apply_value
  left name none v = refl
  left name (some value) v = ap over (apply_read-IsWrite name value v.self).0

  finished-IsCoherent : (v : World E) → IsCoherent cx (set_lock false (finish cx v))
  unfolding set_lock finish publish build_snapshot
  finished-IsCoherent v = refl

  caught : (q : Result (Unit {0}) × World E) → q.0 ≡ ok tt → catch (λ _. q) (on_error cx) q.1 ≡ q
  caught (ok tt, u) h = refl
  caught (err e, u) h = cc

  body-Reread :
      {A : Type 0} (op : Operation) (action : Call E A) (first : Exec (World E) (Unit {0}))
      (name : ReadName) (w v : World E)
      → IsStarted cx op w v
      → ((first >> (◌>>=◌ (await cx action) (λ _. confirm cx (some name)))) v).0 ≡ ok tt
      → Reread op action name w (
          set_lock false
            (finish cx ((first >> (◌>>=◌ (await cx action) (λ _. confirm cx (some name)))) v).1))
  unfolding confirm
  body-Reread op action first name w v s h =
      let write = await cx action in
      let read = await cx (read_one cx name) in
      let last : Option _ → Exec (World E) Unit = λ value. modify (apply_value name value) in
      let rest = ◌>>=◌ write (λ _. read >>= last) in
      let (x, passes, h1) = bind-ok_inv first (λ _. rest) v tt h in
      let v1 = (first v).1 in
      let (a, writes, h2) = bind-ok_inv write (λ _. read >>= last) v1 tt h1 in
      let v2 = (write v1).1 in
      let (value, reads, h3) = bind-ok_inv read last v2 tt h2 in
      let v3 = (read v2).1 in
      let e : ((first >> rest) v).1 ≡ apply_value name value v3 =
        ap (λ r. r.1) (bind-ok first (λ _. rest) v x passes)
        ∙ ap (λ r. r.1) (bind-ok write (λ _. read >>= last) v1 a writes)
        ∙ ap (λ r. r.1) (bind-ok read last v2 value reads) in
      record {
        start = v;
        started = s;
        at = v1;
        written = a;
        answered = writes;
        value = value;
        reread = reads;
        state = ap (λ u. (set_lock false (finish cx u)).self) e ∙ left name value v3;
        coherent = finished-IsCoherent ((first >> rest) v).1;
      }

  Ended-Reread :
      {A : Type 0} (op : Operation) (action : Call E A) (first : Exec (World E) (Unit {0}))
      (name : ReadName) (w : World E) (q : Result (Unit {0}) × World E)
      → Ended cx op (first >> (◌>>=◌ (await cx action) (λ _. confirm cx (some name)))) w q
      → q.0 ≡ ok tt
      → Reread op action name w q.1
  Ended-Reread op action first name w q (not_acquired e p r) h = absurd (ground arith)
  Ended-Reread op action first name w q (unreachable u r p e) h = absurd (ground arith)
  Ended-Reread op action first name w q (body_ran v s e) h =
      let body = first >> (◌>>=◌ (await cx action) (λ _. confirm cx (some name))) in
      let fine = caught_ok cx (body v) (sym (ap (λ r. r.0) e) ∙ h) in
      subst (Reread op action name w)
        (sym (ap (λ r. r.1) e ∙ ap (λ r. set_lock false (finish cx r.1)) (caught (body v) fine)))
        (body-Reread op action first name w v s fine)

  -- If a settings write that is confirmed by a read succeeds, the client was called for it once all was
  -- set up, and answered; the value was read right after that, and the coordinator is left with what
  -- the lock reported, or with the value as it was if it reported none, nothing in progress, and the
  -- published snapshot that of this state.
  pub run_set_operation-Reread :
      {A : Type 0} (op : Operation) (action : Call E A) (presence : Option PressReason)
      (name : ReadName) (w : World E)
      → (run_set_operation cx op action presence (some name) w).0 ≡ ok tt
      → Reread op action name w (run_set_operation cx op action presence (some name) w).1
  unfolding run_set_operation
  run_set_operation-Reread op action presence name w =
      Ended-Reread op action (require cx presence data_presence_window_seconds) name w
        (run_set_operation cx op action presence (some name) w) (serialized-Ended cx op _ w)
