-- ===== src/Client/Writes/Acknowledged.antt =====
-- The confirmed writes of custom_components/aqara_u200/client.py, as their callers see them.
use haos_aqara.Base.{◌+◌, ◌≤◌, ◌≡◌, refl, Option, none, some, String}
use haos_aqara.Errors.{
  Raised, Result, ok, err, aqara, cancelled, library, authentication, operation,
  bluetooth_unavailable, presence_required,
}
use haos_aqara.Exec.{◌>>=◌}
use haos_aqara.Coordinator.Operation.Outcome.{SanitizedResult, IsSanitized}
use haos_aqara.Client.Library.{Library, LockOperationWrite}
use haos_aqara.Client.Session.{Adapter, Session}
use haos_aqara.Client.Session.Ends.{openings, closings, uses, attempts}
use haos_aqara.Client.Reads.{one_read}
use haos_aqara.Client.Reads.Normal.{IsQuiet, Reads, one_read-Reads, one_read-answered}
use haos_aqara.Client.Writes.{send_write, send_frame, require_reply}

quiet-IsSanitized : (e : Raised) → IsQuiet {X = Option String} (err e) → IsSanitized e
quiet-IsSanitized cancelled h = tt
quiet-IsSanitized (aqara authentication) h = tt
quiet-IsSanitized (aqara bluetooth_unavailable) h = tt
quiet-IsSanitized (aqara operation) h = tt
quiet-IsSanitized (aqara presence_required) h = tt
quiet-IsSanitized (library objects i) h = elim h [ ]

module _ {G E : Type 0} where
  -- What the caller of a write can rely on, whether or not it was acknowledged.
  pub record Confirmed (s : Session G E) (q : Result (Unit {0}) × Session G E) : Type 0 where
    pub closed : openings q.1.steps + closings s.steps ≡ closings q.1.steps + openings s.steps
    pub once : uses q.1.steps ≤ uses s.steps + 1
    pub tried : attempts q.1.steps ≤ attempts s.steps + 1
    pub sanitized : SanitizedResult q.0

module _ {D G P A E : Type 0} (lib : Library D G P A E) (self : Adapter A) where
  required-Confirmed :
      (s : Session G E) (q : Result (Option String) × Session G E)
      → Reads 1 0 s q
      → Confirmed s (◌>>=◌ (λ _. q) (require_reply lib self) s)
  unfolding require_reply
  required-Confirmed s (ok (some x), u) h = record {
    closed = h.closed;
    once = h.once;
    tried = h.tried;
    sanitized = tt;
  }
  required-Confirmed s (ok none, u) h = record {
    closed = h.closed;
    once = h.once;
    tried = h.tried;
    sanitized = tt;
  }
  required-Confirmed s (err e, u) h = record {
    closed = h.closed;
    once = h.once;
    tried = h.tried;
    sanitized = quiet-IsSanitized e h.quiet;
  }

  required-sent :
      (s : Session G E) (q : Result (Option String) × Session G E)
      → ((x : String) → q.0 ≡ ok (some x) → uses q.1.steps ≡ uses s.steps + 1)
      → (◌>>=◌ (λ _. q) (require_reply lib self) s).0 ≡ ok tt
      → uses (◌>>=◌ (λ _. q) (require_reply lib self) s).1.steps ≡ uses s.steps + 1
  unfolding require_reply
  required-sent s (ok (some x), u) f p = f x refl
  required-sent s (ok none, u) f p = cc p
  required-sent s (err e, u) f p = cc p

  -- A write of a setting makes one attempt, calls the library at most once for it, closes the connection
  -- that it opens, and lets only the integration's own exceptions and a cancellation out.
  pub send_write-Confirmed :
      (write : LockOperationWrite) (s : Session G E) → Confirmed s (send_write lib self write s)
  unfolding send_write
  send_write-Confirmed write s =
      required-Confirmed s (one_read lib self (send_frame lib self write) s)
        (one_read-Reads lib self (send_frame lib self write) s)

  -- A write of a setting comes back only after the library was called for it, exactly once.
  pub send_write-uses :
      (write : LockOperationWrite) (s : Session G E)
      → (send_write lib self write s).0 ≡ ok tt
      → uses (send_write lib self write s).1.steps ≡ uses s.steps + 1
  unfolding send_write
  send_write-uses write s =
      required-sent s (one_read lib self (send_frame lib self write) s)
        (one_read-answered lib self (send_frame lib self write) s)
