-- ===== src/Client/Offline/Keeps.antt =====
-- `async_enable_offline` of custom_components/aqara_u200/client.py: the ways in which it ends.
use haos_aqara.Base.{
  ℕ, ◌≡◌, ◌≢◌, refl, sym, ap, ◌∙◌, Bool, true, false, false≢true, Option, none, some, List,
}
use haos_aqara.Errors.{Raised, Result, ok, err, cancelled, aqara, library}
use haos_aqara.Client.Library.{Library}
use haos_aqara.Client.Session.{Adapter}
use haos_aqara.Client.Offline.{async_enable_offline, enable, fetch_with, fetch, fetched}

module _ {D G P A E : Type 0} (lib : Library D G P A E) where
  -- How an attempt to go offline from the adapter `self` in the world `e` ends, with the adapter and the
  -- world that it leaves.
  pub data Enables (self : Adapter A) (e : E) : (Result Bool × Adapter A) × E → Type 0 where
    -- There was a key: it stays, and nothing is asked of the cloud.
    seeded : (ltmk : List ℕ) → self.ltmk ≡ some ltmk → Enables self e ((ok true, self), e)
    -- There was none and there is no account: nothing is asked of the cloud.
    local : self.ltmk ≡ none → self.auth ≡ none → Enables self e ((ok false, self), e)
    -- The cloud gave a key for the account and the device, and this key is stored.
    fetched_now :
        (auth : A) (ltmk : List ℕ)
        → self.ltmk ≡ none
        → self.auth ≡ some auth
        → (lib.fetch_ltmk auth self.device_id e).0 ≡ ok ltmk
        → Enables self e
            ((ok true, record self { ltmk = some ltmk }), (lib.fetch_ltmk auth self.device_id e).2)
    -- The cloud failed, other than by a cancellation.
    stays_online :
        (auth : A) (x : Raised)
        → self.ltmk ≡ none
        → self.auth ≡ some auth
        → (lib.fetch_ltmk auth self.device_id e).0 ≡ err x
        → x ≢ cancelled
        → Enables self e ((ok false, self), (lib.fetch_ltmk auth self.device_id e).2)
    -- The task was cancelled while the cloud was asked.
    stopped :
        (auth : A)
        → self.ltmk ≡ none
        → self.auth ≡ some auth
        → (lib.fetch_ltmk auth self.device_id e).0 ≡ err cancelled
        → Enables self e ((err cancelled, self), (lib.fetch_ltmk auth self.device_id e).2)

  is_cancelled : Raised → Bool
  is_cancelled cancelled = true
  is_cancelled _ = false

  not_cancelled : (x : Raised) → is_cancelled x ≡ false → x ≢ cancelled
  unfolding is_cancelled
  not_cancelled x p h = false≢true (sym p ∙ ap is_cancelled h)

  fetched-Enables :
      (self : Adapter A) (auth : A) (e : E) (r : Result (List ℕ))
      → self.ltmk ≡ none
      → self.auth ≡ some auth
      → (lib.fetch_ltmk auth self.device_id e).0 ≡ r
      → Enables self e (fetched self r, (lib.fetch_ltmk auth self.device_id e).2)
  unfolding fetched is_cancelled
  fetched-Enables self auth e (ok ltmk) p a h = fetched_now auth ltmk p a h
  fetched-Enables self auth e (err cancelled) p a h = stopped auth p a h
  fetched-Enables self auth e (err (aqara x)) p a h =
      stays_online auth (aqara x) p a h (not_cancelled (aqara x) refl)
  fetched-Enables self auth e (err (library o i)) p a h =
      stays_online auth (library o i) p a h (not_cancelled (library o i) refl)

  fetch_with-Enables :
      (self : Adapter A) (auth : Option A) (e : E)
      → self.ltmk ≡ none
      → self.auth ≡ auth
      → Enables self e (fetch_with lib self auth e)
  unfolding fetch_with fetch
  fetch_with-Enables self none e p a = local p a
  fetch_with-Enables self (some auth) e p a =
      fetched-Enables self auth e (lib.fetch_ltmk auth self.device_id e).0 p a refl

  enable-Enables :
      (self : Adapter A) (ltmk : Option (List ℕ)) (e : E)
      → self.ltmk ≡ ltmk
      → Enables self e (enable lib self ltmk e)
  unfolding enable
  enable-Enables self none e p = fetch_with-Enables self self.auth e p refl
  enable-Enables self (some ltmk) e p = seeded ltmk p

  -- Enabling the offline sessions keeps a key that was there and answers `True`, without the cloud.
  -- Without a key and an account it answers `False`, without the cloud. Else the cloud is asked once for
  -- the key of this account and device, and its result decides: a key is stored as it came, and the
  -- answer is `True`; a cancellation comes out; any other failure is the answer `False`. Whatever else
  -- the adapter has is kept, and in the other cases all of it.
  pub async_enable_offline-Enables :
      (self : Adapter A) (e : E) → Enables self e (async_enable_offline lib self e)
  unfolding async_enable_offline
  async_enable_offline-Enables self e = enable-Enables self self.ltmk e refl
