-- ===== src/Harness/Locks.antt =====
-- What a lock keeps others from, and what `ClearDevices` does with all of them.
use foxtrot.Base.{◌≡◌, ◌≢◌, Bool, true, false, ◌⊎◌, [], Result, ok, err, number_eq}
use foxtrot.Base.Dict.{insert}
use foxtrot.Harness.{Error, DeviceHarness, Harness, Lock, own, mutex, is_held}

module _ {D : Type 0} where
  abbrev pub holds : Lock → DeviceHarness D → Bool
  holds (own k) h = is_held k h.own_locks
  holds (mutex k) h = is_held k h.devmutexes

  abbrev pub hold : Lock → DeviceHarness D → DeviceHarness D
  hold (own k) h = record h { own_locks = insert k true h.own_locks }
  hold (mutex k) h = record h { devmutexes = insert k true h.devmutexes }

  -- What locking makes of a harness: a lock that was free, or nothing.
  abbrev pub IsLocked : DeviceHarness D → Result Error Lock × DeviceHarness D → Type 0
  IsLocked h (err e, after) = after ≡ h
  IsLocked h (ok lock, after) = (after ≡ hold lock h) × (holds lock h ≡ false)

  -- What `ClearDevices` makes of a harness: no devices, or those that were there. No lock stays held.
  pub record IsCleared (h : DeviceHarness D) (r : Result Error (Unit {0})) (after : DeviceHarness D)
      : Type 0 where
    pub all_or_nothing :
        ((r ≡ ok tt) × (after.devvec ≡ [])) ⊎ ((r ≢ ok tt) × (after.devvec ≡ h.devvec))
    pub next : after.id ≡ h.id
    pub released : (l : Lock) → holds l after ≡ holds l h
