-- ===== src/Harness.antt =====
-- The devices of a server and their locks: core/src/DeviceHarness.cpp. A device is a value of a type `D`,
-- and `obtain_lock` gives the number of the lock of a device that has an implementation of its own. A
-- mutex is whether it is held. Numbers of devices stay below 2^31, and no null pointer is added.
pub mod Ids
pub mod Locks
mod Tests
use foxtrot.Base.{
  ℕ, zero, suc, ◌+◌, ◌<◌, ◌≡◌, Bool, true, false, not, Option, none, some, List, [], ◌∷◌, ◌++◌,
  Result, ok, err, ltb, leb, ◌==◌, if◌then◌else◌, length, get_elem?, number_eq,
}
use foxtrot.Base.Dict.{Dict, lookup, insert, erase}
use foxtrot.Base.Action.{Action, ◌>>=◌, ◌>>◌, give, throw, modify, finally}

-- `out_of_range` of `at`; `undefined` is an index outside of the vector, and `blocked` the wait for a
-- mutex without a timeout that has not ended.
pub data Error : Type 0 where
  out_of_range null_lock contention undefined blocked : Error

pub record DeviceHarness (D : Type 0) : Type 0 where
  pub id : ℕ
  pub devvec : List D
  pub devmutexes : Dict ℕ Bool
  pub own_locks : Dict ℕ Bool

-- What a `unique_lock` holds.
pub data Lock : Type 0 where
  own mutex : ℕ → Lock

-- `erase(begin() + i)`
abbrev pub erase_at : {D : Type 0} → ℕ → List D → List D
erase_at i [] = []
erase_at zero (d ∷ ds) = ds
erase_at (suc i) (d ∷ ds) = d ∷ erase_at i ds

-- Whether a mutex is held; one that `operator[]` makes is not.
abbrev pub is_held : ℕ → Dict ℕ Bool → Bool
is_held k mutexes = elim (lookup k mutexes) [ none ↦ false | some held ↦ held ]

abbrev pub Harness : Type 0 → Type 0 → Type 0
Harness D A = Action Error (DeviceHarness D) A

module _ {D : Type 0} where
  abbrev pub empty : DeviceHarness D
  empty = record { id = 0; devvec = []; devmutexes = []; own_locks = [] }

  unfoldable pub get_device : ℕ → Harness D D
  get_device id h = elim (get_elem? h.devvec id) [
    | none ↦ (err out_of_range, h)
    | some dev ↦ (ok dev, h)
  ]

  -- The numbers from `i` on, with the devices.
  abbrev pub dev_map : ℕ → List D → Dict ℕ D
  dev_map i [] = []
  dev_map i (dev ∷ devs) = (i, dev) ∷ dev_map (i + 1) devs

  unfoldable pub get_dev_map : DeviceHarness D → Dict ℕ D
  get_dev_map h = dev_map 0 h.devvec

  -- `unlock`, when a `unique_lock` goes out of scope.
  unfoldable pub unlock : Lock → DeviceHarness D → DeviceHarness D
  unlock (own k) h = record h { own_locks = insert k false h.own_locks }
  unlock (mutex k) h = record h { devmutexes = insert k false h.devmutexes }

  -- `lock` without a timeout, `try_lock_for` with one.
  abbrev pub acquire : ℕ → Lock → Harness D Lock
  acquire timeout_ms (own k) h =
      if is_held k h.own_locks
      then (err (if timeout_ms == 0 then blocked else contention), h)
      else (ok (own k), record h { own_locks = insert k true h.own_locks })
  acquire timeout_ms (mutex k) h =
      if is_held k h.devmutexes
      then (err (if timeout_ms == 0 then blocked else contention), h)
      else (ok (mutex k), record h { devmutexes = insert k true h.devmutexes })

  module _ (has_lock : D → Bool) where
    unfoldable pub add_device : D → DeviceHarness D → ℕ × DeviceHarness D
    add_device dev h = (
      h.id,
      record h {
        id = h.id + 1;
        devvec = h.devvec ++ (dev ∷ []);
        devmutexes = if has_lock dev then h.devmutexes else insert h.id false h.devmutexes;
      },
    )

    -- The second branch locks the mutex for the time of the removal.
    unfoldable pub remove_device : ℕ → Harness D (Unit {0})
    remove_device id h = elim (get_elem? h.devvec id) [
      | none ↦ (err undefined, h)
      | some dev ↦
          let removed = record h {
            devvec = erase_at id h.devvec;
            devmutexes = erase id h.devmutexes;
          } in
          if not (has_lock dev) then (ok tt, removed) else elim (lookup id h.devmutexes) [
            | none ↦ (err out_of_range, h)
            | some held ↦ if held then (err blocked, h) else (ok tt, removed)
          ]
    ]

    module _ (obtain_lock : D → Option ℕ) where
      -- The lock of a device that was found.
      abbrev pub take_lock : ℕ → ℕ → D → Harness D Lock
      take_lock devid timeout_ms dev =
          if has_lock dev
          then elim (obtain_lock dev) [
            | none ↦ throw null_lock
            | some k ↦ acquire timeout_ms (own k)
          ]
          else acquire timeout_ms (mutex devid)

      unfoldable pub lock_device_contentious : ℕ → ℕ → Harness D Lock
      unfolding get_device ◌>>=◌
      lock_device_contentious devid timeout_ms = get_device devid >>= take_lock devid timeout_ms

      -- `ClearDevices` for `n` devices from number `id` on: the locks are held until the vector is cleared.
      unfoldable pub clear_from : ℕ → ℕ → ℕ → Harness D (Unit {0})
      unfolding lock_device_contentious ◌>>=◌ unlock
      clear_from contention_timeout_ms zero id = modify (λ h. record h { devvec = [] })
      clear_from contention_timeout_ms (suc n) id = do
        lock ← lock_device_contentious id contention_timeout_ms
        finally (clear_from contention_timeout_ms n (id + 1)) (unlock lock)

      unfoldable pub clear_devices : ℕ → Harness D (Unit {0})
      unfolding clear_from
      clear_devices contention_timeout_ms h = clear_from contention_timeout_ms (length h.devvec) 0 h
