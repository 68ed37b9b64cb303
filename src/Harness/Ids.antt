-- ===== src/Harness/Ids.antt =====
-- Which device a number names, and which mutex, after devices are added and removed.
use foxtrot.Base.{
  ℕ, zero, suc, ◌+◌, ◌<◌, ◌≤◌, ◌≡◌, refl, arith, Bool, true, false, not, none, some, List, [], ◌∷◌,
  ◌++◌, ok, err, ltb, ◌==◌, if◌then◌else◌, length, get_elem?, number_eq, length-append,
}
use foxtrot.Base.Dict.{lookup, erase, lookup-insert}
use foxtrot.Harness.{
  out_of_range, DeviceHarness, erase_at, empty, get_device, add_device, remove_device,
}

module _ {D : Type 0} where
  get_elem?-append :
      (i : ℕ) (ds : List D) (d : D)
      → get_elem? (ds ++ (d ∷ [])) i ≡ (if i == length ds then some d else get_elem? ds i)
  get_elem?-append zero [] d = refl
  get_elem?-append (suc i) [] d = ground arith
  get_elem?-append zero (x ∷ ds) d = ground arith
  get_elem?-append (suc i) (x ∷ ds) d = ground (arith, get_elem?-append i ds d)

  get_elem?-length : (i : ℕ) (ds : List D) → length ds ≤ i → get_elem? ds i ≡ none
  get_elem?-length i [] h = refl
  get_elem?-length zero (x ∷ ds) h = absurd (omega (arith, h))
  get_elem?-length (suc i) (x ∷ ds) h = get_elem?-length i ds (omega (arith, h))

  get_elem?-erase_at :
      (i j : ℕ) (ds : List D)
      → get_elem? (erase_at i ds) j ≡ (if ltb j i then get_elem? ds j else get_elem? ds (j + 1))
  get_elem?-erase_at i j [] = ground arith
  get_elem?-erase_at zero j (x ∷ ds) = ground arith
  get_elem?-erase_at (suc i) zero (x ∷ ds) = ground arith
  get_elem?-erase_at (suc i) (suc j) (x ∷ ds) = ground (arith, get_elem?-erase_at i j ds)

  length-erase_at : (i : ℕ) (ds : List D) → i < length ds → length (erase_at i ds) + 1 ≡ length ds
  length-erase_at i [] h = absurd (omega (arith, h))
  length-erase_at zero (x ∷ ds) h = omega arith
  length-erase_at (suc i) (x ∷ ds) h = omega (arith, length-erase_at i ds (omega (arith, h)))

  get_elem?-bounds : (i : ℕ) (ds : List D) (d : D) → get_elem? ds i ≡ some d → i < length ds
  get_elem?-bounds i [] d h = absurd cc
  get_elem?-bounds zero (x ∷ ds) d h = omega arith
  get_elem?-bounds (suc i) (x ∷ ds) d h = omega (arith, get_elem?-bounds i ds d h)

  abbrev pub has_mutex : DeviceHarness D → ℕ → Bool
  has_mutex h i = elim (lookup i h.devmutexes) [ none ↦ false | some held ↦ true ]

  module _ (has_lock : D → Bool) where
    abbrev pub needs_mutex : DeviceHarness D → ℕ → Bool
    needs_mutex h i = elim (get_elem? h.devvec i) [ none ↦ false | some dev ↦ not (has_lock dev) ]

    -- The next number is the number of devices, and the mutexes are those of the devices without a lock
    -- of their own.
    pub record IsAligned (h : DeviceHarness D) : Type 0 where
      pub next : h.id ≡ length h.devvec
      pub mutexes : (i : ℕ) → has_mutex h i ≡ needs_mutex h i

    pub empty-IsAligned : IsAligned empty
    empty-IsAligned = record { next = refl; mutexes = λ i. refl }

    pub add_device-IsAligned :
        (d : D) (h : DeviceHarness D) → IsAligned h → IsAligned (add_device has_lock d h).1
    unfolding add_device
    add_device-IsAligned d h a = record {
      next = omega (arith, a.next, length-append h.devvec (d ∷ []));
      mutexes = λ i. ground (
        arith,
        a.next,
        a.mutexes i,
        lookup-insert h.id i false h.devmutexes,
        get_elem?-append i h.devvec d,
        get_elem?-length i h.devvec,
      );
    }

    remove_device_eq :
        (id : ℕ) (d : D) (h : DeviceHarness D)
        → get_elem? h.devvec id ≡ some d
        → has_lock d ≡ false
        → remove_device has_lock id h
          ≡ (ok tt, record h { devvec = erase_at id h.devvec; devmutexes = erase id h.devmutexes })
    unfolding remove_device
    remove_device_eq id d h found unlocked = ground arith

    -- After a device without a lock of its own is removed, the number that `AddDevice` returns names no
    -- device.
    pub add_device-remove_device :
        (id : ℕ) (d new : D) (h : DeviceHarness D)
        → IsAligned h
        → get_elem? h.devvec id ≡ some d
        → has_lock d ≡ false
        → let (next, added) = add_device has_lock new (remove_device has_lock id h).1 in
          (get_device next added).0 ≡ err out_of_range
    unfolding add_device remove_device get_device
    add_device-remove_device id d new h a found unlocked =
        rw (remove_device_eq id d h found unlocked) (
          ground (
            arith,
            a.next,
            get_elem?-append h.id (erase_at id h.devvec) new,
            length-erase_at id h.devvec (get_elem?-bounds id h.devvec d found),
            get_elem?-length h.id (erase_at id h.devvec),
          ))

    -- A device with a lock of its own is not removed: `RemoveDevice` throws and leaves the harness.
    pub remove_device_own_lock :
        (id : ℕ) (d : D) (h : DeviceHarness D)
        → IsAligned h
        → get_elem? h.devvec id ≡ some d
        → has_lock d ≡ true
        → remove_device has_lock id h ≡ (err out_of_range, h)
    unfolding remove_device
    remove_device_own_lock id d h a found locked = ground (arith, a.mutexes id)
