-- ===== src/Session/Conflict.antt =====
-- Which requests `start_session` grants: those whose items are free and whose expiry is acceptable.
use foxtrot.Base.{
  ℕ, ◌+◌, ◌≤◌, ◌≡◌, refl, true, Option, none, some, List, [], ◌∷◌, String, arith, number_eq,
  text_eq, bytes_eq, contains, ok, err, Result, Eq, Option-cases, inl, inr, ◌⊎◌,
}
use foxtrot.Base.Dict.{lookup}
use foxtrot.Session.{
  SessionManager, SessionInfo, Secret, Error, owned_by, to_u16, requested, find_in_cache,
  who_owns_device, who_owns_flag, check_items, check_start, start_session,
}
use foxtrot.Session.Invariant.{IsValid, device_keys}
use foxtrot.Session.Invariant.{contains-map}

-- A check that never throws by itself, and meets an owned item, throws the number of an owner.
check_items-owned :
    {A : Type 0} ⦃e : Eq A⦄ (f : A → Result Error (Option SessionInfo)) (xs : List A) (x : A)
    (i : SessionInfo)
    → ((y : A) → (f y ≡ ok none) ⊎ ((j : SessionInfo) × (f y ≡ ok (some j))))
    → contains x xs ≡ true
    → f x ≡ ok (some i)
    → (y : A) × (j : SessionInfo) × (contains y xs ≡ true)
      × (f y ≡ ok (some j))
      × (check_items f xs ≡ err (owned_by j.internal_session_id))
unfolding check_items
check_items-owned f [] x i total k h = absurd (ground arith)
check_items-owned ⦃e⦄ f (y ∷ xs) x i total k h = elim (total y) [
  | inl free ↦
      let (z, j, c, g, r) = check_items-owned f xs x i total (ground (arith, e.same_iff y x)) h in
      (z, j, ground arith, g, ground arith)
  | inr (j, g) ↦ (y, j, ground (arith, (e.same_iff y y).1 refl), g, ground arith)
]

module _ (m : SessionManager) (v : IsValid m) where
  -- In a valid state a query for an owner does not throw.
  pub who_owns_device_total :
      (x : ℕ)
      → (who_owns_device m x ≡ ok none) ⊎ ((j : SessionInfo) × (who_owns_device m x ≡ ok (some j)))
  unfolding who_owns_device find_in_cache
  who_owns_device_total x = elim (Option-cases (lookup (to_u16 x) m.devicecachemap)) [
    | inl e ↦ inl (ground arith)
    | inr (s, e) ↦ let (j, g, _) = v.devices_agree.sound (to_u16 x) s e in inr (j, ground arith)
  ]

  -- The owner of a held device is the session that holds it.
  pub who_owns_device_held :
      (s x : ℕ) (i : SessionInfo)
      → lookup s m.sessionmap ≡ some i
      → contains (to_u16 x) (device_keys i) ≡ true
      → who_owns_device m x ≡ ok (some i)
  unfolding who_owns_device find_in_cache
  who_owns_device_held s x i h k = ground (arith, v.devices_agree.complete (to_u16 x) s i h k)

  -- And the answer to a query is a live session that holds the device.
  pub who_owns_device_owner :
      (x : ℕ) (j : SessionInfo)
      → who_owns_device m x ≡ ok (some j)
      → (t : ℕ) × (lookup t m.sessionmap ≡ some j) × (contains (to_u16 x) (device_keys j) ≡ true)
  unfolding who_owns_device find_in_cache
  who_owns_device_owner x j h = elim (Option-cases (lookup (to_u16 x) m.devicecachemap)) [
    | inl e ↦ absurd (ground arith)
    | inr (t, e) ↦
        let (i, g, c) = v.devices_agree.sound (to_u16 x) t e in (t, ground arith, ground arith)
  ]

  pub start_session-owned :
      (username comment : String) (devices : List ℕ) (flags : Option (List String))
      (expiry : Option ℕ) (now : ℕ) (secret : Secret) (e : Error)
      → check_items (who_owns_device m) devices ≡ err e
      → start_session m username comment (some devices) flags expiry now secret ≡ err e
  unfolding start_session check_start
  start_session-owned username comment devices flags expiry now secret e h = ground arith

  -- If a requested device is held, the request is refused with the number of a live session that
  -- holds a requested device.
  pub start_session_contended :
      (username comment : String) (devices : List ℕ) (flags : Option (List String))
      (expiry : Option ℕ) (now : ℕ) (secret : Secret) (s x : ℕ) (i : SessionInfo)
      → lookup s m.sessionmap ≡ some i
      → contains x i.devices ≡ true
      → contains x devices ≡ true
      → (y t : ℕ) × (j : SessionInfo) × (lookup t m.sessionmap ≡ some j)
        × (contains y devices ≡ true)
        × (contains (to_u16 y) (device_keys j) ≡ true)
        × (start_session m username comment (some devices) flags expiry now secret
            ≡ err (owned_by t))
  start_session_contended username comment devices flags expiry now secret s x i h k c =
      let held = who_owns_device_held s x i h (contains-map x i.devices k) in
      let (y, j, cy, g, r) =
        check_items-owned (who_owns_device m) devices x i who_owns_device_total c held in
      let (t, ht, ct) = who_owns_device_owner y j g in
      (
        y,
        t,
        j,
        ht,
        cy,
        ct,
        start_session-owned username comment devices flags expiry now secret (owned_by t)
            (ground (arith, v.numbered t j ht)),
      )

  who_owns_device_free :
      (x : ℕ) → lookup (to_u16 x) m.devicecachemap ≡ none → who_owns_device m x ≡ ok none
  unfolding who_owns_device find_in_cache
  who_owns_device_free x h = ground arith

  who_owns_flag_free : (x : String) → lookup x m.flagcachemap ≡ none → who_owns_flag m x ≡ ok none
  unfolding who_owns_flag find_in_cache
  who_owns_flag_free x h = ground arith

-- A request passes the checks of `start_session` exactly when no session holds one of its devices or
-- flags and its expiry, if it has one, lies between now and a session length from now.
abbrev pub Acceptable :
    SessionManager → Option (List ℕ) → Option (List String) → Option ℕ → ℕ → Type 0
Acceptable m devices flags expiry now =
    ((x : ℕ) → contains x (requested devices) ≡ true → who_owns_device m x ≡ ok none)
    × ((x : String) → contains x (requested flags) ≡ true → who_owns_flag m x ≡ ok none)
    × ((tm : ℕ) → expiry ≡ some tm → (now ≤ tm) × (tm ≤ now + m.session_length))

-- Of a request whose expiry is accepted, the expiry makes no difference.
pub start_session_ignores_expiry :
    (m : SessionManager) (username comment : String) (devices : Option (List ℕ))
    (flags : Option (List String)) (tm now : ℕ) (secret : Secret) {r : SessionManager × Secret × ℕ}
    → start_session m username comment devices flags (some tm) now secret ≡ ok r
    → start_session m username comment devices flags none now secret ≡ ok r
unfolding start_session check_start
start_session_ignores_expiry m username comment devices flags tm now secret h = ground arith
