-- ===== src/Session/Start.antt =====
-- `start_session`: which requests are granted, which are refused, and what a granted one changes.
use foxtrot.Base.{
  ℕ, ◌+◌, ◌≤◌, ◌<◌, ◌≡◌, refl, true, Option, none, some, List, [], ◌∷◌, map, String, arith, ◌==◌,
  number_eq, text_eq, bytes_eq, contains, if◌then◌else◌, ok, Result, ltb, Eq, Bool-cases,
  Option-cases, inl, inr, ◌⊎◌,
}
use foxtrot.Base.Dict.{Dict, lookup, insert-IsDict, lookup-insert}
use foxtrot.Session.{
  SessionManager, SessionInfo, Secret, Error, to_u16, requested, find_in_cache, who_owns_device,
  who_owns_flag, check_items, check_optional_expiry, check_start, max_key, fresh_id, commit_start,
  start_session, new_session,
}
use foxtrot.Session.Cache.{Agrees-start}
use foxtrot.Session.Secrets.{Keyed-start}
use foxtrot.Session.Invariant.{IsValid, device_keys, flag_keys}

-- Every session number lies below the largest `unsigned short`.
abbrev pub HasRoom : SessionManager → Type 0
HasRoom m = (s : ℕ) (i : SessionInfo) → lookup s m.sessionmap ≡ some i → s < 65535

le-max_key : {V : Type 0} (best : ℕ) (m : Dict ℕ V) → best ≤ max_key best m
le-max_key best [] = omega arith
le-max_key best ((k, v) ∷ m) = ground (arith, le-max_key (if ltb best k then k else best) m)

pub key-le-max_key :
    {V : Type 0} (best k : ℕ) (v : V) (m : Dict ℕ V) → lookup k m ≡ some v → k ≤ max_key best m
key-le-max_key best k v [] h = ground arith
key-le-max_key best k v ((j, w) ∷ m) h = ground (
  arith,
  key-le-max_key (if ltb best j then j else best) k v m,
  le-max_key (if ltb best j then j else best) m,
)

-- The largest key is a key, or what it began with.
pub max_key_cases :
    {V : Type 0} (best : ℕ) (m : Dict ℕ V)
    → (max_key best m ≡ best) ⊎ ((v : V) × (lookup (max_key best m) m ≡ some v))
max_key_cases best [] = inl refl
max_key_cases best ((k, v) ∷ m) = elim (max_key_cases (if ltb best k then k else best) m) [
  | inl e ↦ elim (Bool-cases (ltb best k)) [
    | inl t ↦ inr (v, ground arith)
    | inr f ↦ inl (ground arith)
  ]
  | inr (w, e) ↦ elim (Bool-cases (k == max_key (if ltb best k then k else best) m)) [
    | inl hit ↦ inr (v, rw hit)
    | inr miss ↦ inr (w, rw miss e)
  ]
]

max_key_bound :
    (sessions : Dict ℕ SessionInfo) (k : ℕ) (i : SessionInfo)
    → ((s : ℕ) (j : SessionInfo) → lookup s ((k, i) ∷ sessions) ≡ some j → s < 65535)
    → max_key k sessions < 65535
max_key_bound sessions k i h = elim (max_key_cases k sessions) [
  | inl e ↦ ground (arith, h k i)
  | inr (j, e) ↦ ground (arith, h k i, h (max_key k sessions) j)
]

new_above :
    (sessions : Dict ℕ SessionInfo) (k : ℕ) (i : SessionInfo)
    → ((s : ℕ) (j : SessionInfo) → lookup s ((k, i) ∷ sessions) ≡ some j → s < 65535)
    → lookup (to_u16 (max_key k sessions + 1)) ((k, i) ∷ sessions) ≡ none
new_above sessions k i h =
    elim (Option-cases (lookup (to_u16 (max_key k sessions + 1)) ((k, i) ∷ sessions))) [
      | inl e ↦ e
      | inr (j, e) ↦ absurd (
          ground (
            arith,
            max_key_bound sessions k i h,
            key-le-max_key k (to_u16 (max_key k sessions + 1)) j ((k, i) ∷ sessions) e,
          ))
    ]

fresh_id-new_of :
    (m : SessionManager) (l : Dict ℕ SessionInfo)
    → m.sessionmap ≡ l
    → HasRoom m
    → lookup (fresh_id m) m.sessionmap ≡ none
unfolding fresh_id
fresh_id-new_of m [] e h = ground arith
fresh_id-new_of m ((k, i) ∷ l) e h = rw (e, fresh_id) (new_above l k i λ s j g. h s j (rw e g))

-- With room left, the next number is not in use.
pub fresh_id-new : (m : SessionManager) → HasRoom m → lookup (fresh_id m) m.sessionmap ≡ none
fresh_id-new m h = fresh_id-new_of m m.sessionmap refl h

-- No item of the list is owned.
pub check_items-free :
    {A : Type 0} ⦃e : Eq A⦄ (f : A → Result Error (Option SessionInfo)) (xs : List A) (x : A)
    → check_items f xs ≡ ok tt
    → contains x xs ≡ true
    → f x ≡ ok none
unfolding check_items
check_items-free f [] x h k = ground arith
check_items-free ⦃e⦄ f (y ∷ xs) x h k = ground (arith, e.same_iff y x, check_items-free f xs x)

who_owns_device-none :
    (m : SessionManager) (x : ℕ)
    → who_owns_device m x ≡ ok none
    → lookup (to_u16 x) m.devicecachemap ≡ none
unfolding who_owns_device find_in_cache
who_owns_device-none m x h = ground arith

who_owns_flag-none :
    (m : SessionManager) (x : String) → who_owns_flag m x ≡ ok none → lookup x m.flagcachemap ≡ none
unfolding who_owns_flag find_in_cache
who_owns_flag-none m x h = ground arith

-- The devices that pass the check are free under the cache's keys.
devices_free :
    (m : SessionManager) (xs : List ℕ) (d : ℕ)
    → check_items (who_owns_device m) xs ≡ ok tt
    → contains d (map to_u16 xs) ≡ true
    → lookup d m.devicecachemap ≡ none
unfolding check_items
devices_free m [] d h k = ground arith
devices_free m (x ∷ xs) d h k = ground (arith, devices_free m xs d, who_owns_device-none m x)

flags_free :
    (m : SessionManager) (xs : List String) (d : String)
    → check_items (who_owns_flag m) xs ≡ ok tt
    → contains d xs ≡ true
    → lookup d m.flagcachemap ≡ none
flags_free m xs d h k = who_owns_flag-none m d (check_items-free (who_owns_flag m) xs d h k)

pub check_start-ok :
    (m : SessionManager) (devices : Option (List ℕ)) (flags : Option (List String))
    (expiry : Option ℕ) (now : ℕ)
    → check_start m devices flags expiry now ≡ ok tt
    → (check_items (who_owns_device m) (requested devices) ≡ ok tt)
      × (check_items (who_owns_flag m) (requested flags) ≡ ok tt)
      × (check_optional_expiry m now expiry ≡ ok tt)
unfolding check_start
check_start-ok m devices flags expiry now h = ground arith

module _ (m : SessionManager) (username comment : String) (devices : Option (List ℕ))
    (flags : Option (List String)) (now : ℕ) (secret : Secret) where
  -- The session that is granted.
  abbrev pub granted : SessionInfo
  granted = new_session (fresh_id m) username comment devices flags (now + m.session_length)

  -- Committing a request that passed the checks, on the state that was checked.
  pub commit_start-IsValid :
      IsValid m
      → HasRoom m
      → lookup secret m.sessionidmap ≡ none
      → check_items (who_owns_device m) (requested devices) ≡ ok tt
      → check_items (who_owns_flag m) (requested flags) ≡ ok tt
      → IsValid (commit_start m username comment devices flags now secret).0
  unfolding commit_start
  commit_start-IsValid v room fresh hd hf =
      let new = fresh_id-new m room in
      record {
        devices_agree =
            Agrees-start device_keys m.devicecachemap m.sessionmap (fresh_id m) granted new
              (λ d. devices_free m (requested devices) d hd) v.devices_agree;
        flags_agree =
            Agrees-start flag_keys m.flagcachemap m.sessionmap (fresh_id m) granted new
              (λ d. flags_free m (requested flags) d hf) v.flags_agree;
        keyed =
            Keyed-start m.sessionidmap m.sessionmap secret (fresh_id m) granted new fresh v.keyed;
        secrets_dict = insert-IsDict secret (fresh_id m) m.sessionidmap v.secrets_dict;
        sessions_dict = insert-IsDict (fresh_id m) granted m.sessionmap v.sessions_dict;
        numbered = λ s i h.
            ground (arith, lookup-insert (fresh_id m) s granted m.sessionmap, v.numbered s i);
      }

  module _ (requested_expiry : Option ℕ) where
    start_session-ok :
        {r : SessionManager × Secret × ℕ}
        → start_session m username comment devices flags requested_expiry now secret ≡ ok r
        → (check_start m devices flags requested_expiry now ≡ ok tt)
          × (r ≡ commit_start m username comment devices flags now secret)
    unfolding start_session
    start_session-ok h = ground arith

    -- A session that is started keeps the invariant, as long as the numbers do not run out and the
    -- new secret is not in use.
    pub start_session-IsValid :
        {r : SessionManager × Secret × ℕ}
        → IsValid m
        → HasRoom m
        → lookup secret m.sessionidmap ≡ none
        → start_session m username comment devices flags requested_expiry now secret ≡ ok r
        → IsValid r.0
    start_session-IsValid v room fresh h =
        let (passed, e) = start_session-ok h in
        let (hd, hf, _) = check_start-ok m devices flags requested_expiry now passed in
        rw e (commit_start-IsValid v room fresh hd hf)
