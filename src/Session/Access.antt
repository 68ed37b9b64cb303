-- ===== src/Session/Access.antt =====
-- Who may use a device: `session_auth_check`, and the check that
-- server/include/foxtrot/server/SessionHandlerMixin.hh makes of each request for a device. What the
-- device harness knows (`GetDevice(id)->GetCapability(name)`, which throws if there is no such
-- thing) and the parent's check are arguments. The mixin is only ever instantiated at requests with
-- a device.
use foxtrot.Base.{
  ℕ, ◌≡◌, true, false, Bool, not, Option, none, some, List, arith, ◌==◌, number_eq, bytes_eq,
  contains, if◌then◌else◌, ok, err, Result, ◌>>=◌, ◌>>◌, throw_if, Option-cases, inl, inr, ◌⊎◌, ◌↔◌,
  length,
}
use foxtrot.Base.Dict.{lookup}
use foxtrot.Session.{
  SessionManager, SessionInfo, Secret, session_auth_check_device, who_owns_device, Error,
}
use foxtrot.Session.Invariant.{IsValid, contains-map, device_exclusive}
use foxtrot.Session.Conflict.{who_owns_device_held, who_owns_device_total}

-- The errors of a request; `manager` is what the session manager throws.
pub data RequestError : Type 0 where
  no_capability no_secret wrong_size invalid_session_secret : RequestError
  manager : Error → RequestError

abbrev lift : {A : Type 0} → Result Error A → Result RequestError A
lift (ok a) = ok a
lift (err e) = err (manager e)

-- `detail::check_session_needed` at a request with a device.
pub check_session_needed : SessionManager → Bool → ℕ → Result RequestError Bool
check_session_needed m has_capability devid = do
  throw_if (not has_capability) no_capability
  owner ← lift (who_owns_device m devid)
  ok (elim owner [ none ↦ false | some _ ↦ true ])

-- The metadata entry `session_secret-bin`, if it is there.
pub get_request_session_id : Option (List ℕ) → Result RequestError Secret
get_request_session_id none = err no_secret
get_request_session_id (some bytes) = if length bytes == 32 then ok bytes else err wrong_size

-- The branch that needs a session.
authorise : SessionManager → Option (List ℕ) → ℕ → Result RequestError Bool
unfolding get_request_session_id
authorise m metadata devid = do
  id ← get_request_session_id metadata
  allowed ← lift (session_auth_check_device m id devid)
  if not allowed then err invalid_session_secret else ok true

unfoldable pub check_metadata :
    Bool → SessionManager → Bool → Option (List ℕ) → ℕ → Result RequestError Bool
unfolding check_session_needed authorise
check_metadata parent_check m has_capability metadata devid =
    if not parent_check
    then ok false
    else (check_session_needed m has_capability devid >>= λ needed.
        if needed then authorise m metadata devid else ok true)

module _ (m : SessionManager) (v : IsValid m) where
  -- The check of a secret never throws, and passes exactly for the secret of a live session that
  -- lists the device.
  pub session_auth_check_device_iff :
      (k : Secret) (x : ℕ)
      → (session_auth_check_device m k x ≡ ok true) ↔ (
          (s : ℕ) × (i : SessionInfo) × (lookup k m.sessionidmap ≡ some s)
          × (lookup s m.sessionmap ≡ some i)
          × (contains x i.devices ≡ true))
  unfolding session_auth_check_device
  session_auth_check_device_iff k x = (
    λ h. elim (Option-cases (lookup k m.sessionidmap)) [
      | inl e ↦ absurd (ground arith)
      | inr (s, e) ↦ let (i, held) = v.keyed.known k s e in (s, i, e, held, ground arith)
    ],
    λ (s, i, e, held, c). ground arith,
  )

  -- Of the devices that are owned, only the owner's secret opens one.
  pub session_auth_check_device_owner :
      (k : Secret) (x : ℕ) (i : SessionInfo)
      → who_owns_device m x ≡ ok (some i)
      → session_auth_check_device m k x ≡ ok true
      → lookup k m.sessionidmap ≡ some i.internal_session_id
  session_auth_check_device_owner k x i owned h =
      let (s, j, e, held, c) = (session_auth_check_device_iff k x).0 h in
      ground (
        arith,
        who_owns_device_held m v s x j held (contains-map x j.devices c),
        v.numbered s j held,
      )

  -- No two secrets open one device.
  pub session_auth_check_device_unique :
      (k l : Secret) (x : ℕ)
      → session_auth_check_device m k x ≡ ok true
      → session_auth_check_device m l x ≡ ok true
      → k ≡ l
  session_auth_check_device_unique k l x hk hl =
      let (s, i, ek, hs, ci) = (session_auth_check_device_iff k x).0 hk in
      let (t, j, el, ht, cj) = (session_auth_check_device_iff l x).0 hl in
      let same = device_exclusive m s t x i j v hs ht ci cj in
      v.keyed.one_secret k l s ek (rw same el)

  -- A request for an existing device whose other checks passed goes ahead exactly when nobody owns
  -- the device or its metadata holds a secret of 32 bytes that opens it.
  pub check_metadata_iff :
      (metadata : Option (List ℕ)) (x : ℕ)
      → (check_metadata true m true metadata x ≡ ok true) ↔ (
          (who_owns_device m x ≡ ok none)
          ⊎ ((k : List ℕ) × (metadata ≡ some k)
              × (length k ≡ 32)
              × (session_auth_check_device m k x ≡ ok true)))
  unfolding check_metadata
  check_metadata_iff metadata x = elim (who_owns_device_total m v x) [
    | inl free ↦ (λ h. inl free, λ h. ground arith)
    | inr (i, owned) ↦ elim (Option-cases metadata) [
      | inl e ↦ (λ h. absurd (ground arith), λ h. absurd (ground arith))
      | inr (k, e) ↦ (λ h. inr (k, e, ground arith, ground arith), λ h. ground arith)
    ]
  ]
