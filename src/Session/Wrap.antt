-- ===== src/Session/Wrap.antt =====
-- Where the `unsigned short` of the code is too small: session numbers that run out, and device
-- numbers that the cache confuses.
use foxtrot.Base.{
  ℕ, ◌≡◌, ◌≢◌, ◌+◌, ◌*◌, ◌<◌, true, Option, some, List, [], ◌∷◌, String, arith, number_eq, text_eq,
  bytes_eq, same_bytes_iff, contains, ok, err, refl, inl, inr,
}
use foxtrot.Base.Dict.{Dict, lookup, lookup-insert, lookup-insert_self}
use foxtrot.Session.{
  SessionManager, SessionInfo, Secret, requested, fresh_id, max_key, to_u16, commit_start,
  who_owns_device, session_auth_check_device, new_session, check_items, start_session, owned_by,
}
use foxtrot.Session.Invariant.{IsValid, contains-map}
use foxtrot.Session.Start.{key-le-max_key, max_key_cases, granted}
use foxtrot.Session.Conflict.{start_session-owned, who_owns_device_held}

-- Every session number fits an `unsigned short`.
abbrev pub IsNumbered : SessionManager → Type 0
IsNumbered m = (s : ℕ) (i : SessionInfo) → lookup s m.sessionmap ≡ some i → s < 65536

max_key-full :
    (k : ℕ) (i top : SessionInfo) (l : Dict ℕ SessionInfo)
    → lookup 65535 ((k, i) ∷ l) ≡ some top
    → ((s : ℕ) (j : SessionInfo) → lookup s ((k, i) ∷ l) ≡ some j → s < 65536)
    → max_key k l ≡ 65535
max_key-full k i top l h bound =
    let above = key-le-max_key k 65535 top ((k, i) ∷ l) h in
    elim (max_key_cases k l) [
      | inl e ↦ ground (arith, bound k i, above)
      | inr (j, e) ↦ ground (arith, bound k i, bound (max_key k l) j, above)
    ]

fresh_id-full_of :
    (m : SessionManager) (top : SessionInfo) (l : Dict ℕ SessionInfo)
    → m.sessionmap ≡ l
    → IsNumbered m
    → lookup 65535 m.sessionmap ≡ some top
    → fresh_id m ≡ 0
unfolding fresh_id
fresh_id-full_of m top [] e bound h = ground arith
fresh_id-full_of m top ((k, i) ∷ l) e bound h =
    let last = max_key-full k i top l (rw e at h) (λ s j g. bound s j (rw e g)) in
    rw (e, fresh_id) (omega (arith, last))

-- Once session 65535 exists, the next session gets the number 0. If a session 0 is still alive, the
-- new session takes its place, and the secret of the old session opens the devices of the new one.
pub start_session_wraps :
    (m : SessionManager) (username comment : String) (devices : Option (List ℕ))
    (flags : Option (List String)) (now x : ℕ) (secret old : Secret) (top : SessionInfo)
    → IsNumbered m
    → lookup 65535 m.sessionmap ≡ some top
    → lookup old m.sessionidmap ≡ some 0
    → old ≢ secret
    → let m' = (commit_start m username comment devices flags now secret).0 in
      (lookup 0 m'.sessionmap
        ≡ some (new_session 0 username comment devices flags (now + m.session_length)))
      × (session_auth_check_device m' old x ≡ ok (contains x (requested devices)))
unfolding commit_start session_auth_check_device
start_session_wraps m username comment devices flags now x secret old top bound h zero_id ne =
    let zero_next = fresh_id-full_of m top m.sessionmap refl bound h in
    let fresh = granted m username comment devices flags now secret in
    let stored = lookup-insert_self (fresh_id m) fresh m.sessionmap in
    let kept = lookup-insert secret old (fresh_id m) m.sessionidmap in
    (
      ground (arith, zero_next, stored),
      ground (arith, zero_next, stored, kept, same_bytes_iff secret old),
    )

-- Device numbers that differ by a multiple of 65536 are one to the cache: while a session holds `x`,
-- a request for `x + 65536 * n` alone is refused in its name.
pub start_session_alias :
    (m : SessionManager) (username comment : String) (flags : Option (List String))
    (expiry : Option ℕ) (now s x n : ℕ) (secret : Secret) (i : SessionInfo)
    → IsValid m
    → lookup s m.sessionmap ≡ some i
    → contains x i.devices ≡ true
    → start_session m username comment (some ((x + 65536 * n) ∷ [])) flags expiry now secret
      ≡ err (owned_by s)
unfolding check_items
start_session_alias m username comment flags expiry now s x n secret i v h c =
    start_session-owned m v username comment _ flags expiry now secret (owned_by s)
      (ground (arith, v.numbered s i h, held))
  where
    same : to_u16 (x + 65536 * n) ≡ to_u16 x
    same = omega arith

    held : who_owns_device m (x + 65536 * n) ≡ ok (some i)
    held = who_owns_device_held m v s (x + 65536 * n) i h (rw same (contains-map x i.devices c))
