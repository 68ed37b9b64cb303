-- ===== src/Session/Race.antt =====
-- `start_session` checks its request before it takes the lock. Two calls that both check before
-- either commits are both granted.
use foxtrot.Base.{
  ℕ, ◌≡◌, ◌≢◌, true, Option, none, some, List, String, arith, number_eq, text_eq, bytes_eq,
  same_bytes_iff, contains, ok, sym, ap, ◌∙◌, Option-cases, inl, inr,
}
use foxtrot.Base.Dict.{lookup, lookup-insert, lookup-insert_self}
use foxtrot.Session.{
  SessionManager, Secret, requested, fresh_id, commit_start, check_start, who_owns_device,
  session_auth_check_device,
}
use foxtrot.Session.Invariant.{IsValid, contains-map}
use foxtrot.Session.Conflict.{who_owns_device_held}
use foxtrot.Session.Access.{session_auth_check_device_unique, session_auth_check_device_iff}
use foxtrot.Session.Start.{
  HasRoom, fresh_id-new, granted, check_start-ok, commit_start-IsValid, check_items-free,
}

-- A secret opens the devices of the session that it was issued for.
pub session_auth_check_device-commit :
    (m : SessionManager) (username comment : String) (devices : Option (List ℕ))
    (flags : Option (List String)) (now : ℕ) (secret : Secret) (x : ℕ)
    → session_auth_check_device
        (commit_start m username comment devices flags now secret).0
        secret
        x
      ≡ ok (contains x (requested devices))
unfolding session_auth_check_device commit_start
session_auth_check_device-commit m username comment devices flags now secret x = ground (
  arith,
  lookup-insert_self secret (fresh_id m) m.sessionidmap,
  lookup-insert_self (fresh_id m) (granted m username comment devices flags now secret)
      m.sessionmap,
)

-- A later commit, under a number and a secret that are not in use, changes nothing for it.
session_auth_check_device-later :
    (m : SessionManager) (username comment : String) (devices : Option (List ℕ))
    (flags : Option (List String)) (now : ℕ) (secret k : Secret) (x : ℕ)
    → k ≢ secret
    → lookup (fresh_id m) m.sessionmap ≡ none
    → session_auth_check_device m k x ≡ ok true
    → session_auth_check_device (commit_start m username comment devices flags now secret).0 k x
      ≡ ok true
unfolding session_auth_check_device commit_start
session_auth_check_device-later m username comment devices flags now secret k x ne new h =
    elim (Option-cases (lookup k m.sessionidmap)) [
      | inl e ↦ absurd (ground arith)
      | inr (s, e) ↦ ground (
        arith,
        same_bytes_iff secret k,
        lookup-insert secret k (fresh_id m) m.sessionidmap,
        lookup-insert (fresh_id m) s (granted m username comment devices flags now secret)
            m.sessionmap,
      )
    ]

module _ (m : SessionManager) (user other comment : String) (xs ys : List ℕ)
    (flags : Option (List String)) (expiry : Option ℕ) (now : ℕ) (k l : Secret) where
  -- The state after the first commit, and after both.
  abbrev pub first : SessionManager
  first = (commit_start m user comment (some xs) flags now k).0

  abbrev pub second : SessionManager
  second = (commit_start first other comment (some ys) flags now l).0

  -- Two users ask for the same device, and both requests pass their checks in one valid state before
  -- either is committed. Then both are granted, each user's secret opens the device, and the state
  -- is not valid any more; a check made after the first commit would have refused the second.
  pub start_session_race :
      (x : ℕ)
      → IsValid m
      → HasRoom m
      → HasRoom first
      → lookup k m.sessionidmap ≡ none
      → l ≢ k
      → contains x xs ≡ true
      → contains x ys ≡ true
      → check_start m (some xs) flags expiry now ≡ ok tt
      → check_start m (some ys) flags expiry now ≡ ok tt
      → (session_auth_check_device second k x ≡ ok true)
        × (session_auth_check_device second l x ≡ ok true)
        × ¬ IsValid second
        × (check_start first (some ys) flags expiry now ≢ ok tt)
  start_session_race x v room more fresh ne cx cy passed also = (
    opens_k,
    opens_l,
    λ w. ne (sym (session_auth_check_device_unique second w k l x opens_k opens_l)),
    λ again.
        let (hd, hf, _) = check_start-ok m (some xs) flags expiry now passed in
        let w = commit_start-IsValid m user comment (some xs) flags now k v room fresh hd hf in
        let (s, i, _, held, c) = (session_auth_check_device_iff first w k x).0 opened in
        let (free, _, _) = check_start-ok first (some ys) flags expiry now again in
        ground (
          arith,
          check_items-free (who_owns_device first) ys x free cy,
          who_owns_device_held first w s x i held (contains-map x i.devices c),
        ),
  )
    where
      opened : session_auth_check_device first k x ≡ ok true
      opened = session_auth_check_device-commit m user comment (some xs) flags now k x ∙ ap ok cx

      opens_k : session_auth_check_device second k x ≡ ok true
      opens_k =
          session_auth_check_device-later first other comment (some ys) flags now l k x
            (λ e. ne (sym e)) (fresh_id-new first more) opened

      opens_l : session_auth_check_device second l x ≡ ok true
      opens_l =
          session_auth_check_device-commit first other comment (some ys) flags now l x ∙ ap ok cy
