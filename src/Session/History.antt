-- ===== src/Session/History.antt =====
-- Any sequence of calls on a fresh manager, each made with no other call in between.
use foxtrot.Base.{
  ℕ, ◌≡◌, Bool, Option, none, List, [], ◌∷◌, String, arith, number_eq, text_eq, bytes_eq, ok, err,
  Result, inl, inr, Option-cases, refl,
}
use foxtrot.Base.Dict.{lookup}
use foxtrot.Session.{
  SessionManager, Secret, Error, start_session, close_session, renew_session, update_session_states,
}
use foxtrot.Session.Invariant.{IsValid}
use foxtrot.Session.Start.{HasRoom, start_session-IsValid}
use foxtrot.Session.Expiry.{
  close_session_known, close_session_unknown, renew_session-IsValid, update_session_states_lem,
}

pub data Call : Type 0 where
  starts : String → String → Option (List ℕ) → Option (List String) → Option ℕ → ℕ → Secret → Call
  closes : Secret → Call
  renews : Secret → Option ℕ → ℕ → Call
  updates : ℕ → Call

-- A call that throws leaves the manager as it was.
abbrev after :
    {A : Type 0} → (A → SessionManager) → SessionManager → Result Error A → SessionManager
after f m (ok a) = f a
after f m (err e) = m

unfoldable pub step : SessionManager → Call → SessionManager
step m (starts username comment devices flags expiry now secret) =
    after (λ r. r.0) m (start_session m username comment devices flags expiry now secret)
step m (closes k) = after (λ r. r.0) m (close_session m k)
step m (renews k expiry now) = after (λ r. r.0) m (renew_session m k expiry now)
step m (updates now) = after (λ r. r) m (update_session_states m now)

unfoldable pub run : SessionManager → List Call → SessionManager
unfolding step
run m [] = m
run m (c ∷ cs) = run (step m c) cs

-- What the environment provides: the random secret of a new session is not in use, and the numbers
-- have not run out.
abbrev pub Allowed : SessionManager → Call → Type 0
Allowed m (starts _ _ _ _ _ _ secret) = HasRoom m × (lookup secret m.sessionidmap ≡ none)
Allowed m _ = Unit

abbrev pub AllowedAll : SessionManager → List Call → Type 0
AllowedAll m [] = Unit
AllowedAll m (c ∷ cs) = Allowed m c × AllowedAll (step m c) cs

after-IsValid :
    {A : Type 0} (f : A → SessionManager) (m : SessionManager) (r : Result Error A)
    → IsValid m
    → ((a : A) → r ≡ ok a → IsValid (f a))
    → IsValid (after f m r)
after-IsValid f m (ok a) v h = h a refl
after-IsValid f m (err e) v h = v

close_session-IsValid :
    (m : SessionManager) (k : Secret) (r : SessionManager × Bool)
    → IsValid m
    → close_session m k ≡ ok r
    → IsValid r.0
close_session-IsValid m k r v h = elim (Option-cases (lookup k m.sessionidmap)) [
  | inl e ↦ let same : r.0 ≡ m = ground (arith, close_session_unknown m k e) in rw same v
  | inr (s, e) ↦
      let (m', closed, w, _, _, _) = close_session_known m k s v e in
      let same : r.0 ≡ m' = ground arith in rw same w
]

update_session_states-IsValid :
    (m m' : SessionManager) (now : ℕ) → IsValid m → update_session_states m now ≡ ok m' → IsValid m'
update_session_states-IsValid m m' now v h =
    let (l, e, w, _) = update_session_states_lem m now v in
    let same : m' ≡ l = ground arith in rw same w

-- Every call keeps the invariant.
pub step-IsValid : (m : SessionManager) (c : Call) → Allowed m c → IsValid m → IsValid (step m c)
unfolding step
step-IsValid m (starts username comment devices flags expiry now secret) (room, fresh) v =
    after-IsValid (λ r. r.0) m _ v
      (λ r h.
        start_session-IsValid m username comment devices flags now secret expiry v room fresh h)
step-IsValid m (closes k) a v =
    after-IsValid (λ r. r.0) m _ v (λ r h. close_session-IsValid m k r v h)
step-IsValid m (renews k expiry now) a v =
    after-IsValid (λ r. r.0) m _ v (λ r h. renew_session-IsValid m k expiry now v h)
step-IsValid m (updates now) a v =
    after-IsValid (λ r. r) m _ v (λ r h. update_session_states-IsValid m r now v h)

pub run-IsValid :
    (m : SessionManager) (cs : List Call) → AllowedAll m cs → IsValid m → IsValid (run m cs)
unfolding run
run-IsValid m [] a v = v
run-IsValid m (c ∷ cs) a v = run-IsValid (step m c) cs a.1 (step-IsValid m c a.0 v)
