-- ===== src/Session/Expiry.antt =====
-- Sessions that end or go on: `close_session`, `renew_session` and `update_session_states`.
use foxtrot.Base.{
  ℕ, ◌+◌, ◌≤◌, ◌<◌, ◌≡◌, refl, ◌∙◌, true, false, Bool, Option, none, some, List, [], ◌∷◌, arith,
  ◌==◌, number_eq, text_eq, bytes_eq, contains, if◌then◌else◌, ok, err, ltb, Bool-cases,
  Option-cases, inl, inr, ◌⊎◌,
}
use mathlib.Core.Option
use foxtrot.Base.Dict.{
  Dict, lookup, IsDict, insert-IsDict, lookup-insert, lookup-erase, lookup-erase_self,
  lookup-erase_all,
}
use foxtrot.Session.{
  SessionManager, SessionInfo, Secret, too_long, in_past, remove_sessions, close_session,
  renew_session, check_requested_expiry, set_expiry, expired_ids, update_session_states,
}
use foxtrot.Session.Cache.{Agrees-update}
use foxtrot.Session.Secrets.{Keyed-update}
use foxtrot.Session.Invariant.{IsValid, device_keys, flag_keys, removed, remove_session-removed}

-- Closing by a secret that is in use ends that session and no other, gives back its devices, keeps
-- the invariant, and cannot fail.
pub close_session_known :
    (m : SessionManager) (k : Secret) (s : ℕ)
    → IsValid m
    → lookup k m.sessionidmap ≡ some s
    → (m' : SessionManager) × (close_session m k ≡ ok (m', true))
      × IsValid m'
      × (lookup k m'.sessionidmap ≡ none)
      × ((t : ℕ) → lookup t m'.sessionmap ≡ (if s == t then none else lookup t m.sessionmap))
      × ((d : ℕ) → lookup d m.devicecachemap ≡ some s → lookup d m'.devicecachemap ≡ none)
unfolding close_session
close_session_known m k s v h =
    let (i, held) = v.keyed.known k s h in
    let (j, e, r, w) = remove_session-removed m s i v held in
    let same = v.keyed.one_secret j k s e h in
    (
      removed m s i j,
      ground arith,
      w,
      ground (arith, lookup-erase_self j m.sessionidmap),
      λ t. lookup-erase s t m.sessionmap,
      λ d g.
          ground (
            arith,
            lookup-erase_all (device_keys i) d m.devicecachemap,
            v.devices_agree.sound d s g,
          ),
    )

-- Closing by an unknown secret changes nothing.
pub close_session_unknown :
    (m : SessionManager) (k : Secret)
    → lookup k m.sessionidmap ≡ none
    → close_session m k ≡ ok (m, false)
unfolding close_session
close_session_unknown m k h = ground arith

set_expiry-IsValid :
    (m : SessionManager) (s t : ℕ) (i : SessionInfo)
    → IsValid m
    → lookup s m.sessionmap ≡ some i
    → IsValid (set_expiry m s i t)
set_expiry-IsValid m s t i v held = record {
  devices_agree =
      Agrees-update device_keys m.devicecachemap m.sessionmap s i (record i { expiry = t }) held
        refl v.devices_agree;
  flags_agree =
      Agrees-update flag_keys m.flagcachemap m.sessionmap s i (record i { expiry = t }) held refl
        v.flags_agree;
  keyed = Keyed-update m.sessionidmap m.sessionmap s i (record i { expiry = t }) held v.keyed;
  secrets_dict = v.secrets_dict;
  sessions_dict = insert-IsDict s (record i { expiry = t }) m.sessionmap v.sessions_dict;
  numbered = λ u j h. ground (
    arith,
    lookup-insert s u (record i { expiry = t }) m.sessionmap,
    v.numbered u j,
    v.numbered s i held,
  );
}

-- A renewal by a secret in use, with no expiry requested or with one between now and a session
-- length from now, changes the expiry of that session alone, and keeps the invariant.
pub renew_session_known :
    (m : SessionManager) (k : Secret) (s now : ℕ) (expiry : Option ℕ)
    → IsValid m
    → lookup k m.sessionidmap ≡ some s
    → ((tm : ℕ) → expiry ≡ some tm → (now ≤ tm) × (tm ≤ now + m.session_length))
    → (i : SessionInfo) × (lookup s m.sessionmap ≡ some i)
      × (renew_session m k expiry now
          ≡ ok (set_expiry m s i (Option.get_or expiry (now + m.session_length)), true))
      × IsValid (set_expiry m s i (Option.get_or expiry (now + m.session_length)))
unfolding renew_session check_requested_expiry
renew_session_known m k s now none v h fits =
    let (i, held) = v.keyed.known k s h in
    (i, held, ground arith, set_expiry-IsValid m s (now + m.session_length) i v held)
renew_session_known m k s now (some tm) v h fits =
    let (i, held) = v.keyed.known k s h in
    (i, held, ground (arith, fits tm refl), set_expiry-IsValid m s tm i v held)

-- A requested expiry outside that range is an error, and nothing is changed.
pub renew_session_refused :
    (m : SessionManager) (k : Secret) (s now tm : ℕ)
    → IsValid m
    → lookup k m.sessionidmap ≡ some s
    → (tm < now) ⊎ (now + m.session_length < tm)
    → (renew_session m k (some tm) now ≡ err too_long)
      ⊎ (renew_session m k (some tm) now ≡ err in_past)
unfolding renew_session check_requested_expiry
renew_session_refused m k s now tm v h bad =
    let (i, held) = v.keyed.known k s h in
    elim (Bool-cases (ltb (now + m.session_length) tm)) [
      | inl late ↦ inl (ground arith)
      | inr fits ↦ inr (ground arith)
    ]

-- However a renewal ends, the invariant is kept.
pub renew_session-IsValid :
    (m : SessionManager) (k : Secret) (expiry : Option ℕ) (now : ℕ) {r : SessionManager × Bool}
    → IsValid m
    → renew_session m k expiry now ≡ ok r
    → IsValid r.0
unfolding renew_session check_requested_expiry
renew_session-IsValid m k expiry now {r} v h = elim (Option-cases (lookup k m.sessionidmap)) [
  | inl e ↦ let same : r.0 ≡ m = ground arith in rw same v
  | inr (s, e) ↦
      let (i, held) = v.keyed.known k s e in
      elim (Option-cases expiry) [
        | inl f ↦
            let same : r.0 ≡ set_expiry m s i (now + m.session_length) = ground arith in
            rw same (set_expiry-IsValid m s (now + m.session_length) i v held)
        | inr (tm, f) ↦
            let same : r.0 ≡ set_expiry m s i tm = ground arith in
            rw same (set_expiry-IsValid m s tm i v held)
      ]
]

-- What is left of a session at a time.
abbrev pub unexpired : ℕ → Option SessionInfo → Option SessionInfo
unexpired now none = none
unexpired now (some i) = if ltb i.expiry now then none else some i

abbrev Distinct : List ℕ → Type 0
Distinct [] = Unit
Distinct (s ∷ ids) = (contains s ids ≡ false) × Distinct ids

expired_ids-live :
    (now s : ℕ) (m : Dict ℕ SessionInfo)
    → IsDict m
    → contains s (expired_ids now m) ≡ true
    → (i : SessionInfo) × (lookup s m ≡ some i) × (i.expiry < now)
expired_ids-live now s [] u h = absurd (ground arith)
expired_ids-live now s ((t, i) ∷ m) u h = elim (Bool-cases (t == s)) [
  | inl hit ↦ elim (Bool-cases (ltb i.expiry now)) [
    | inl old ↦ (i, rw hit, ground arith)
    | inr young ↦
        let (j, e, f) = expired_ids-live now s m u.1 (ground arith) in absurd (ground arith)
  ]
  | inr miss ↦ let (j, e, f) = expired_ids-live now s m u.1 (ground arith) in (j, rw miss e, f)
]

expired_ids_complete :
    (now s : ℕ) (i : SessionInfo) (m : Dict ℕ SessionInfo)
    → lookup s m ≡ some i
    → i.expiry < now
    → contains s (expired_ids now m) ≡ true
expired_ids_complete now s i [] h old = ground arith
expired_ids_complete now s i ((t, j) ∷ m) h old = ground (arith, expired_ids_complete now s i m)

expired_ids-Distinct : (now : ℕ) (m : Dict ℕ SessionInfo) → IsDict m → Distinct (expired_ids now m)
expired_ids-Distinct now [] u = tt
expired_ids-Distinct now ((t, i) ∷ m) u = elim (Bool-cases (ltb i.expiry now)) [
  | inl old ↦ rw old (elim (Bool-cases (contains t (expired_ids now m))) [
    | inl bad ↦ let (j, e, f) = expired_ids-live now t m u.1 bad in absurd (ground arith)
    | inr good ↦ (good, expired_ids-Distinct now m u.1)
  ])
  | inr young ↦ rw young (expired_ids-Distinct now m u.1)
]

remove_sessions_lem :
    (m : SessionManager) (ids : List ℕ)
    → IsValid m
    → ((s : ℕ) → contains s ids ≡ true → (i : SessionInfo) × (lookup s m.sessionmap ≡ some i))
    → Distinct ids
    → (m' : SessionManager) × (remove_sessions m ids ≡ ok m')
      × IsValid m'
      × ((t : ℕ)
          → lookup t m'.sessionmap ≡ (if contains t ids then none else lookup t m.sessionmap))
unfolding remove_sessions
remove_sessions_lem m [] v live u = (m, refl, v, λ t. refl)
remove_sessions_lem m (s ∷ ids) v live u =
    let (i, held) = live s (ground arith) in
    let (k, e, r, w) = remove_session-removed m s i v held in
    let (m', rest, w', g) =
      remove_sessions_lem (removed m s i k) ids w
        (λ t h.
          let (j, f) = live t (ground arith) in (j, ground (arith, lookup-erase s t m.sessionmap)))
        u.1 in
    (m', rw (r) rest, w', λ t. ground (arith, g t, lookup-erase s t m.sessionmap))

contains-expired_ids :
    (now t : ℕ) (m : Dict ℕ SessionInfo)
    → IsDict m
    → (if contains t (expired_ids now m) then none else lookup t m) ≡ unexpired now (lookup t m)
contains-expired_ids now t m u = elim (Bool-cases (contains t (expired_ids now m))) [
  | inl old ↦ let (i, e, f) = expired_ids-live now t m u old in ground arith
  | inr young ↦ elim (Option-cases (lookup t m)) [
    | inl e ↦ ground arith
    | inr (i, e) ↦ ground (arith, expired_ids_complete now t i m e)
  ]
]

-- An update never fails, ends exactly the sessions whose expiry has passed, and keeps the invariant.
pub update_session_states_lem :
    (m : SessionManager) (now : ℕ)
    → IsValid m
    → (m' : SessionManager) × (update_session_states m now ≡ ok m')
      × IsValid m'
      × ((t : ℕ) → lookup t m'.sessionmap ≡ unexpired now (lookup t m.sessionmap))
unfolding update_session_states
update_session_states_lem m now v =
    let (m', e, w, g) =
      remove_sessions_lem m (expired_ids now m.sessionmap) v
        (λ s h. let (i, f, _) = expired_ids-live now s m.sessionmap v.sessions_dict h in (i, f))
        (expired_ids-Distinct now m.sessionmap v.sessions_dict) in
    (m', e, w, λ t. g t ∙ contains-expired_ids now t m.sessionmap v.sessions_dict)
