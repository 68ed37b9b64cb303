-- ===== src/Session/Tests.antt =====
-- Runs of the session manager, and its theorems at concrete states.
use foxtrot.Base.{
  ℕ, ◌≡◌, ◌≢◌, refl, true, none, some, List, [], ◌∷◌, arith, number_eq, text_eq, bytes_eq, ok, err,
  length, ◌↔◌, ◌⊎◌, ◌==◌, if◌then◌else◌,
}
use foxtrot.Base.Dict.{lookup}
use foxtrot.Session.{
  SessionManager, SessionInfo, Secret, init, commit_start, start_session, close_session,
  remove_session, update_session_states, owned_by, session_auth_check_device, new_session,
  who_owns_device, check_start,
}
use foxtrot.Session.Invariant.{IsValid, init-IsValid}
use foxtrot.Session.Start.{HasRoom, start_session-IsValid}
use foxtrot.Session.Expiry.{close_session_known, update_session_states_lem, unexpired}
use foxtrot.Session.History.{Call, step, step-IsValid}
use foxtrot.Session.Access.{check_metadata, check_metadata_iff}
use foxtrot.Session.Race.{first, second, start_session_race}

abbrev ann_secret : Secret
ann_secret = 7 ∷ 7 ∷ []

abbrev bob_secret : Secret
bob_secret = 9 ∷ 9 ∷ []

abbrev ann_session : SessionInfo
ann_session = new_session 0 "ann" "beam test" (some (3 ∷ 4 ∷ [])) (some ("shutter" ∷ [])) 110

-- Ann holds the devices 3 and 4 and a flag until time 110.
abbrev ann_state : SessionManager
ann_state = record {
  sessionmap = (0, ann_session) ∷ [];
  sessionidmap = (ann_secret, 0) ∷ [];
  devicecachemap = (3, 0) ∷ (4, 0) ∷ [];
  flagcachemap = ("shutter", 0) ∷ [];
  next_session_id = 0;
  session_length = 100;
}

start_ann :
    start_session
      (init 100)
      "ann"
      "beam test"
      (some (3 ∷ 4 ∷ []))
      (some ("shutter" ∷ []))
      none
      10
      ann_secret
    ≡ ok (ann_state, ann_secret, 0)
unfolding start_session init
start_ann = refl

start_bob :
    start_session ann_state "bob" "" (some (5 ∷ 4 ∷ [])) none none 20 bob_secret ≡ err (owned_by 0)
unfolding start_session
start_bob = refl

close_ann :
    close_session ann_state ann_secret ≡ ok (record (init 100) { next_session_id = 0 }, true)
unfolding close_session init remove_session
close_ann = refl

init_room : HasRoom (init 100)
unfolding init
init_room s i h = absurd (ground arith)

ann_room : HasRoom ann_state
ann_room s i h = ground arith

ann_state-IsValid : IsValid ann_state
unfolding init
ann_state-IsValid =
    start_session-IsValid (init 100) "ann" "beam test" (some (3 ∷ 4 ∷ [])) (some ("shutter" ∷ []))
      10 ann_secret none (init-IsValid 100) init_room refl start_ann

abbrev calls : List Call
calls =
    Call.starts "ann" "beam test" (some (3 ∷ 4 ∷ [])) (some ("shutter" ∷ [])) none 10 ann_secret
    ∷ Call.renews ann_secret none 50
    ∷ Call.updates 120
    ∷ []

step-IsValid_example : IsValid (step ann_state (Call.updates 111))
step-IsValid_example = step-IsValid ann_state (Call.updates 111) tt ann_state-IsValid

close_session_known_example :
    (m' : SessionManager) × (close_session ann_state ann_secret ≡ ok (m', true))
    × IsValid m'
    × (lookup ann_secret m'.sessionidmap ≡ none)
    × ((t : ℕ) → lookup t m'.sessionmap ≡ (if 0 == t then none else lookup t ann_state.sessionmap))
    × ((d : ℕ) → lookup d ann_state.devicecachemap ≡ some 0 → lookup d m'.devicecachemap ≡ none)
close_session_known_example = close_session_known ann_state ann_secret 0 ann_state-IsValid refl

update_session_states_example :
    (m' : SessionManager) × (update_session_states ann_state 111 ≡ ok m')
    × IsValid m'
    × ((t : ℕ) → lookup t m'.sessionmap ≡ unexpired 111 (lookup t ann_state.sessionmap))
update_session_states_example = update_session_states_lem ann_state 111 ann_state-IsValid

check_metadata_iff_example : (check_metadata true ann_state true (some ann_secret) 3 ≡ ok true) ↔ (
    (who_owns_device ann_state 3 ≡ ok none)
    ⊎ ((k : List ℕ) × (some ann_secret ≡ some k)
        × (length k ≡ 32)
        × (session_auth_check_device ann_state k 3 ≡ ok true)))
check_metadata_iff_example = check_metadata_iff ann_state ann_state-IsValid (some ann_secret) 3

race_room :
    HasRoom
      (first (init 100) "ann" "bob" "" (1 ∷ []) (1 ∷ 2 ∷ []) none none 5 ann_secret bob_secret)
unfolding init commit_start
race_room s i h = ground arith

start_session_race_example :
    let m =
      first (init 100) "ann" "bob" "" (1 ∷ []) (1 ∷ 2 ∷ []) none none 5 ann_secret bob_secret in
    let n =
      second (init 100) "ann" "bob" "" (1 ∷ []) (1 ∷ 2 ∷ []) none none 5 ann_secret bob_secret in
    (session_auth_check_device n ann_secret 1 ≡ ok true)
    × (session_auth_check_device n bob_secret 1 ≡ ok true)
    × ¬ IsValid n
    × (check_start m (some (1 ∷ 2 ∷ [])) none none 5 ≢ ok tt)
unfolding init check_start
start_session_race_example =
    start_session_race (init 100) "ann" "bob" "" (1 ∷ []) (1 ∷ 2 ∷ []) none none 5 ann_secret
      bob_secret 1 (init-IsValid 100) init_room race_room refl (λ e. ground arith) refl refl refl
      refl

-- Session 0 is still alive when the numbers run out.
abbrev full_state : SessionManager
full_state = record ann_state {
  sessionmap = (0, ann_session) ∷ (65535, record ann_session { internal_session_id = 65535 }) ∷ [];
}
