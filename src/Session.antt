-- ===== src/Session.antt =====
-- The user sessions of the server: server/src/SessionManager.cpp and
-- server/include/foxtrot/server/SessionManager.hh.
--
-- A method takes the manager and returns the new one, or throws. What `system_clock::now()` returns
-- and what `randombytes_buf` fills in are arguments; times count ticks. An `unsigned short` is a
-- number below `u16_mod`, and what the code narrows to one goes through `to_u16`. A secret is the
-- list of its bytes.
pub mod Cache
pub mod Secrets
pub mod Invariant
pub mod Start
pub mod Conflict
pub mod Expiry
pub mod Race
pub mod Wrap
pub mod History
pub mod Access
mod Tests
use foxtrot.Base.{
  ℕ, ◌+◌, ◌%◌, String, Bool, true, false, not, Option, none, some, List, [], ◌∷◌, map, Result, ok,
  err, ◌>>=◌, ◌>>◌, throw_if, ltb, ◌==◌, if◌then◌else◌, Eq, number_eq, text_eq, bytes_eq, contains,
}
use foxtrot.Base.Dict.{Dict, lookup, insert, erase, insert_all, erase_all}

abbrev pub u16_mod : ℕ
u16_mod = 65536

abbrev pub to_u16 : ℕ → ℕ
to_u16 n = n % 65536

abbrev pub Secret : Type 0
Secret = List ℕ

pub record SessionInfo : Type 0 where
  pub internal_session_id : ℕ
  pub user_identifier : String
  pub comment : String
  pub devices : List ℕ
  pub flags : List String
  pub expiry : ℕ

pub record SessionManager : Type 0 where
  pub sessionmap : Dict ℕ SessionInfo
  pub sessionidmap : Dict Secret ℕ
  pub devicecachemap : Dict ℕ ℕ
  pub flagcachemap : Dict String ℕ
  pub next_session_id : ℕ
  pub session_length : ℕ

-- `missing` is what `at` throws, `owned_by` the thrown id of the owner, `erase_end` the undefined
-- `erase(end())`.
pub data Error : Type 0 where
  missing invalid_secret too_long in_past erase_end : Error
  owned_by : ℕ → Error

abbrev pub at : {V : Type 0} → ℕ → Dict ℕ V → Result Error V
at k m = elim (lookup k m) [ none ↦ err missing | some v ↦ ok v ]

pub init : ℕ → SessionManager
init session_length = record {
  sessionmap = [];
  sessionidmap = [];
  devicecachemap = [];
  flagcachemap = [];
  next_session_id = 0;
  session_length = session_length;
}

-- `find_in_cache`: a null pointer is `none`.
pub find_in_cache :
    {K : Type 0} ⦃e : Eq K⦄ → SessionManager → Dict K ℕ → K → Result Error (Option SessionInfo)
find_in_cache m cache val = elim (lookup val cache) [
  | none ↦ ok none
  | some id ↦ at id m.sessionmap >>= λ info. ok (some info)
]

-- The key of `_devicecachemap` is an `unsigned short`.
pub who_owns_device : SessionManager → ℕ → Result Error (Option SessionInfo)
unfolding find_in_cache
who_owns_device m devid = find_in_cache m m.devicecachemap (to_u16 devid)

pub who_owns_flag : SessionManager → String → Result Error (Option SessionInfo)
unfolding find_in_cache
who_owns_flag m flagname = find_in_cache m m.flagcachemap flagname

-- `get_session_info`, by the secret and by the number.
pub get_session_info : SessionManager → Secret → Result Error SessionInfo
get_session_info m secret = elim (lookup secret m.sessionidmap) [
  | none ↦ err invalid_secret
  | some id ↦ at id m.sessionmap
]

pub get_session_info_by_id : SessionManager → ℕ → Result Error SessionInfo
get_session_info_by_id m id = at id m.sessionmap

-- The loop of `check_requested_items`.
pub check_items :
    {A : Type 0} → (A → Result Error (Option SessionInfo)) → List A → Result Error (Unit {0})
check_items checkfun [] = ok tt
check_items checkfun (item ∷ items) =
    let rest = check_items checkfun items in
    elim (checkfun item) [
      | err e ↦ err e
      | ok none ↦ rest
      | ok (some info) ↦ err (owned_by info.internal_session_id)
    ]

-- A null pointer requests nothing.
abbrev pub requested : {A : Type 0} → Option (List A) → List A
requested none = []
requested (some xs) = xs

pub check_requested_expiry : SessionManager → ℕ → ℕ → Result Error (Unit {0})
check_requested_expiry m now tm =
    if ltb (now + m.session_length) tm
    then err too_long
    else if ltb tm now
    then err in_past
    else ok tt

abbrev pub check_optional_expiry : SessionManager → ℕ → Option ℕ → Result Error (Unit {0})
check_optional_expiry m now none = ok tt
check_optional_expiry m now (some tm) = check_requested_expiry m now tm

-- What `start_session` does before it takes the lock.
pub check_start :
    SessionManager → Option (List ℕ) → Option (List String) → Option ℕ → ℕ → Result Error (Unit {0})
unfolding who_owns_device who_owns_flag check_items check_requested_expiry
check_start m devices flags requested_expiry now = do
  check_items (who_owns_device m) (requested devices)
  check_items (who_owns_flag m) (requested flags)
  check_optional_expiry m now requested_expiry

-- The largest key, `max_element` of a map that is not empty.
abbrev pub max_key : {V : Type 0} → ℕ → Dict ℕ V → ℕ
max_key best [] = best
max_key best ((k, _) ∷ m) = max_key (if ltb best k then k else best) m

pub fresh_id : SessionManager → ℕ
fresh_id m = elim m.sessionmap [
  | [] ↦ m.next_session_id
  | (k, _) ∷ rest ↦ to_u16 (max_key k rest + 1)
]

-- `newsession`. The requested expiry does not enter it.
abbrev pub new_session :
    ℕ → String → String → Option (List ℕ) → Option (List String) → ℕ → SessionInfo
new_session id username comment devices flags expiry = record {
  internal_session_id = id;
  user_identifier = username;
  comment = comment;
  devices = requested devices;
  flags = requested flags;
  expiry = expiry;
}

-- What `start_session` does under the lock: `secret` is what `generate_session_id` returns.
pub commit_start :
    SessionManager
    → String
    → String
    → Option (List ℕ)
    → Option (List String)
    → ℕ
    → Secret
    → SessionManager × Secret × ℕ
unfolding fresh_id
commit_start m username comment devices flags now secret =
    let id = fresh_id m in
    (
      record {
        sessionmap =
            insert id (new_session id username comment devices flags (now + m.session_length))
              m.sessionmap;
        sessionidmap = insert secret id m.sessionidmap;
        devicecachemap = insert_all (map to_u16 (requested devices)) id m.devicecachemap;
        flagcachemap = insert_all (requested flags) id m.flagcachemap;
        next_session_id = id;
        session_length = m.session_length;
      },
      secret,
      id,
    )

pub start_session :
    SessionManager
    → String
    → String
    → Option (List ℕ)
    → Option (List String)
    → Option ℕ
    → ℕ
    → Secret
    → Result Error (SessionManager × Secret × ℕ)
unfolding check_start commit_start
start_session m username comment devices flags requested_expiry now secret = do
  check_start m devices flags requested_expiry now
  ok (commit_start m username comment devices flags now secret)

-- `find_if` by the value.
abbrev pub key_of : ℕ → Dict Secret ℕ → Option Secret
key_of id [] = none
key_of id ((k, v) ∷ m) = if v == id then some k else key_of id m

pub remove_session : SessionManager → ℕ → Result Error SessionManager
remove_session m sesid = do
  info ← at sesid m.sessionmap
  elim (key_of sesid m.sessionidmap) [
    | none ↦ err erase_end
    | some secret ↦ ok (record m {
      devicecachemap = erase_all (map to_u16 info.devices) m.devicecachemap;
      flagcachemap = erase_all info.flags m.flagcachemap;
      sessionidmap = erase secret m.sessionidmap;
      sessionmap = erase sesid m.sessionmap;
    })
  ]

pub close_session : SessionManager → Secret → Result Error (SessionManager × Bool)
close_session m secret = elim (lookup secret m.sessionidmap) [
  | none ↦ ok (m, false)
  | some id ↦ remove_session m id >>= λ m'. ok (m', true)
]

-- The assignment to `sesinfo.expiry`, in place.
abbrev pub set_expiry : SessionManager → ℕ → SessionInfo → ℕ → SessionManager
set_expiry m id info t = record m {
  sessionmap = insert id (record info { expiry = t }) m.sessionmap;
}

pub renew_session : SessionManager → Secret → Option ℕ → ℕ → Result Error (SessionManager × Bool)
renew_session m secret requested_expiry now = elim (lookup secret m.sessionidmap) [
  | none ↦ ok (m, false)
  | some id ↦ at id m.sessionmap >>= λ info. elim requested_expiry [
    | some tm ↦ check_requested_expiry m now tm >> ok (set_expiry m id info tm, true)
    | none ↦ ok (set_expiry m id info (now + m.session_length), true)
  ]
]

-- `auth_check`: is `val` among the items of the secret's session?
pub auth_check :
    {A : Type 0} ⦃e : Eq A⦄
    → SessionManager
    → Secret
    → (SessionInfo → List A)
    → A
    → Result Error Bool
auth_check m secret valmap_get val = elim (lookup secret m.sessionidmap) [
  | none ↦ ok false
  | some id ↦ at id m.sessionmap >>= λ info. ok (contains val (valmap_get info))
]

pub session_auth_check_device : SessionManager → Secret → ℕ → Result Error Bool
unfolding auth_check
session_auth_check_device m secret devid = auth_check m secret (λ info. info.devices) devid

pub session_auth_check_flag : SessionManager → Secret → String → Result Error Bool
unfolding auth_check
session_auth_check_flag m secret flagname = auth_check m secret (λ info. info.flags) flagname

-- The ids that `update_session_states` queues for removal.
abbrev pub expired_ids : ℕ → Dict ℕ SessionInfo → List ℕ
expired_ids now [] = []
expired_ids now ((id, info) ∷ m) =
    if ltb info.expiry now then id ∷ expired_ids now m else expired_ids now m

pub remove_sessions : SessionManager → List ℕ → Result Error SessionManager
remove_sessions m [] = ok m
remove_sessions m (id ∷ ids) = remove_session m id >>= λ m'. remove_sessions m' ids

pub update_session_states : SessionManager → ℕ → Result Error SessionManager
unfolding remove_sessions
update_session_states m now = remove_sessions m (expired_ids now m.sessionmap)

-- The earliest expiry, `min_element` of a map that is not empty.
abbrev pub min_expiry : ℕ → Dict ℕ SessionInfo → ℕ
min_expiry best [] = best
min_expiry best ((_, info) ∷ m) = min_expiry (if ltb info.expiry best then info.expiry else best) m

-- One round of the update thread. `now` is read before the wait, and `woken` is the time at which
-- `update_session_states` reads the clock. The result says whether there was a session.
pub update_at_next_expiry : SessionManager → ℕ → ℕ → Result Error (SessionManager × Bool)
update_at_next_expiry m now woken = elim m.sessionmap [
  | [] ↦ ok (m, false)
  | (_, info) ∷ rest ↦
      if ltb (min_expiry info.expiry rest) now
      then (update_session_states m now >>= λ m'. ok (m', true))
      else (update_session_states m woken >>= λ m'. ok (m', true))
]
