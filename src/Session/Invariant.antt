-- ===== src/Session/Invariant.antt =====
-- The invariant that ties the four maps of the manager together, and what closing and renewing a
-- session do under it.
use foxtrot.Base.{
  ℕ, ◌≡◌, true, some, String, List, [], ◌∷◌, map, arith, number_eq, text_eq, bytes_eq, contains, ok,
}
use foxtrot.Base.Dict.{lookup, erase, IsDict, erase-IsDict, lookup-erase, erase_all}
use foxtrot.Session.{SessionManager, SessionInfo, Secret, to_u16, init, remove_session}
use foxtrot.Session.Cache.{Agrees, Agrees-remove}
use foxtrot.Session.Secrets.{Keyed, lookup-key_of, key_of_complete, Keyed-remove}

-- The devices of a session, as the cache's keys.
abbrev pub device_keys : SessionInfo → List ℕ
device_keys i = map to_u16 i.devices

abbrev pub flag_keys : SessionInfo → List String
flag_keys i = i.flags

pub record IsValid (m : SessionManager) : Type 0 where
  pub devices_agree : Agrees device_keys m.devicecachemap m.sessionmap
  pub flags_agree : Agrees flag_keys m.flagcachemap m.sessionmap
  pub keyed : Keyed m.sessionidmap m.sessionmap
  pub secrets_dict : IsDict m.sessionidmap
  pub sessions_dict : IsDict m.sessionmap
  pub numbered :
      (s : ℕ) (i : SessionInfo) → lookup s m.sessionmap ≡ some i → i.internal_session_id ≡ s

pub init-IsValid : (n : ℕ) → IsValid (init n)
unfolding init
init-IsValid n = record {
  devices_agree = record { sound = λ d s h. ground arith; complete = λ d s i h k. ground arith };
  flags_agree = record { sound = λ d s h. ground arith; complete = λ d s i h k. ground arith };
  keyed = record {
    known = λ k s h. ground arith;
    has_secret = λ s i h. absurd (ground arith);
    one_secret = λ k j s h g. ground arith;
  };
  secrets_dict = tt;
  sessions_dict = tt;
  numbered = λ s i h. ground arith;
}

pub contains-map :
    (x : ℕ) (xs : List ℕ) → contains x xs ≡ true → contains (to_u16 x) (map to_u16 xs) ≡ true
contains-map x [] h = ground arith
contains-map x (y ∷ xs) h = ground (arith, contains-map x xs)

-- In a valid state no two sessions hold the same device.
pub device_exclusive :
    (m : SessionManager) (s t x : ℕ) (i j : SessionInfo)
    → IsValid m
    → lookup s m.sessionmap ≡ some i
    → lookup t m.sessionmap ≡ some j
    → contains x i.devices ≡ true
    → contains x j.devices ≡ true
    → s ≡ t
device_exclusive m s t x i j v hs ht ci cj = ground (
  arith,
  v.devices_agree.complete (to_u16 x) s i hs (contains-map x i.devices ci),
  v.devices_agree.complete (to_u16 x) t j ht (contains-map x j.devices cj),
)

-- Nor the same flag.
pub flag_exclusive :
    (m : SessionManager) (s t : ℕ) (x : String) (i j : SessionInfo)
    → IsValid m
    → lookup s m.sessionmap ≡ some i
    → lookup t m.sessionmap ≡ some j
    → contains x i.flags ≡ true
    → contains x j.flags ≡ true
    → s ≡ t
flag_exclusive m s t x i j v hs ht ci cj =
    ground (arith, v.flags_agree.complete x s i hs ci, v.flags_agree.complete x t j ht cj)

-- The state that `remove_session` leaves.
abbrev pub removed : SessionManager → ℕ → SessionInfo → Secret → SessionManager
removed m s i k = record m {
  devicecachemap = erase_all (device_keys i) m.devicecachemap;
  flagcachemap = erase_all i.flags m.flagcachemap;
  sessionidmap = erase k m.sessionidmap;
  sessionmap = erase s m.sessionmap;
}

removed-IsValid :
    (m : SessionManager) (s : ℕ) (i : SessionInfo) (k : Secret)
    → IsValid m
    → lookup s m.sessionmap ≡ some i
    → lookup k m.sessionidmap ≡ some s
    → IsValid (removed m s i k)
removed-IsValid m s i k v held key = record {
  devices_agree = Agrees-remove device_keys m.devicecachemap m.sessionmap s i held v.devices_agree;
  flags_agree = Agrees-remove flag_keys m.flagcachemap m.sessionmap s i held v.flags_agree;
  keyed = Keyed-remove m.sessionidmap m.sessionmap k s key v.keyed;
  secrets_dict = erase-IsDict k m.sessionidmap v.secrets_dict;
  sessions_dict = erase-IsDict s m.sessionmap v.sessions_dict;
  numbered = λ t j h. ground (arith, lookup-erase s t m.sessionmap, v.numbered t j);
}

-- In a valid state a session that exists can be removed: nothing throws, no iterator is at the end.
pub remove_session-removed :
    (m : SessionManager) (s : ℕ) (i : SessionInfo)
    → IsValid m
    → lookup s m.sessionmap ≡ some i
    → (k : Secret) × (lookup k m.sessionidmap ≡ some s)
      × (remove_session m s ≡ ok (removed m s i k))
      × IsValid (removed m s i k)
unfolding remove_session
remove_session-removed m s i v held =
    let (k, e) = v.keyed.has_secret s i held in
    let (j, f) = key_of_complete s k m.sessionidmap e in
    let g = lookup-key_of s j m.sessionidmap v.secrets_dict f in
    (j, g, ground arith, removed-IsValid m s i j v held g)
