-- ===== src/Session/Secrets.antt =====
-- `_sessionidmap`, from the secrets to the sessions: each session has one secret.
use foxtrot.Base.{
  ℕ, ◌≡◌, none, some, [], ◌∷◌, arith, ◌==◌, number_eq, bytes_eq, same_bytes_iff, Bool-cases, inl,
  inr,
}
use foxtrot.Base.Dict.{Dict, lookup, insert, erase, lookup-insert, lookup-erase, IsDict}
use foxtrot.Session.{Secret, key_of}

pub record Keyed {S : Type 0} (ids : Dict Secret ℕ) (sessions : Dict ℕ S) : Type 0 where
  pub known : (k : Secret) (s : ℕ) → lookup k ids ≡ some s → (i : S) × (lookup s sessions ≡ some i)
  pub has_secret :
      (s : ℕ) (i : S) → lookup s sessions ≡ some i → (k : Secret) × (lookup k ids ≡ some s)
  pub one_secret : (k j : Secret) (s : ℕ) → lookup k ids ≡ some s → lookup j ids ≡ some s → k ≡ j

-- `find_if` by value finds a key of the value.
pub lookup-key_of :
    (s : ℕ) (k : Secret) (ids : Dict Secret ℕ)
    → IsDict ids
    → key_of s ids ≡ some k
    → lookup k ids ≡ some s
lookup-key_of s k [] u h = ground arith
lookup-key_of s k ((j, t) ∷ ids) u h = ground (arith, same_bytes_iff j k, lookup-key_of s k ids u.1)

-- And it finds one if there is one.
pub key_of_complete :
    (s : ℕ) (k : Secret) (ids : Dict Secret ℕ)
    → lookup k ids ≡ some s
    → (j : Secret) × (key_of s ids ≡ some j)
key_of_complete s k [] h = ground arith
key_of_complete s k ((j, t) ∷ ids) h = elim (Bool-cases (t == s)) [
  | inl hit ↦ (j, rw hit)
  | inr miss ↦ rw miss (key_of_complete s k ids (ground arith))
]

module _ {S : Type 0} (ids : Dict Secret ℕ) (sessions : Dict ℕ S) where
  pub Keyed-start :
      (k : Secret) (s : ℕ) (i : S)
      → lookup s sessions ≡ none
      → lookup k ids ≡ none
      → Keyed ids sessions
      → Keyed (insert k s ids) (insert s i sessions)
  Keyed-start k s i new fresh a = record {
    known =
        λ j t h. ground (arith, lookup-insert k j s ids, lookup-insert s t i sessions, a.known j t);
    has_secret = λ t j h. elim (Bool-cases (s == t)) [
      | inl hit ↦ (k, ground (arith, lookup-insert k k s ids, same_bytes_iff k k))
      | inr miss ↦
          let (l, e) = a.has_secret t j (ground (arith, lookup-insert s t i sessions)) in
          (l, ground (arith, lookup-insert k l s ids, same_bytes_iff k l))
    ];
    one_secret = λ j l t h g. ground (
      arith,
      lookup-insert k j s ids,
      lookup-insert k l s ids,
      same_bytes_iff k j,
      same_bytes_iff k l,
      a.known j t,
      a.known l t,
      a.one_secret j l t,
    );
  }

  pub Keyed-remove :
      (k : Secret) (s : ℕ)
      → lookup k ids ≡ some s
      → Keyed ids sessions
      → Keyed (erase k ids) (erase s sessions)
  Keyed-remove k s held a = record {
    known = λ j t h. ground (
      arith,
      lookup-erase k j ids,
      lookup-erase s t sessions,
      same_bytes_iff k j,
      a.known j t,
      a.one_secret k j t,
    );
    has_secret = λ t j h.
        let (l, e) = a.has_secret t j (ground (arith, lookup-erase s t sessions)) in
        (l, ground (arith, lookup-erase k l ids, lookup-erase s t sessions, same_bytes_iff k l));
    one_secret =
        λ j l t h g. ground (arith, lookup-erase k j ids, lookup-erase k l ids, a.one_secret j l t);
  }

  pub Keyed-update :
      (s : ℕ) (i j : S)
      → lookup s sessions ≡ some i
      → Keyed ids sessions
      → Keyed ids (insert s j sessions)
  Keyed-update s i j held a = record {
    known = λ k t h. ground (arith, lookup-insert s t j sessions, a.known k t h);
    has_secret = λ t l h.
        ground (arith, lookup-insert s t j sessions, a.has_secret t l, a.has_secret s i held);
    one_secret = a.one_secret;
  }
