-- ===== src/Session/Cache.antt =====
-- `_devicecachemap` and `_flagcachemap`: a cache from the items that sessions hold to the session
-- that holds each, against the map of sessions.
use foxtrot.Base.{ℕ, ◌≡◌, true, none, some, List, arith, Eq, number_eq, contains}
use foxtrot.Base.Dict.{
  Dict, lookup, insert, erase, insert_all, erase_all, lookup-insert, lookup-erase,
  lookup-insert_all, lookup-erase_all,
}

module _ {K S : Type 0} ⦃e : Eq K⦄ (items : S → List K) where
  -- The cache names exactly the holders.
  pub record Agrees (cache : Dict K ℕ) (sessions : Dict ℕ S) : Type 0 where
    pub sound :
        (d : K) (s : ℕ)
        → lookup d cache ≡ some s
        → (i : S) × (lookup s sessions ≡ some i) × (contains d (items i) ≡ true)
    pub complete :
        (d : K) (s : ℕ) (i : S)
        → lookup s sessions ≡ some i
        → contains d (items i) ≡ true
        → lookup d cache ≡ some s

  -- A new session takes items that nobody holds.
  pub Agrees-start :
      (cache : Dict K ℕ) (sessions : Dict ℕ S) (s : ℕ) (i : S)
      → lookup s sessions ≡ none
      → ((d : K) → contains d (items i) ≡ true → lookup d cache ≡ none)
      → Agrees cache sessions
      → Agrees (insert_all (items i) s cache) (insert s i sessions)
  Agrees-start cache sessions s i new free a = record {
    sound = λ d t h.
        ground
          (arith, lookup-insert_all (items i) d s cache, lookup-insert s t i sessions, a.sound d t);
    complete = λ d t j h k. ground (
      arith,
      lookup-insert_all (items i) d s cache,
      lookup-insert s t i sessions,
      a.complete d t j,
      free d,
    );
  }

  -- A session that goes gives back what it held.
  pub Agrees-remove :
      (cache : Dict K ℕ) (sessions : Dict ℕ S) (s : ℕ) (i : S)
      → lookup s sessions ≡ some i
      → Agrees cache sessions
      → Agrees (erase_all (items i) cache) (erase s sessions)
  Agrees-remove cache sessions s i held a = record {
    sound = λ d t h.
        ground (arith, lookup-erase_all (items i) d cache, lookup-erase s t sessions, a.sound d t);
    complete = λ d t j h k. ground (
      arith,
      lookup-erase_all (items i) d cache,
      lookup-erase s t sessions,
      a.complete d t j,
      a.complete d s i held,
    );
  }

  -- A session that changes what is no item keeps the cache right.
  pub Agrees-update :
      (cache : Dict K ℕ) (sessions : Dict ℕ S) (s : ℕ) (i j : S)
      → lookup s sessions ≡ some i
      → items j ≡ items i
      → Agrees cache sessions
      → Agrees cache (insert s j sessions)
  Agrees-update cache sessions s i j held same a = record {
    sound = λ d t h. ground (arith, lookup-insert s t j sessions, a.sound d t h);
    complete = λ d t k h c.
        ground (arith, lookup-insert s t j sessions, a.complete d t k, a.complete d s i held);
  }
