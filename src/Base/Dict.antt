-- ===== src/Base/Dict.antt =====
-- `std::map` and `std::unordered_map` as association lists. A key that is absent is inserted in
-- front; `erase` removes a key wherever it stands.
use mathlib.Core.Path.{◌≡◌, refl}
use mathlib.Core.Option.{Option, none, some}
use mathlib.Core.List.{List, [], ◌∷◌}
use native.Mathlib.Omega.{arith}
use foxtrot.Base.Tests.{if◌then◌else◌}
use foxtrot.Base.Equality.{Eq, contains, same_refl}

abbrev pub Dict : Type 0 → Type 0 → Type 0
Dict K V = List (K × V)

module _ {K V : Type 0} ⦃e : Eq K⦄ where
  -- `find`
  abbrev pub lookup : K → Dict K V → Option V
  lookup k [] = none
  lookup k ((j, v) ∷ m) = if e.same j k then some v else lookup k m

  -- `m[k] = v`
  abbrev pub insert : K → V → Dict K V → Dict K V
  insert k v [] = (k, v) ∷ []
  insert k v ((j, w) ∷ m) = if e.same j k then (k, v) ∷ m else (j, w) ∷ insert k v m

  abbrev pub erase : K → Dict K V → Dict K V
  erase k [] = []
  erase k ((j, w) ∷ m) = if e.same j k then erase k m else (j, w) ∷ erase k m

  -- No key stands twice.
  abbrev pub IsDict : Dict K V → Type 0
  IsDict [] = Unit
  IsDict ((k, v) ∷ m) = (lookup k m ≡ none) × IsDict m

  pub lookup-insert :
      (k j : K) (v : V) (m : Dict K V)
      → lookup j (insert k v m) ≡ (if e.same k j then some v else lookup j m)
  lookup-insert k j v [] = refl
  lookup-insert k j v ((i, w) ∷ m) =
      ground (arith, e.same_iff k j, e.same_iff i k, e.same_iff i j, lookup-insert k j v m)

  pub lookup-erase :
      (k j : K) (m : Dict K V) → lookup j (erase k m) ≡ (if e.same k j then none else lookup j m)
  lookup-erase k j [] = ground arith
  lookup-erase k j ((i, w) ∷ m) =
      ground (arith, e.same_iff k j, e.same_iff i k, e.same_iff i j, lookup-erase k j m)

  pub insert-IsDict : (k : K) (v : V) (m : Dict K V) → IsDict m → IsDict (insert k v m)
  insert-IsDict k v [] h = (refl, tt)
  insert-IsDict k v ((i, w) ∷ m) h =
      ground (arith, e.same_iff i k, e.same_iff k i, lookup-insert k i v m, insert-IsDict k v m h.1)

  pub erase-IsDict : (k : K) (m : Dict K V) → IsDict m → IsDict (erase k m)
  erase-IsDict k [] h = tt
  erase-IsDict k ((i, w) ∷ m) h =
      ground (arith, e.same_iff i k, e.same_iff k i, lookup-erase k i m, erase-IsDict k m h.1)

  -- `for(auto& k : ks) m[k] = v;` and `for(auto& k : ks) m.erase(k);`
  abbrev pub insert_all : List K → V → Dict K V → Dict K V
  insert_all [] v m = m
  insert_all (k ∷ ks) v m = insert_all ks v (insert k v m)

  abbrev pub erase_all : List K → Dict K V → Dict K V
  erase_all [] m = m
  erase_all (k ∷ ks) m = erase_all ks (erase k m)

  pub lookup-insert_all :
      (ks : List K) (j : K) (v : V) (m : Dict K V)
      → lookup j (insert_all ks v m) ≡ (if contains j ks then some v else lookup j m)
  lookup-insert_all [] j v m = refl
  lookup-insert_all (k ∷ ks) j v m =
      ground (arith, lookup-insert_all ks j v (insert k v m), lookup-insert k j v m)

  pub lookup-erase_all :
      (ks : List K) (j : K) (m : Dict K V)
      → lookup j (erase_all ks m) ≡ (if contains j ks then none else lookup j m)
  lookup-erase_all [] j m = refl
  lookup-erase_all (k ∷ ks) j m =
      ground (arith, lookup-erase_all ks j (erase k m), lookup-erase k j m)

  pub lookup-insert_self : (k : K) (v : V) (m : Dict K V) → lookup k (insert k v m) ≡ some v
  lookup-insert_self k v m = rw (lookup-insert k k v m, same_refl k)

  pub lookup-erase_self : (k : K) (m : Dict K V) → lookup k (erase k m) ≡ none
  lookup-erase_self k m = rw (lookup-erase k k m, same_refl k)

  -- Writing what is there already.
  pub insert-lookup : (k : K) (v : V) (m : Dict K V) → lookup k m ≡ some v → insert k v m ≡ m
  insert-lookup k v [] h = absurd cc
  insert-lookup k v ((i, w) ∷ m) h = ground (arith, e.same_iff i k, insert-lookup k v m)
