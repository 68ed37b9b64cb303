-- ===== src/Handles.antt =====
-- The objects that a server keeps for its clients by number: core/src/HandleManager.cpp. `V` is the
-- type of variants, of which `pair` is the one made of a pair: `pop` assigns the item that it finds,
-- a number with its value, to the variant that it returns. The generator's number is an argument.
mod Tests
use foxtrot.Base.{
  ℕ, ◌≡◌, refl, arith, Option, none, some, Result, ok, err, ◌==◌, if◌then◌else◌, number_eq,
}
use foxtrot.Base.Dict.{Dict, lookup, insert, erase, lookup-insert, lookup-erase}
use foxtrot.Rpc.{Exception, out_of_range}

abbrev pub Handles : Type 0 → Type 0
Handles V = Dict ℕ V

module _ {V : Type 0} (pair : ℕ → V → V) where
  unfoldable pub find : Handles V → ℕ → Result Exception V
  find values handle = elim (lookup handle values) [
    | none ↦ err (out_of_range "_Map_base::at")
    | some var ↦ ok var
  ]

  unfoldable pub pop : Handles V → ℕ → Result Exception V × Handles V
  pop values handle = elim (lookup handle values) [
    | none ↦ (err (out_of_range "no such handle found!"), values)
    | some var ↦ (ok (pair handle var), erase handle values)
  ]

  unfoldable pub drop_handle : Handles V → ℕ → Handles V
  drop_handle values handle = erase handle values

  unfoldable pub add : Handles V → V → ℕ → ℕ × Handles V
  add values var newkey = (newkey, insert newkey var values)

  -- After `add` the object is found under the returned handle; `pop` gives it back only inside a pair
  -- with its handle, and takes it away: it is not found after that, and every other handle finds
  -- what it found before.
  pub pop-add :
      (values : Handles V) (var : V) (newkey other : ℕ)
      → let (handle, added) = add values var newkey in
        let (popped, left) = pop added handle in
        (find added handle ≡ ok var)
        × (popped ≡ ok (pair handle var))
        × (find left other
            ≡ (if handle == other then err (out_of_range "_Map_base::at") else find values other))
  unfolding find pop add
  pop-add values var newkey other =
      let added = insert newkey var values in
      ground (
        arith,
        lookup-insert newkey newkey var values,
        lookup-insert newkey other var values,
        lookup-erase newkey other added,
      )
