-- ===== src/Base/Outcome.antt =====
-- A value or a thrown error, with the notation of `do` blocks.
use mathlib.Core.Bool.{Bool, true, false}

pub data Result (E A : Type 0) : Type 0 where
  err : E → Result E A
  ok : A → Result E A

module _ {E : Type 0} where
  infixl 5 ◌>>=◌
  abbrev pub ◌>>=◌ : {A B : Type 0} → Result E A → (A → Result E B) → Result E B
  r >>= next = elim r [ err e ↦ err e | ok a ↦ next a ]

  infixl 5 ◌>>◌
  abbrev pub ◌>>◌ : {B : Type 0} → Result E (Unit {0}) → Result E B → Result E B
  r >> next = elim r [ err e ↦ err e | ok _ ↦ next ]

  -- `if(test) throw error;`
  abbrev pub throw_if : Bool → E → Result E (Unit {0})
  throw_if test e = elim test [ false ↦ ok tt | true ↦ err e ]
