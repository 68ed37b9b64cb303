-- ===== src/Base/Equality.antt =====
-- Decidable equality as an instance, and membership by it (`std::find`).
use Prim.Native.Nat.{ℕ}
use Prim.Native.String.{String}
use mathlib.Core.Path.{◌≡◌, refl}
use mathlib.Core.Logic.{◌↔◌}
use mathlib.Core.Bool.{Bool, true, false, ◌&&◌, ◌||◌}
use mathlib.Core.List.{List, [], ◌∷◌}
use native.Mathlib.Omega.{arith}
use text.Mathlib.Text
use text.Mathlib.TextEquality.{eq_iff}
use foxtrot.Base.Tests.{◌==◌, ==_iff}

-- A key type with a sound and complete test for equality.
pub record Eq (K : Type 0) : Type 0 where
  pub same : K → K → Bool
  pub same_iff : (j k : K) → (same j k ≡ true) ↔ (j ≡ k)

-- Byte strings, and other lists of numbers.
abbrev pub same_bytes : List ℕ → List ℕ → Bool
same_bytes [] [] = true
same_bytes (x ∷ xs) (y ∷ ys) = x == y && same_bytes xs ys
same_bytes _ _ = false

pub same_bytes_iff : (xs ys : List ℕ) → (same_bytes xs ys ≡ true) ↔ (xs ≡ ys)
same_bytes_iff [] [] = ground arith
same_bytes_iff [] (y ∷ ys) = ground arith
same_bytes_iff (x ∷ xs) [] = ground arith
same_bytes_iff (x ∷ xs) (y ∷ ys) = ground (arith, same_bytes_iff xs ys)

instance abbrev pub bytes_eq : Eq (List ℕ)
bytes_eq = record { same = same_bytes; same_iff = same_bytes_iff }

instance abbrev pub text_eq : Eq String
text_eq = record { same = Text.◌==◌; same_iff = eq_iff }

instance abbrev pub number_eq : Eq ℕ
number_eq = record { same = ◌==◌; same_iff = ==_iff }

module _ {K : Type 0} ⦃e : Eq K⦄ where
  abbrev pub contains : K → List K → Bool
  contains k [] = false
  contains k (j ∷ js) = e.same j k || contains k js

  pub same_refl : (k : K) → e.same k k ≡ true
  same_refl k = (e.same_iff k k).1 refl
