-- ===== src/Base/Decimal.antt =====
-- Decimal text as lists of bytes: what `operator<<`, `setw` with a fill, and `std::stoi` do.
use Prim.Native.Nat.{ℕ, zero, suc, ◌+◌, ◌-◌, ◌*◌, ◌/◌, ◌%◌, ◌<◌, ◌≤◌}
use mathlib.Core.Path.{◌≡◌, refl}
use mathlib.Core.Logic.{inl, inr}
use mathlib.Core.Bool.{Bool, true, false, ◌&&◌, ◌||◌}
use mathlib.Core.Option.{Option, none, some}
use mathlib.Core.List.{List, [], ◌∷◌, ◌++◌}
use native.Mathlib.Omega.{arith}
use foxtrot.Base.Tests.{Bool-cases, ltb, leb, ◌==◌, if◌then◌else◌}
use foxtrot.Base.Lists.{length}
use foxtrot.Base.Outcome.{Result, ok, err}
use foxtrot.Base.Int.{ℤ, pos, negsuc}

-- One digit in each round, from the last on; a number has fewer digits than its successor counts.
unfoldable pub digits_onto : ℕ → ℕ → List ℕ → List ℕ
digits_onto zero n acc = acc
digits_onto (suc fuel) n acc =
    let rest = digits_onto fuel (n / 10) ((48 + n % 10) ∷ acc) in
    if ltb n 10 then (48 + n) ∷ acc else rest

-- More fuel than the number makes no difference.
digits_onto_fuel :
    (f g n : ℕ) (acc : List ℕ) → n < f → n < g → digits_onto f n acc ≡ digits_onto g n acc
unfolding digits_onto
digits_onto_fuel zero g n acc hf hg = absurd (omega arith)
digits_onto_fuel (suc f) zero n acc hf hg = absurd (omega arith)
digits_onto_fuel (suc f) (suc g) n acc hf hg =
    ground (arith, digits_onto_fuel f g (n / 10) ((48 + n % 10) ∷ acc))

unfoldable pub decimal : ℤ → List ℕ
unfolding digits_onto
decimal (pos n) = digits_onto (suc n) n []
decimal (negsuc n) = b'-' ∷ digits_onto (suc (suc n)) (suc n) []

abbrev pub replicate : ℕ → ℕ → List ℕ
replicate zero c = []
replicate (suc n) c = c ∷ replicate n c

-- Fill on the left up to a width.
unfoldable pub set_width : ℕ → ℕ → List ℕ → List ℕ
set_width width fill s = replicate (width - length s) fill ++ s

pub data StoiError : Type 0 where
  invalid_argument stoi_out_of_range : StoiError

abbrev pub is_digit : ℕ → Bool
is_digit c = leb 48 c && leb c 57

abbrev pub is_space : ℕ → Bool
is_space c = c == 32 || leb 9 c && leb c 13

unfoldable pub skip_spaces : List ℕ → List ℕ
skip_spaces [] = []
skip_spaces (c ∷ cs) = if is_space c then skip_spaces cs else c ∷ cs

-- The digits in front, after those read so far.
unfoldable pub read_on : ℕ → List ℕ → ℕ
read_on n [] = n
read_on n (c ∷ cs) = if is_digit c then read_on (n * 10 + (c - 48)) cs else n

unfoldable pub read_digits : List ℕ → Option ℕ
unfolding read_on
read_digits [] = none
read_digits (c ∷ cs) = if is_digit c then some (read_on (c - 48) cs) else none

abbrev pub to_int : Bool → Option ℕ → Result StoiError ℤ
to_int minus none = err invalid_argument
to_int true (some zero) = ok (pos 0)
to_int true (some (suc n)) = if ltb n 2147483648 then ok (negsuc n) else err stoi_out_of_range
to_int false (some n) = if ltb n 2147483648 then ok (pos n) else err stoi_out_of_range

unfoldable pub signed_digits : List ℕ → Result StoiError ℤ
unfolding read_digits
signed_digits [] = err invalid_argument
signed_digits (c ∷ cs) =
    if c == b'-'
    then to_int true (read_digits cs)
    else if c == b'+'
    then to_int false (read_digits cs)
    else to_int false (read_digits (c ∷ cs))

unfoldable pub stoi : List ℕ → Result StoiError ℤ
unfolding skip_spaces signed_digits
stoi s = signed_digits (skip_spaces s)

-- A test of the `count` numbers from `first` on, by running it on each.
unfoldable pub passes_from : (test : ℕ → Bool) → ℕ → ℕ → Bool
passes_from test first zero = true
passes_from test first (suc count) = passes_from test (first + 1) count && test first

pub passes_from_at :
    (test : ℕ → Bool) (first count n : ℕ)
    → first ≤ n
    → n < first + count
    → passes_from test first count ≡ true
    → test n ≡ true
unfolding passes_from
passes_from_at test first zero n low high passed = absurd (omega arith)
passes_from_at test first (suc count) n low high passed = elim (Bool-cases (first == n)) [
  | inl e ↦ ground arith
  | inr e ↦ ground (arith, passes_from_at test (first + 1) count n)
]

abbrev is_pos : ℕ → Result StoiError ℤ → Bool
is_pos n (ok (pos k)) = k == n
is_pos n _ = false

abbrev three_digits : ℕ → List ℕ → Bool
three_digits n (a ∷ b ∷ c ∷ []) = is_pos n (stoi (a ∷ b ∷ c ∷ []))
three_digits n _ = false

three_table : passes_from (λ n. three_digits n (set_width 3 48 (decimal (pos n)))) 0 1000 ≡ true
unfolding passes_from stoi set_width decimal
three_table = refl

-- A number below 1000 takes three digits under width 3, which read back as the number.
pub set_width-three :
    (n : ℕ)
    → n < 1000
    → (a b c : ℕ) × (set_width 3 48 (decimal (pos n)) ≡ a ∷ b ∷ c ∷ [])
      × (stoi (a ∷ b ∷ c ∷ []) ≡ ok (pos n))
set_width-three n h = from (set_width 3 48 (decimal (pos n))) (
    passes_from_at (λ k. three_digits k (set_width 3 48 (decimal (pos k)))) 0 1000 n (omega arith) h
      three_table)
  where
    from :
        (s : List ℕ)
        → three_digits n s ≡ true
        → (a b c : ℕ) × (s ≡ a ∷ b ∷ c ∷ []) × (stoi (a ∷ b ∷ c ∷ []) ≡ ok (pos n))
    from [] e = absurd (ground arith)
    from (a ∷ []) e = absurd (ground arith)
    from (a ∷ b ∷ []) e = absurd (ground arith)
    from (a ∷ b ∷ c ∷ []) e = (a, b, c, refl, ground arith)
    from (a ∷ b ∷ c ∷ d ∷ s) e = absurd (ground arith)

abbrev two_digits : ℕ → List ℕ → Bool
two_digits n (a ∷ b ∷ []) = is_pos n (stoi (a ∷ b ∷ []))
two_digits n _ = false

two_table : passes_from (λ n. two_digits n (set_width 2 48 (decimal (pos n)))) 0 100 ≡ true
unfolding passes_from stoi set_width decimal
two_table = refl

-- A number below 100 takes two digits under width 2, which read back as the number.
pub set_width-two :
    (n : ℕ)
    → n < 100
    → (a b : ℕ) × (set_width 2 48 (decimal (pos n)) ≡ a ∷ b ∷ []) × (stoi (a ∷ b ∷ []) ≡ ok (pos n))
set_width-two n h = from (set_width 2 48 (decimal (pos n))) (
    passes_from_at (λ k. two_digits k (set_width 2 48 (decimal (pos k)))) 0 100 n (omega arith) h
      two_table)
  where
    from :
        (s : List ℕ)
        → two_digits n s ≡ true
        → (a b : ℕ) × (s ≡ a ∷ b ∷ []) × (stoi (a ∷ b ∷ []) ≡ ok (pos n))
    from [] e = absurd (ground arith)
    from (a ∷ []) e = absurd (ground arith)
    from (a ∷ b ∷ []) e = (a, b, refl, ground arith)
    from (a ∷ b ∷ c ∷ s) e = absurd (ground arith)
