-- ===== src/Base/Numerals.antt =====
-- Numbers that were printed are read back: `operator<<` and `std::to_string` against `std::stoi` and
-- `std::stoul`.
use Prim.Native.Nat.{◌*◌, ◌≤◌, ℕ, zero, suc, ◌+◌, ◌/◌, ◌%◌, ◌^◌, ◌<◌}
use mathlib.Core.Path.{◌≡◌, refl, ◌∙◌, ap, subst, sym}
use mathlib.Core.Logic.{inl, inr}
use mathlib.Core.Bool.{true, false}
use mathlib.Core.List.{[], ◌∷◌}
use mathlib.Core.Option.{some}
use native.Mathlib.Omega.{arith}
use foxtrot.Base.Tests.{ltb, Bool-cases}
use foxtrot.Base.Lists.{All, length}
use foxtrot.Base.Int.{ℤ, pos, negsuc}
use foxtrot.Base.Decimal.{
  digits_onto, decimal, read_on, read_digits, signed_digits, to_int, skip_spaces, stoi, is_digit,
}
use foxtrot.Base.Texts.{Text, read_base, unsigned_digits, skip_prefix, after_sign, stoul}
use foxtrot.Base.Outcome.{ok}

read_on-digits_onto :
    (f n : ℕ) (acc : Text) → n < f → read_on 0 (digits_onto f n acc) ≡ read_on n acc
unfolding digits_onto read_on
read_on-digits_onto zero n acc h = absurd (omega arith)
read_on-digits_onto (suc f) n acc h =
    ground (arith, read_on-digits_onto f (n / 10) ((48 + n % 10) ∷ acc))

read_base-digits_onto :
    (f n : ℕ) (acc : Text) → n < f → read_base 10 0 (digits_onto f n acc) ≡ read_base 10 n acc
unfolding digits_onto read_base
read_base-digits_onto zero n acc h = absurd (omega arith)
read_base-digits_onto (suc f) n acc h =
    ground (arith, read_base-digits_onto f (n / 10) ((48 + n % 10) ∷ acc))

abbrev pub AreDigits : Text → Type 0
AreDigits = All (λ c. is_digit c ≡ true)

digits_onto-AreDigits :
    (f n : ℕ) (acc : Text) → n < f → AreDigits acc → AreDigits (digits_onto f n acc)
unfolding digits_onto
digits_onto-AreDigits zero n acc h a = absurd (omega arith)
digits_onto-AreDigits (suc f) n acc h a =
    ground (arith, digits_onto-AreDigits f (n / 10) ((48 + n % 10) ∷ acc))

-- There is a first digit.
digits_onto-cons :
    (f n : ℕ) (acc : Text) → n < f → (c : ℕ) × (cs : Text) × (digits_onto f n acc ≡ c ∷ cs)
unfolding digits_onto
digits_onto-cons zero n acc h = absurd (omega arith)
digits_onto-cons (suc f) n acc h = elim (Bool-cases (ltb n 10)) [
  | inl e ↦ (48 + n, acc, rw e)
  | inr e ↦ rw e (digits_onto-cons f (n / 10) ((48 + n % 10) ∷ acc) (ground arith))
]

pub decimal-cons :
    (n : ℕ)
    → (c : ℕ) × (cs : Text) × (decimal (pos n) ≡ c ∷ cs) × (is_digit c ≡ true) × AreDigits cs
unfolding decimal
decimal-cons n =
    let (c, cs, e) = digits_onto-cons (suc n) n [] (omega arith) in
    let h : AreDigits (c ∷ cs) =
      subst AreDigits e (digits_onto-AreDigits (suc n) n [] (omega arith) tt) in
    (c, cs, e, h.0, h.1)

pub read_digits-decimal : (n : ℕ) → read_digits (decimal (pos n)) ≡ some n
unfolding decimal read_digits read_on
read_digits-decimal n =
    let (c, cs, e) = digits_onto-cons (suc n) n [] (omega arith) in
    ground (arith, e, read_on-digits_onto (suc n) n [], decimal-cons n)

skip_prefix_ten : (cs : Text) → skip_prefix 10 cs ≡ cs
skip_prefix_ten [] = refl
skip_prefix_ten (z ∷ []) = refl
skip_prefix_ten (z ∷ x ∷ []) = refl
skip_prefix_ten (z ∷ x ∷ d ∷ cs) = refl

skip_spaces_digit : (c : ℕ) (cs : Text) → is_digit c ≡ true → skip_spaces (c ∷ cs) ≡ c ∷ cs
unfolding skip_spaces
skip_spaces_digit c cs digit = ground arith

after_sign_digit :
    (c : ℕ) (cs : Text)
    → is_digit c ≡ true
    → read_base 10 0 (c ∷ cs) < 2 ^ 64
    → after_sign 10 (c ∷ cs) ≡ ok (read_base 10 0 (c ∷ cs))
unfolding unsigned_digits
after_sign_digit c cs digit h = ground (arith, skip_prefix_ten (c ∷ cs))

signed_digits_digit :
    (c : ℕ) (cs : Text)
    → is_digit c ≡ true
    → signed_digits (c ∷ cs) ≡ to_int false (read_digits (c ∷ cs))
unfolding signed_digits
signed_digits_digit c cs digit = ground arith

read_base-decimal : (n : ℕ) → read_base 10 0 (decimal (pos n)) ≡ n
unfolding decimal read_base
read_base-decimal n = read_base-digits_onto (suc n) n [] (omega arith)

pub stoul-decimal : (n : ℕ) → n < 2 ^ 64 → stoul 10 (decimal (pos n)) ≡ ok n
unfolding stoul
stoul-decimal n h =
    let (c, cs, e, digit, digits) = decimal-cons n in
    let value : read_base 10 0 (c ∷ cs) ≡ n = ap (read_base 10 0) (sym e) ∙ read_base-decimal n in
    ap (λ t. after_sign 10 (skip_spaces t)) e
    ∙ ap (after_sign 10) (skip_spaces_digit c cs digit)
    ∙ after_sign_digit c cs digit (subst (λ k. k < 2 ^ 64) (sym value) h)
    ∙ ap ok value

pub stoi-decimal_pos : (n : ℕ) → n < 2147483648 → stoi (decimal (pos n)) ≡ ok (pos n)
unfolding stoi
stoi-decimal_pos n h =
    let (c, cs, e, digit, digits) = decimal-cons n in
    ap (λ t. signed_digits (skip_spaces t)) e
    ∙ ap signed_digits (skip_spaces_digit c cs digit)
    ∙ signed_digits_digit c cs digit
    ∙ ap (λ t. to_int false (read_digits t)) (sym e)
    ∙ ground (arith, read_digits-decimal n)

-- The range of `int`.
abbrev pub IsInt : ℤ → Type 0
IsInt (pos n) = n < 2147483648
IsInt (negsuc n) = n < 2147483648

pub decimal_negsuc : (n : ℕ) → decimal (negsuc n) ≡ b'-' ∷ decimal (pos (suc n))
unfolding decimal
decimal_negsuc n = refl

pub stoi-decimal : (n : ℤ) → IsInt n → stoi (decimal n) ≡ ok n
unfolding stoi
stoi-decimal (pos n) h = stoi-decimal_pos n h
stoi-decimal (negsuc n) h =
    ap (λ t. signed_digits (skip_spaces t)) (decimal_negsuc n)
    ∙ unfold signed_digits skip_spaces in ground (arith, read_digits-decimal (suc n))

pub decimal-AreDigits : (n : ℕ) → AreDigits (decimal (pos n))
decimal-AreDigits n =
    let (c, cs, e, digit, digits) = decimal-cons n in subst AreDigits (sym e) (digit, digits)

abbrev pow10 : ℕ → ℕ
pow10 zero = 1
pow10 (suc k) = 10 * pow10 k

digits_onto-length :
    (k f n : ℕ) (acc : Text)
    → n < f
    → n < pow10 (suc k)
    → length (digits_onto f n acc) ≤ length acc + suc k
unfolding digits_onto
digits_onto-length k zero n acc h small = absurd (omega arith)
digits_onto-length zero (suc f) n acc h small = ground arith
digits_onto-length (suc k) (suc f) n acc h small =
    ground (arith, digits_onto-length k f (n / 10) ((48 + n % 10) ∷ acc))

-- A number of 32 bits takes ten digits at most.
pub decimal-length : (n : ℕ) → n < 10000000000 → length (decimal (pos n)) ≤ 10
unfolding decimal
decimal-length n h = digits_onto-length 9 (suc n) n [] (omega arith) h
