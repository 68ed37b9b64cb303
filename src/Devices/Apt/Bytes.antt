-- ===== src/Devices/Apt/Bytes.antt =====
-- Packed structs as bytes, the low byte first, and the way back.
use foxtrot.Base.{
  ℕ, ◌+◌, ◌*◌, ◌/◌, ◌%◌, ◌≡◌, arith, Option, none, some, List, [], ◌∷◌, ◌++◌, leb, if◌then◌else◌,
  length, take, drop, length-append, take-append, drop-append,
}

abbrev pub u16 : ℕ → List ℕ
u16 n = n % 256 ∷ n / 256 % 256 ∷ []

abbrev pub u32 : ℕ → List ℕ
u32 n = n % 256 ∷ n / 256 % 256 ∷ n / 65536 % 256 ∷ n / 16777216 % 256 ∷ []

-- What takes a value off the front of the bytes.
abbrev pub Take : Type 0 → Type 0
Take A = List ℕ → Option (A × List ℕ)

infixl 5 ◌>>=◌
abbrev pub ◌>>=◌ : {A B : Type 0} → Take A → (A → Take B) → Take B
(p >>= f) bs = elim (p bs) [ none ↦ none | some (a, rest) ↦ f a rest ]

abbrev pub take_u16 : Take ℕ
take_u16 (a ∷ b ∷ rest) = some (a + 256 * b, rest)
take_u16 _ = none

abbrev pub take_u32 : Take ℕ
take_u32 (a ∷ b ∷ c ∷ d ∷ rest) = some (a + 256 * b + 65536 * c + 16777216 * d, rest)
take_u32 _ = none

unfoldable pub take_bytes : ℕ → Take (List ℕ)
take_bytes n bs = if leb n (length bs) then some (take n bs, drop n bs) else none

-- A value of all the bytes.
abbrev pub whole : {A : Type 0} → Option (A × List ℕ) → Option A
whole none = none
whole (some (a, [])) = some a
whole (some (a, b ∷ bs)) = none

pub take_bytes-append :
    (n : ℕ) (xs rest : List ℕ) → length xs ≡ n → take_bytes n (xs ++ rest) ≡ some (xs, rest)
unfolding take_bytes
take_bytes-append n xs rest e =
    ground (arith, e, length-append xs rest, take-append xs rest, drop-append xs rest)
