-- ===== src/Base/Texts.antt =====
-- Text as lists of bytes: literals, hexadecimal numbers as `operator<<` prints them, `std::getline` and
-- `std::stoul`.
use Prim.Native.Char.{code}
use Prim.Native.String.{String}
use Prim.Native.Nat.{ℕ, zero, suc, ◌+◌, ◌-◌, ◌*◌, ◌/◌, ◌%◌, ◌^◌}
use mathlib.Core.Bool.{Bool, true, false, ◌&&◌, ◌||◌}
use mathlib.Core.Option.{Option, none, some}
use mathlib.Core.List.{List, [], ◌∷◌}
use foxtrot.Base.Tests.{ltb, leb, ◌==◌, if◌then◌else◌}
use foxtrot.Base.Decimal.{StoiError, invalid_argument, stoi_out_of_range, skip_spaces}
use foxtrot.Base.Outcome.{Result, ok, err}

abbrev pub Text : Type 0
Text = List ℕ

-- The bytes of an ASCII literal.
abbrev pub bytes : String → Text
bytes String.[] = []
bytes (String.◌∷◌ c s) = code c ∷ bytes s

-- `std::uppercase`
abbrev pub hex_digit : ℕ → ℕ
hex_digit d = if ltb d 10 then 48 + d else 55 + d

hex_onto : ℕ → ℕ → Text → Text
hex_onto zero n acc = acc
hex_onto (suc fuel) n acc =
    let rest = hex_onto fuel (n / 16) (hex_digit (n % 16) ∷ acc) in
    if ltb n 16 then hex_digit n ∷ acc else rest

-- `std::hex`
unfoldable pub hex : ℕ → Text
unfolding hex_onto
hex n = hex_onto (suc n) n []

abbrev join_first : ℕ → List Text → List Text
join_first c [] = (c ∷ []) ∷ []
join_first c (l ∷ ls) = (c ∷ l) ∷ ls

-- All that `std::getline` reads, one after the other, up to a delimiter.
unfoldable pub getlines : ℕ → Text → List Text
getlines delim [] = []
getlines delim (c ∷ cs) =
    let rest = getlines delim cs in if c == delim then [] ∷ rest else join_first c rest

-- Up to the first `mark`, and what stands behind it, if there is one.
unfoldable pub split_at : ℕ → Text → Option (Text × Text)
split_at mark [] = none
split_at mark (c ∷ cs) =
    let rest = split_at mark cs in
    if c == mark
    then some ([], cs)
    else (elim rest [ none ↦ none | some (key, val) ↦ some (c ∷ key, val) ])

-- `std::find` from the begin.
unfoldable pub up_to : ℕ → Text → Text
up_to mark [] = []
up_to mark (c ∷ cs) = let rest = up_to mark cs in if c == mark then [] else c ∷ rest

-- The value of a digit, at least 36 if it is none.
abbrev pub digit_value : ℕ → ℕ
digit_value c =
    if leb 48 c && leb c 57
    then c - 48
    else if leb 65 c && leb c 90
    then c - 55
    else if leb 97 c && leb c 122
    then c - 87
    else 36

unfoldable pub read_base : ℕ → ℕ → Text → ℕ
read_base base n [] = n
read_base base n (c ∷ cs) =
    let rest = read_base base (n * base + digit_value c) cs in
    if ltb (digit_value c) base then rest else n

unfoldable pub unsigned_digits : ℕ → Bool → Text → Result StoiError ℕ
unfolding read_base
unsigned_digits base minus [] = err invalid_argument
unsigned_digits base minus (c ∷ cs) =
    if ltb (digit_value c) base
    then if ltb (read_base base 0 (c ∷ cs)) (2 ^ 64)
      then if minus
        then ok ((2 ^ 64 - read_base base 0 (c ∷ cs)) % 2 ^ 64)
        else ok (read_base base 0 (c ∷ cs))
      else err stoi_out_of_range
    else err invalid_argument

-- "0x" in front of a hexadecimal digit.
abbrev pub skip_prefix : ℕ → Text → Text
skip_prefix base (z ∷ x ∷ d ∷ cs) =
    if base == 16 && z == 48 && (x == 88 || x == 120) && ltb (digit_value d) 16
    then d ∷ cs
    else z ∷ x ∷ d ∷ cs
skip_prefix base cs = cs

abbrev pub after_sign : ℕ → Text → Result StoiError ℕ
unfolding unsigned_digits
after_sign base [] = err invalid_argument
after_sign base (c ∷ cs) =
    if c == b'-'
    then unsigned_digits base true (skip_prefix base cs)
    else if c == b'+'
    then unsigned_digits base false (skip_prefix base cs)
    else unsigned_digits base false (skip_prefix base (c ∷ cs))

unfoldable pub stoul : ℕ → Text → Result StoiError ℕ
unfolding after_sign skip_spaces
stoul base s = after_sign base (skip_spaces s)
