-- ===== src/Devices/Pfeiffer/Checksum.antt =====
-- `calculate_checksum` against the sum of the bytes modulo 256.
use foxtrot.Base.{
  ℕ, ◌+◌, ◌-◌, ◌%◌, ◌<◌, ◌≡◌, refl, ◌∙◌, Bool, true, false, ◌&&◌, ap, List, [], ◌∷◌, ◌++◌, arith,
  ltb, leb, if◌then◌else◌, All,
}
use foxtrot.Base.Int.{ℤ, pos, negsuc}
use foxtrot.Devices.Pfeiffer.{
  low_byte, add_chars, accumulate, rem_256, calculate_checksum, str_from_number,
}

abbrev pub total : List ℕ → ℕ
total [] = 0
total (c ∷ cs) = c + total cs

low_byte-add_chars :
    (signed : Bool) (a b : ℕ) → a < 256 → b < 256 → low_byte (add_chars signed a b) ≡ (a + b) % 256
low_byte-add_chars false a b ha hb = refl
low_byte-add_chars true a b ha hb = ground arith

low_byte-bound : (n : ℤ) → low_byte n < 256
low_byte-bound (pos n) = omega arith
low_byte-bound (negsuc n) = omega arith

low_byte-accumulate :
    (signed : Bool) (acc : ℤ) (cs : List ℕ)
    → All (λ c. c < 256) cs
    → low_byte (accumulate signed acc cs) ≡ (low_byte acc + total cs) % 256
unfolding accumulate
low_byte-accumulate signed acc [] h = omega (arith, low_byte-bound acc)
low_byte-accumulate signed acc (c ∷ cs) (hc, h) = omega (
  arith,
  low_byte-accumulate signed (add_chars signed (low_byte acc) c) cs h,
  low_byte-add_chars signed (low_byte acc) c (low_byte-bound acc) hc,
)

accumulate-last :
    (signed : Bool) (acc : ℤ) (cs : List ℕ) (c : ℕ)
    → accumulate signed acc (cs ++ c ∷ [])
      ≡ add_chars signed (low_byte (accumulate signed acc cs)) c
unfolding accumulate
accumulate-last signed acc [] c = refl
accumulate-last signed acc (d ∷ cs) c =
    accumulate-last signed (add_chars signed (low_byte acc) d) cs c

unsigned_rem :
    (acc : ℕ) (cs : List ℕ) → rem_256 (accumulate false (pos acc) cs) ≡ pos ((acc + total cs) % 256)
unfolding accumulate
unsigned_rem acc [] = ground arith
unsigned_rem acc (c ∷ cs) = ground (arith, unsigned_rem (acc % 256 + c) cs)

-- Where `char` is unsigned, the checksum is the sum of the bytes modulo 256 in three digits.
pub calculate_checksum_unsigned :
    (cs : List ℕ) → calculate_checksum false cs ≡ str_from_number (pos (total cs % 256)) 3
unfolding calculate_checksum
calculate_checksum_unsigned cs =
    ap (λ n. str_from_number n 3) (unsigned_rem 0 cs ∙ ap (λ n. pos (n % 256)) (omega arith))

signed_rem :
    (s c : ℕ)
    → s < 256
    → c < 128
    → rem_256 (add_chars true s c)
      ≡ (if leb 128 s && ltb (s + c) 256 then negsuc (255 - s - c) else pos ((s + c) % 256))
signed_rem s c hs hc = ground arith

-- Where `char` is signed, the checksum of an ASCII text is the sum of the bytes modulo 256 in three
-- digits, unless the sum of all but the last byte is from 128 on modulo 256, and the last byte does
-- not carry it to 256: then it is that sum minus 256, printed with its minus sign.
pub calculate_checksum_signed :
    (cs : List ℕ) (c : ℕ)
    → All (λ d. d < 128) cs
    → c < 128
    → let s = total cs % 256 in
      calculate_checksum true (cs ++ c ∷ [])
      ≡ str_from_number
          (if leb 128 s && ltb (s + c) 256
            then negsuc (255 - s - c)
            else pos ((total cs + c) % 256))
          3
unfolding calculate_checksum
calculate_checksum_signed cs c h hc = rw (accumulate-last true (pos 0) cs c) ground (
  arith,
  low_byte-accumulate true (pos 0) cs (widen cs h),
  signed_rem (total cs % 256) c (omega arith) hc,
)
  where
    widen : (ds : List ℕ) → All (λ d. d < 128) ds → All (λ d. d < 256) ds
    widen [] _ = tt
    widen (d ∷ ds) (hd, hs) = (omega arith, widen ds hs)
