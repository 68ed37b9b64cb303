-- ===== src/Devices/Rly8/Frames.antt =====
-- Frames: what `assemble_cmd` builds, `extract_response` takes apart, and damage is found.
use foxtrot.Base.{
  ℕ, ◌+◌, ◌%◌, ◌≤◌, ◌<◌, ◌≡◌, ◌≢◌, refl, ap, List, [], ◌∷◌, ◌++◌, arith, ok, err, ◌>>=◌, ◌==◌,
  if◌then◌else◌, length, length-append, take-append,
}
use foxtrot.Devices.Rly8.{
  length_error, bad_checksum, Command, code, sum_from, calc_checksum, extended, calc_checksum_chars,
  head_and_data, assemble_cmd, copy_data, last_of, all_but_last, extract_response,
}

abbrev total : List ℕ → ℕ
total [] = 0
total (c ∷ cs) = c + total cs

sum_from-mod : (s : ℕ) (cs : List ℕ) → sum_from s cs % 256 ≡ (s + total cs) % 256
unfolding sum_from
sum_from-mod s [] = omega arith
sum_from-mod s (c ∷ cs) = omega (arith, sum_from-mod ((s + c) % 4294967296) cs)

calc_checksum-total : (cs : List ℕ) → calc_checksum cs ≡ total cs % 256
unfolding calc_checksum
calc_checksum-total cs = omega (arith, sum_from-mod 0 cs)

total-extended : (cs : List ℕ) → total (extended cs) % 256 ≡ total cs % 256
total-extended [] = refl
total-extended (c ∷ cs) = ground (arith, total-extended cs)

-- The sign of a `char` makes no difference to the checksum.
pub calc_checksum_chars_lem : (cs : List ℕ) → calc_checksum_chars cs ≡ calc_checksum cs
unfolding calc_checksum_chars
calc_checksum_chars_lem cs =
    omega (arith, calc_checksum-total (extended cs), calc_checksum-total cs, total-extended cs)

last_of-append : (d c : ℕ) (xs : List ℕ) → last_of d (xs ++ c ∷ []) ≡ c
last_of-append d c [] = refl
last_of-append d c (x ∷ xs) = last_of-append x c xs

all_but_last-append : (c : ℕ) (xs : List ℕ) → all_but_last (xs ++ c ∷ []) ≡ xs
all_but_last-append c [] = refl
all_but_last-append c (x ∷ []) = refl
all_but_last-append c (x ∷ y ∷ xs) = ap (◌∷◌ x) (all_but_last-append c (y ∷ xs))

module _ (addr : ℕ) (cmd : Command) where
  -- A well-formed head with any data and any last byte.
  extract_frame :
      (count : ℕ) (dat : List ℕ) (check : ℕ)
      → let body = 0x55 ∷ 0xAA ∷ addr ∷ count ∷ code cmd ∷ dat in
        extract_response addr (body ++ check ∷ []) ≡ (
          if check == calc_checksum body
          then copy_data (body ++ check ∷ []) count
          else err bad_checksum)
  unfolding extract_response
  extract_frame count dat check =
      let body : List ℕ = 0x55 ∷ 0xAA ∷ addr ∷ count ∷ code cmd ∷ dat in
      ground (
        arith,
        last_of-append 0 check body,
        all_but_last-append check body,
        calc_checksum_chars_lem body,
      )

  -- The data of a request of less than 128 bytes of data comes back from the frame.
  pub extract_response-assemble_cmd :
      (dat : List ℕ)
      → length dat < 128
      → (assemble_cmd addr cmd dat >>= extract_response addr) ≡ ok dat
  unfolding assemble_cmd
  extract_response-assemble_cmd dat h =
      let check = calc_checksum (head_and_data addr cmd dat) in
      ground (
        arith,
        extract_frame (length dat) dat check,
        take-append dat (check ∷ []),
        length-append dat (check ∷ []),
      )

  -- A frame with 128 to 255 bytes of data is built, and cannot be taken apart: the length byte is
  -- read as a negative number.
  pub extract_response_long :
      (dat : List ℕ)
      → 128 ≤ length dat
      → length dat ≤ 255
      → (assemble_cmd addr cmd dat >>= extract_response addr) ≡ err length_error
  unfolding assemble_cmd
  extract_response_long dat low high =
      let check = calc_checksum (head_and_data addr cmd dat) in
      ground (arith, extract_frame (length dat) dat check)

  total-replace : (xs ys : List ℕ) (x y : ℕ) → total (xs ++ x ∷ ys) + y ≡ total (xs ++ y ∷ ys) + x
  total-replace [] ys x y = omega arith
  total-replace (z ∷ xs) ys x y = omega (arith, total-replace xs ys x y)

  -- A frame in which one data byte was changed is refused for its checksum.
  pub extract_response_damaged :
      (xs ys : List ℕ) (x y : ℕ)
      → x < 256
      → y < 256
      → x ≢ y
      → extract_response addr (
          head_and_data addr cmd (xs ++ y ∷ ys)
          ++ calc_checksum (head_and_data addr cmd (xs ++ x ∷ ys)) ∷ [])
        ≡ err bad_checksum
  extract_response_damaged xs ys x y hx hy ne =
      let sent = head_and_data addr cmd (xs ++ x ∷ ys) in
      let got = head_and_data addr cmd (xs ++ y ∷ ys) in
      ground (
        arith,
        extract_frame (length (xs ++ y ∷ ys)) (xs ++ y ∷ ys) (calc_checksum sent),
        calc_checksum-total sent,
        calc_checksum-total got,
        total-replace xs ys x y,
        length-append xs (x ∷ ys),
        length-append xs (y ∷ ys),
      )
