-- ===== src/Devices/Archon/Buffers/Pixels.antt =====
-- That the pixels of a frame come through: `read_back_buffer` of devices/archon/archon.cpp.
use foxtrot.Base.{
  ℕ, zero, suc, ◌*◌, ◌≤◌, ◌<◌, ◌≡◌, ◌⊎◌, inl, inr, refl, sym, ap, ◌∙◌, arith, Bool, true, false,
  Option, none, some, List, [], ◌∷◌, ◌++◌, ok, err, leb, if◌then◌else◌, length, All,
}
use foxtrot.Base.Int.{pos}
use foxtrot.Base.Texts.{Text}
use foxtrot.Base.Action.{◌>>=◌, ◌>>◌, bind_ok, bind_eq, then_eq, give}
use foxtrot.Devices.Apt.Bytes.{u16, u32}
use foxtrot.Devices.Archon.{Archon, Error, lift}
use foxtrot.Devices.Archon.Frame.{parse_binary_response}
use foxtrot.Devices.Archon.Buffers.{
  resize, take_element, block_length, put_first, elements, block_elements, fetch_request,
  write_port, bytes_available, read_port, end_round, wait_for_block, read_block, read_blocks,
  reserved, read_number, read_back_buffer,
}

-- A pixel in memory, and a block of them.
abbrev pub pixel_bytes : Bool → ℕ → Text
pixel_bytes true = u32
pixel_bytes false = u16

unfoldable pub block_bytes : Bool → List ℕ → Text
block_bytes is32 [] = []
block_bytes is32 (p ∷ ps) = pixel_bytes is32 p ++ block_bytes is32 ps

abbrev pub bound : Bool → ℕ
bound true = 4294967296
bound false = 65536

unfoldable pub IsBlock : Bool → List ℕ → Type 0
IsBlock is32 ps = (length ps ≡ block_length is32) × All (λ p. p < bound is32) ps

unfoldable pub joined : List (List ℕ) → List ℕ
joined [] = []
joined (ps ∷ more) = ps ++ joined more

pub resize-append : (xs ys : List ℕ) → resize (length xs) (xs ++ ys) ≡ xs
unfolding resize
resize-append [] ys = refl
resize-append (x ∷ xs) ys = ap (◌∷◌ x) (resize-append xs ys)

resize-length : (xs : List ℕ) → resize (length xs) xs ≡ xs
unfolding resize
resize-length [] = refl
resize-length (x ∷ xs) = ap (◌∷◌ x) (resize-length xs)

take_element-pixel :
    (is32 : Bool) (p : ℕ) (rest : Text)
    → p < bound is32
    → take_element is32 (pixel_bytes is32 p ++ rest) ≡ some (p, rest)
take_element-pixel true p rest h = ap (λ q. some (q, rest)) (omega arith)
take_element-pixel false p rest h = ap (λ q. some (q, rest)) (omega arith)

elements-block_bytes :
    (is32 : Bool) (ps : List ℕ)
    → All (λ p. p < bound is32) ps
    → elements is32 (length ps) (block_bytes is32 ps) ≡ ok ps
unfolding elements block_bytes
elements-block_bytes is32 [] h = refl
elements-block_bytes is32 (p ∷ ps) h =
    ap
      (λ t. elim t [
        | none ↦ err Error.undefined
        | some (q, more) ↦ put_first q (elements is32 (length ps) more)
      ])
      (take_element-pixel is32 p (block_bytes is32 ps) h.0)
    ∙ ap (put_first p) (elements-block_bytes is32 ps h.1)

abbrev pub size : Bool → ℕ
size is32 = if is32 then 4 else 2

length-block_bytes :
    (is32 : Bool) (ps : List ℕ) → length (block_bytes is32 ps) ≡ size is32 * length ps
unfolding block_bytes
length-block_bytes true [] = refl
length-block_bytes false [] = refl
length-block_bytes true (p ∷ ps) = let rest = length-block_bytes true ps in omega (arith, rest)
length-block_bytes false (p ∷ ps) = let rest = length-block_bytes false ps in omega (arith, rest)

-- A block as the controller sends it, behind its order number.
unfoldable pub sent_block : Bool → ℕ → ℕ → List ℕ → Text
sent_block is32 x y ps = b'<' ∷ x ∷ y ∷ b':' ∷ block_bytes is32 ps

resize-sent_block :
    (is32 : Bool) (x y : ℕ) (ps : List ℕ)
    → IsBlock is32 ps
    → resize 1028 (sent_block is32 x y ps) ≡ sent_block is32 x y ps
unfolding sent_block IsBlock
resize-sent_block true x y ps h =
    let l = length-block_bytes true ps in
    let e : length (sent_block true x y ps) ≡ 1028 = omega (arith, l, h.0) in
    ap (λ n. resize n (sent_block true x y ps)) (sym e) ∙ resize-length (sent_block true x y ps)
resize-sent_block false x y ps h =
    let l = length-block_bytes false ps in
    let e : length (sent_block false x y ps) ≡ 1028 = omega (arith, l, h.0) in
    ap (λ n. resize n (sent_block false x y ps)) (sym e) ∙ resize-length (sent_block false x y ps)

block_elements-sent_block :
    (is32 : Bool) (x y : ℕ) (ps : List ℕ)
    → IsBlock is32 ps
    → block_elements is32 (sent_block is32 x y ps) ≡ ok ps
unfolding block_elements sent_block IsBlock parse_binary_response
block_elements-sent_block is32 x y ps h =
    ap (λ n. elements is32 n (block_bytes is32 ps)) (sym h.0) ∙ elements-block_bytes is32 ps h.1

module _ {Dev : Type 0} (write : Text → Dev → Bool × Dev) (available : Dev → Option ℕ × Dev)
    (recv : ℕ → Dev → Option Text × Dev) where
  -- That a block has arrived when the device is asked, from `d` to `e`, in so many rounds.
  unfoldable pub Arrives : ℕ → Dev → Dev → Type 0
  Arrives zero d e = false ≡ true
  Arrives (suc rounds) d e =
      (count : ℕ) × (next : Dev) × (available d ≡ (some count, next))
      × (((1028 ≤ count) × (next ≡ e)) ⊎ ((count < 1028) × Arrives rounds next e))

  -- That the blocks arrive one after the other, each while it is waited for, and are received whole.
  unfoldable pub Delivers : Bool → ℕ → List (List ℕ) → Dev → Type 0
  unfolding Arrives sent_block
  Delivers is32 retries [] d = Unit {0}
  Delivers is32 retries (ps ∷ more) d =
      (e next : Dev) × (x y : ℕ) × Arrives retries d e
      × (recv 1028 e ≡ (some (sent_block is32 x y ps), next))
      × Delivers is32 retries more next

  abbrev at_dev : Archon Dev → Dev → Archon Dev
  at_dev s d = record s { dev = d }

  bytes_available_lem :
      (s : Archon Dev) (count : ℕ) (next : Dev)
      → available s.dev ≡ (some count, next)
      → bytes_available write available recv s ≡ (ok count, at_dev s next)
  bytes_available_lem s count next asked =
      ap
        (λ p.
          (elim p.0 [ none ↦ err Error.protocol_error | some n ↦ ok n ], record s { dev = p.1 }))
        asked

  read_port_lem :
      (len : ℕ) (s : Archon Dev) (out : Text) (next : Dev)
      → recv len s.dev ≡ (some out, next)
      → read_port write available recv len s ≡ (ok (resize len out), at_dev s next)
  read_port_lem len s out next received =
      ap
        (λ p. (
          elim p.0 [ none ↦ err Error.protocol_error | some o ↦ ok (resize len o) ],
          record s { dev = p.1 },
        ))
        received

  -- A round of the wait, by whether there are bytes enough.
  round_lem :
      (n count : ℕ) (s : Archon Dev) (next : Dev) (enough : Bool)
      → available s.dev ≡ (some count, next)
      → leb 1028 count ≡ enough
      → wait_for_block write available recv (suc n) s
        ≡ end_round write available recv enough n
            (wait_for_block write available recv n)
            (at_dev s next)
  unfolding wait_for_block
  round_lem n count s next enough asked e =
      let more = wait_for_block write available recv n in
      bind_eq (bytes_available write available recv)
        (λ c. end_round write available recv (leb 1028 c) n more) s (at_dev s next) count
        (bytes_available_lem s count next asked)
      ∙ ap (λ b. end_round write available recv b n more (at_dev s next)) e

  wait_for_block_lem :
      (retries : ℕ) (s : Archon Dev) (e : Dev)
      → Arrives retries s.dev e
      → wait_for_block write available recv retries s ≡ (ok tt, at_dev s e)
  unfolding Arrives
  wait_for_block_lem zero s e h = absurd cc
  wait_for_block_lem (suc n) s e (count, next, asked, inl (enough, same)) =
      round_lem n count s next true asked (ground arith) ∙ ap (λ u. (ok tt, at_dev s u)) same
  wait_for_block_lem (suc zero) s e (count, next, asked, inr (few, h)) = absurd cc
  wait_for_block_lem (suc (suc n)) s e (count, next, asked, inr (few, h)) =
      round_lem (suc n) count s next false asked (ground arith)
      ∙ wait_for_block_lem (suc n) (at_dev s next) e h

  read_block_lem :
      (is32 : Bool) (retries : ℕ) (s : Archon Dev) (e next : Dev) (x y : ℕ) (ps : List ℕ)
      → IsBlock is32 ps
      → Arrives retries s.dev e
      → recv 1028 e ≡ (some (sent_block is32 x y ps), next)
      → read_block write available recv is32 retries s ≡ (ok ps, at_dev s next)
  unfolding read_block
  read_block_lem is32 retries s e next x y ps b a r =
      then_eq (wait_for_block write available recv retries)
        (read_port write available recv 1028 >>= (λ ret. lift (block_elements is32 ret))) s
        (at_dev s e) (wait_for_block_lem retries s e a)
      ∙ bind_eq (read_port write available recv 1028) (λ ret. lift (block_elements is32 ret))
          (at_dev s e) (at_dev s next) (sent_block is32 x y ps)
          (read_port_lem 1028 (at_dev s e) (sent_block is32 x y ps) next r
            ∙ ap (λ text. (ok text, at_dev s next)) (resize-sent_block is32 x y ps b))
      ∙ ap (λ r. (r, at_dev s next)) (block_elements-sent_block is32 x y ps b)

  read_blocks_lem :
      (is32 : Bool) (retries : ℕ) (blocks : List (List ℕ)) (s : Archon Dev)
      → All (IsBlock is32) blocks
      → Delivers is32 retries blocks s.dev
      → (read_blocks write available recv is32 retries (length blocks) s).0 ≡ ok (joined blocks)
  unfolding read_blocks Delivers joined
  read_blocks_lem is32 retries [] s b d = refl
  read_blocks_lem is32 retries (ps ∷ more) s b (e, next, x, y, a, r, d) =
      ap (λ p. p.0)
        (bind_eq (read_block write available recv is32 retries)
          (λ qs.
            read_blocks write available recv is32 retries (length more)
            >>= (λ rest. give (qs ++ rest)))
          s (at_dev s next) ps (read_block_lem is32 retries s e next x y ps b.0 a r))
      ∙ ap (λ p. p.0)
          (bind_ok (read_blocks write available recv is32 retries (length more))
            (λ rest. give (ps ++ rest)) (at_dev s next) (joined more)
            (read_blocks_lem is32 retries more (at_dev s next) b.1 d))

  pub read_back_buffer_pixels :
      (is32 : Bool) (retries address : ℕ) (blocks : List (List ℕ)) (s : Archon Dev) (d : Dev)
      → All (IsBlock is32) blocks
      → length blocks < 2097152
      → write (fetch_request address (pos (length blocks))) s.dev ≡ (true, d)
      → Delivers is32 retries blocks d
      → (read_back_buffer write available recv is32 (pos (length blocks)) retries address s).0
        ≡ ok (joined blocks)
  unfolding read_back_buffer
  read_back_buffer_pixels is32 retries address blocks s d b few w del =
      let asked = fetch_request address (pos (length blocks)) in
      ap (λ p. p.0)
        (then_eq (write_port write available recv asked)
            (lift (reserved (pos (length blocks)))
              >> read_number write available recv is32 retries (pos (length blocks)))
            s (at_dev s d)
            (ap (λ p. ((if p.0 then ok tt else err Error.protocol_error), at_dev s p.1)) w)
          ∙ then_eq (lift (reserved (pos (length blocks))))
              (read_number write available recv is32 retries (pos (length blocks))) (at_dev s d)
              (at_dev s d) (ap (λ r. (r, at_dev s d)) (ground arith)))
      ∙ read_blocks_lem is32 retries blocks (at_dev s d) b del
