-- ===== src/Devices/Archon/Buffers.antt =====
-- Fetching of frames: `read_back_buffer`, `fetch_buffer` and `fetch_raw_buffer` of devices/archon/archon.cpp
-- over `simpleTCP` of protocols/src/simpleTCP.cpp, on a little-endian machine. Writing to the socket, the
-- bytes it has and reading from it are arguments; what takes time is in what they leave of the device.
pub mod Pixels
pub mod Images
use foxtrot.Base.{
  ℕ, zero, suc, ◌+◌, ◌-◌, ◌*◌, ◌/◌, ◌%◌, Bool, true, false, not, Option, none, some, List, [], ◌∷◌,
  ◌++◌, Result, ok, err, ltb, leb, ◌==◌, if◌then◌else◌,
}
use foxtrot.Base.Int.{ℤ, pos, negsuc}
use foxtrot.Base.Decimal.{set_width}
use foxtrot.Base.Texts.{Text, bytes, hex, stoul}
use foxtrot.Base.Action.{◌>>=◌, ◌>>◌, give, throw}
use foxtrot.Devices.Apt.Bytes.{take_u16, take_u32}
use foxtrot.Devices.Archon.{
  Archon, Error, protocol_error, device_error, logic_error, undefined, from_stoi, Member, lift,
}
use foxtrot.Devices.Archon.Frame.{
  parse_binary_response, at, buffer_key, get_width, get_height, get_32bit, get_rawblocks,
  get_rawlines, isbuffercomplete, lockbuffer, update_state,
}

-- `vector::resize`
unfoldable pub resize : ℕ → List ℕ → List ℕ
resize zero xs = []
resize (suc n) [] = let rest = resize n [] in 0 ∷ rest
resize (suc n) (x ∷ xs) = let rest = resize n xs in x ∷ rest

-- The `Tdiff` of `read_back_buffer`: four bytes or two.
abbrev pub take_element : Bool → Text → Option (ℕ × Text)
take_element true = take_u32
take_element false = take_u16

-- `1024 / sizeof(Tdiff)`
abbrev pub block_length : Bool → ℕ
block_length true = 256
block_length false = 512

abbrev pub put_first : ℕ → Result Error (List ℕ) → Result Error (List ℕ)
put_first p (err e) = err e
put_first p (ok ps) = ok (p ∷ ps)

-- What the pointer reads of the bytes.
unfoldable pub elements : Bool → ℕ → Text → Result Error (List ℕ)
elements is32 zero body = ok []
elements is32 (suc n) body = elim (take_element is32 body) [
  | none ↦ err undefined
  | some (p, more) ↦ put_first p (elements is32 n more)
]

unfoldable pub block_elements : Bool → Text → Result Error (List ℕ)
unfolding parse_binary_response elements
block_elements is32 ret = elim (parse_binary_response ret) [
  | err e ↦ err e
  | ok body ↦ elements is32 (block_length is32) body
]

-- An `int` as `unsigned`.
abbrev pub unsigned_of : ℤ → ℕ
unsigned_of (pos n) = n
unsigned_of (negsuc n) = 4294967295 - n

abbrev minus : ℕ → ℤ
minus zero = pos 0
minus (suc n) = negsuc n

abbrev times : ℤ → ℤ → ℤ
times (pos a) (pos b) = pos (a * b)
times (pos a) (negsuc b) = minus (a * suc b)
times (negsuc a) (pos b) = minus (suc a * b)
times (negsuc a) (negsuc b) = pos (suc a * suc b)

-- What fits an `int`.
abbrev as_int : ℤ → Result Error ℤ
as_int (pos n) = if ltb n 2147483648 then ok (pos n) else err undefined
as_int (negsuc n) = if ltb n 2147483648 then ok (negsuc n) else err undefined

-- `*` on `int`
abbrev pub product : ℤ → ℤ → Result Error ℤ
product a b = as_int (times a b)

-- `out.reserve(num_blocks * 1024)`
abbrev pub reserved : ℤ → Result Error (Unit {0})
reserved (pos n) = if ltb n 2097152 then ok tt else err undefined
reserved (negsuc n) = err (if ltb n 2097152 then logic_error else undefined)

abbrev pub resized : ℤ → List ℕ → Result Error (List ℕ)
resized (pos n) out = ok (resize n out)
resized (negsuc n) out = err logic_error

abbrev pub blocks_in : ℕ → ℕ
blocks_in num_bytes = num_bytes / 1024 + (if num_bytes % 1024 == 0 then 0 else 1)

unfoldable pub fetch_request : ℕ → ℤ → Text
fetch_request address num_blocks =
    bytes ">00FETCH"
    ++ (set_width 8 48 (hex address)
        ++ (set_width 8 48 (hex (unsigned_of num_blocks)) ++ (10 ∷ [])))

abbrev pub address_in : Result Error Text → Result Error ℕ
address_in (err e) = err e
address_in (ok text) = elim (stoul 10 text) [ err e ↦ err (from_stoi e) | ok n ↦ ok n ]

module _ {Dev : Type 0} (write : Text → Dev → Bool × Dev) (available : Dev → Option ℕ × Dev)
    (recv : ℕ → Dev → Option Text × Dev) where
  abbrev pub write_port : Text → Member Dev (Unit {0})
  write_port message s =
      let (sent, dev) = write message s.dev in
      ((if sent then ok tt else err protocol_error), record s { dev = dev })

  abbrev pub bytes_available : Member Dev ℕ
  bytes_available s =
      let (count, dev) = available s.dev in
      (elim count [ none ↦ err protocol_error | some n ↦ ok n ], record s { dev = dev })

  -- What is not received stays zero.
  abbrev pub read_port : ℕ → Member Dev Text
  read_port len s =
      let (received, dev) = recv len s.dev in
      (
        elim received [ none ↦ err protocol_error | some out ↦ ok (resize len out) ],
        record s { dev = dev },
      )

  -- A round of the wait, with whether there are bytes enough and the rounds that are left.
  abbrev pub end_round : Bool → ℕ → Member Dev (Unit {0}) → Member Dev (Unit {0})
  end_round true retries next = give tt
  end_round false zero next = throw device_error
  end_round false (suc _) next = next

  unfoldable pub wait_for_block : ℕ → Member Dev (Unit {0})
  unfolding ◌>>=◌
  wait_for_block zero = give tt
  wait_for_block (suc retries) =
      let next = wait_for_block retries in
      bytes_available >>= (λ bytes_avail. end_round (leb 1028 bytes_avail) retries next)

  unfoldable pub read_block : Bool → ℕ → Member Dev (List ℕ)
  unfolding wait_for_block block_elements resize ◌>>=◌ ◌>>◌
  read_block is32 retries =
      wait_for_block retries >> (read_port 1028 >>= (λ ret. lift (block_elements is32 ret)))

  unfoldable pub read_blocks : Bool → ℕ → ℕ → Member Dev (List ℕ)
  unfolding read_block ◌>>=◌
  read_blocks is32 retries zero = give []
  read_blocks is32 retries (suc n) =
      read_block is32 retries >>= (λ ps. read_blocks is32 retries n >>= (λ more. give (ps ++ more)))

  abbrev pub read_number : Bool → ℕ → ℤ → Member Dev (List ℕ)
  read_number is32 retries (pos n) = read_blocks is32 retries n
  read_number is32 retries (negsuc _) = give []

  unfoldable pub read_back_buffer : Bool → ℤ → ℕ → ℕ → Member Dev (List ℕ)
  unfolding fetch_request read_blocks ◌>>◌
  read_back_buffer is32 num_blocks retries address =
      write_port (fetch_request address num_blocks)
      >> (lift (reserved num_blocks) >> read_number is32 retries num_blocks)

  -- `std::stoul(_frame.at(...))`
  abbrev pub frame_address : Text → ℤ → Member Dev ℕ
  frame_address name buf s = (address_in (at (buffer_key buf name) s.frame), s)

  -- `read_frame` is what `fetch_buffer` does with a buffer that is complete and locked.
  unfoldable pub frame_pixels : ℤ → Member Dev ℤ
  unfolding get_width get_height ◌>>=◌
  frame_pixels buf =
      get_width buf >>= (λ width. get_height buf >>= (λ height. lift (product width height)))

  unfoldable pub read_elements : Bool → ℤ → ℕ → ℤ → Member Dev (List ℕ)
  unfolding read_back_buffer resize ◌>>=◌
  read_elements is32 pixels baseaddr num_bytes =
      read_back_buffer is32 (pos (blocks_in (unsigned_of num_bytes))) 100 (baseaddr % 4294967296)
      >>= (λ out. lift (resized pixels out))

  unfoldable pub read_pixels : ℤ → ℕ → Bool → Member Dev (List ℕ)
  unfolding read_elements ◌>>=◌
  read_pixels pixels baseaddr is32 =
      lift (product pixels (pos (if is32 then 4 else 2))) >>= read_elements is32 pixels baseaddr

  unfoldable pub read_frame : ℤ → Member Dev (List ℕ)
  unfolding frame_pixels get_32bit read_pixels ◌>>=◌
  read_frame buf = do
    pixels ← frame_pixels buf
    baseaddr ← frame_address (bytes "BASE") buf
    is32 ← get_32bit buf
    read_pixels pixels baseaddr is32

  unfoldable pub read_raw : ℤ → Member Dev (List ℕ)
  unfolding get_rawblocks get_rawlines read_back_buffer ◌>>=◌
  read_raw buf = do
    rawsamp ← get_rawblocks buf
    rawlines ← get_rawlines buf
    total_blocks ← lift (product rawsamp rawlines)
    baseaddr ← frame_address (bytes "BASE") buf
    offset ← frame_address (bytes "RAWOFFSET") buf
    read_back_buffer false total_blocks 100 ((baseaddr + offset) % 4294967296)

  module _ (transact : Text → Dev → Option Text × Dev)
      (update_variables : Member Dev (Unit {0})) where
    -- What both kinds of fetching do first.
    unfoldable pub take_buffer : ℤ → Member Dev (Unit {0})
    unfolding update_state isbuffercomplete lockbuffer ◌>>=◌ ◌>>◌
    take_buffer buf =
        update_state transact update_variables
        >> (isbuffercomplete buf
            >>= (λ complete. if complete then lockbuffer transact buf else throw device_error))

    unfoldable pub fetch_buffer : ℤ → Member Dev (List ℕ)
    unfolding take_buffer read_frame ◌>>◌
    fetch_buffer buf = take_buffer buf >> read_frame buf

    unfoldable pub fetch_raw_buffer : ℤ → Member Dev (List ℕ)
    unfolding take_buffer read_raw ◌>>◌
    fetch_raw_buffer buf = take_buffer buf >> read_raw buf
