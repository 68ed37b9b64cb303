-- ===== src/Devices/Rly8.antt =====
-- The relay board RLY-8: devices/RLY-8/RLY_8.cpp and RLY_8.hh.
--
-- A byte is a number below 256, a string the list of its bytes. Where the code reads a byte through
-- a `char`, which is signed on the platforms the server runs on, `sign_extended` says what it is
-- converted to. What the board answers to a request is an argument, `exchange`.
pub mod Frames
pub mod Commands
mod Tests
use foxtrot.Base.{
  ℕ, zero, suc, ◌+◌, ◌-◌, ◌*◌, ◌/◌, ◌%◌, ◌^◌, Bool, true, false, not, ◌&&◌, ◌||◌, Option, none,
  some, List, [], ◌∷◌, ◌++◌, Result, ok, err, ◌>>=◌, ◌>>◌, throw_if, ltb, leb, ◌==◌, if◌then◌else◌,
  length, get_elem?, take, drop,
}

-- The exceptions; `length_error` is what `resize` throws for a size that cannot be, and
-- `out_of_bounds` stands for an access outside a string or a bitset, which is undefined.
pub data Error : Type 0 where
  too_long bad_first bad_second bad_address bad_checksum bad_size : Error
  bad_channel failed length_error out_of_bounds : Error

pub data Command : Type 0 where
  query_version query_relay_state set_relay : Command

abbrev pub code : Command → ℕ
code query_version = 0x07
code query_relay_state = 0x01
code set_relay = 0x00

abbrev pub u32_mod : ℕ
u32_mod = 4294967296

-- The 32-bit pattern of a `char`.
abbrev pub sign_extended : ℕ → ℕ
sign_extended c = if ltb c 128 then c else c + (u32_mod - 256)

-- `calc_checksum`: the loop over the bytes as they are converted to `unsigned`.
unfoldable pub sum_from : ℕ → List ℕ → ℕ
sum_from sum [] = sum
sum_from sum (c ∷ cs) = sum_from ((sum + c) % u32_mod) cs

unfoldable pub calc_checksum : List ℕ → ℕ
unfolding sum_from
calc_checksum cs = sum_from 0 cs % 256

abbrev pub extended : List ℕ → List ℕ
extended [] = []
extended (c ∷ cs) = sign_extended c ∷ extended cs

-- Over the characters of a string.
unfoldable pub calc_checksum_chars : List ℕ → ℕ
unfolding calc_checksum
calc_checksum_chars cs = calc_checksum (extended cs)

-- The request without its checksum.
abbrev pub head_and_data : ℕ → Command → List ℕ → List ℕ
head_and_data addr cmd dat = 0x55 ∷ 0xAA ∷ addr ∷ length dat ∷ code cmd ∷ dat

unfoldable pub assemble_cmd : ℕ → Command → List ℕ → Result Error (List ℕ)
unfolding calc_checksum
assemble_cmd addr cmd dat =
    if ltb 255 (length dat)
    then err too_long
    else ok (head_and_data addr cmd dat ++ calc_checksum (head_and_data addr cmd dat) ∷ [])

-- `response[i]`: the character behind the last one is zero.
abbrev pub char_at : List ℕ → ℕ → Result Error ℕ
char_at response i = elim (get_elem? response i) [
  | some c ↦ ok c
  | none ↦ if i == length response then ok 0 else err out_of_bounds
]

-- The copy of `count` bytes from the sixth on, where `count` is a `char`.
abbrev pub copy_data : List ℕ → ℕ → Result Error (List ℕ)
copy_data response count =
    if leb 128 count
    then err length_error
    else if leb (5 + count) (length response)
    then ok (take count (drop 5 response))
    else err out_of_bounds

-- `*response.rbegin()` of a string that is not empty.
abbrev pub last_of : ℕ → List ℕ → ℕ
last_of c [] = c
last_of c (d ∷ ds) = last_of d ds

abbrev pub all_but_last : List ℕ → List ℕ
all_but_last [] = []
all_but_last (c ∷ []) = []
all_but_last (c ∷ d ∷ ds) = c ∷ all_but_last (d ∷ ds)

unfoldable pub extract_response : ℕ → List ℕ → Result Error (List ℕ)
unfolding calc_checksum_chars
extract_response addr response = do
  first ← char_at response 0
  throw_if (not (first == 0x55)) bad_first
  second ← char_at response 1
  throw_if (not (second == 0xAA)) bad_second
  source ← char_at response 2
  throw_if (not (source == addr)) bad_address
  _ ← char_at response 4
  throw_if (not (last_of 0 response == calc_checksum_chars (all_but_last response))) bad_checksum
  count ← char_at response 3
  copy_data response count

module _ (addr : ℕ) (exchange : List ℕ → List ℕ) where
  -- A command and its answer.
  unfoldable pub transact : Command → List ℕ → Result Error (List ℕ)
  unfolding assemble_cmd extract_response
  transact cmd dat = do
    request ← assemble_cmd addr cmd dat
    extract_response addr (exchange request)

  unfoldable pub get_version : Result Error (List ℕ)
  unfolding transact
  get_version = transact query_version []

  abbrev only_byte : List ℕ → Result Error ℕ
  only_byte (b ∷ []) = ok b
  only_byte _ = err bad_size

  unfoldable pub get_relay_state : Result Error ℕ
  unfolding transact
  get_relay_state = transact query_relay_state [] >>= only_byte

  unfoldable pub set_relay_to : ℕ → Bool → Result Error (Unit {0})
  unfolding transact
  set_relay_to channel onoff = do
    throw_if (ltb channel 1 || ltb 8 channel) bad_channel
    outdat ← transact set_relay (channel ∷ (if onoff then 1 else 0) ∷ [])
    status ← only_byte outdat
    throw_if (not (status == 0)) failed

  -- `bs[channel - 1]` of a `bitset<8>`.
  unfoldable pub get_relay : ℕ → Result Error Bool
  unfolding get_relay_state
  get_relay channel = do
    state ← get_relay_state
    if leb 1 channel && leb channel 8
        then ok ((state / 2 ^ (channel - 1)) % 2 == 1)
        else err out_of_bounds
