-- ===== src/Devices/Pfeiffer.antt =====
-- The telegrams of Pfeiffer devices: devices/Pfeiffer/Pfeiffer.cpp and Pfeiffer.h.
--
-- A string is the list of its bytes. Whether `char` is signed is up to the platform: `signed` says
-- it. What the device answers to a telegram, up to the carriage return and with it, is the argument
-- `exchange`; that flushing the port may fail makes no difference to the code.
pub mod Checksum
pub mod Telegram
mod Tests
use foxtrot.Base.{
  ℕ, ◌+◌, ◌-◌, ◌%◌, Bool, true, false, not, ◌&&◌, Option, none, some, List, [], ◌∷◌, ◌++◌, Result,
  ok, err, ◌>>=◌, ◌>>◌, throw_if, ltb, leb, ◌==◌, if◌then◌else◌, length, take, drop, same_bytes,
}
use foxtrot.Base.Int.{ℤ, pos, negsuc}
use foxtrot.Base.Decimal.{decimal, set_width, stoi, StoiError}

pub data Error : Type 0 where
  invalid_checksum bad_device_address mismatched_parameter : Error
  no_def out_of_limits access_violation missing_data bad_data_type substr_range : Error
  bad_number : StoiError → Error

pub data PfeifferAction : Type 0 where
  read describe : PfeifferAction

abbrev pub action_code : PfeifferAction → ℕ
action_code read = 0
action_code describe = 10

-- `str_from_number(number, width)`
abbrev pub str_from_number : ℤ → ℕ → List ℕ
str_from_number number width = set_width width b'0' (decimal number)

-- The last eight bits of an `int`, as a byte.
abbrev pub low_byte : ℤ → ℕ
low_byte (pos n) = n % 256
low_byte (negsuc n) = 255 - n % 256

-- The sum of two `char`s.
abbrev pub add_chars : Bool → ℕ → ℕ → ℤ
add_chars false a b = pos (a + b)
add_chars true a b =
    if ltb a 128
    then (if ltb b 128
        then pos (a + b)
        else if leb (256 - b) a
        then pos (a - (256 - b))
        else negsuc (255 - b - a))
    else if ltb b 128
    then (if leb (256 - a) b then pos (b - (256 - a)) else negsuc (255 - a - b))
    else negsuc (511 - a - b)

-- `std::accumulate` with a lambda on two `const char&`: the sum so far is narrowed in each round.
unfoldable pub accumulate : Bool → ℤ → List ℕ → ℤ
accumulate signed acc [] = acc
accumulate signed acc (c ∷ cs) = accumulate signed (add_chars signed (low_byte acc) c) cs

-- `checksum % 256`, whose sign is that of `checksum`.
abbrev pub rem_256 : ℤ → ℤ
rem_256 (pos n) = pos (n % 256)
rem_256 (negsuc n) = if (n + 1) % 256 == 0 then pos 0 else negsuc ((n + 1) % 256 - 1)

unfoldable pub calculate_checksum : Bool → List ℕ → List ℕ
unfolding accumulate
calculate_checksum signed message = str_from_number (rem_256 (accumulate signed (pos 0) message)) 3

-- `semantic_command`, up to the call of `cmd`.
unfoldable pub semantic_message : ℕ → ℕ → PfeifferAction → Option (List ℕ) → Result Error (List ℕ)
semantic_message address parameter readwrite dat =
    let head =
      str_from_number (pos address) 3
      ++ str_from_number (pos (action_code readwrite)) 2
      ++ str_from_number (pos parameter) 3 in
    elim readwrite [
      | read ↦ ok (head ++ b'0' ∷ b'2' ∷ b'=' ∷ b'?' ∷ [])
      | describe ↦ elim dat [
        | none ↦ err missing_data
        | some d ↦ ok (head ++ str_from_number (pos (length d)) 2 ++ d)
      ]
    ]

-- The line that `cmd` writes.
abbrev pub telegram : Bool → List ℕ → List ℕ
telegram signed message = message ++ calculate_checksum signed message ++ b'\r' ∷ []

-- `s.substr(at, count)`
abbrev pub substr : List ℕ → ℕ → ℕ → Result Error (List ℕ)
substr s at count = if ltb (length s) at then err substr_range else ok (take count (drop at s))

abbrev pub stoi_of : List ℕ → Result Error ℤ
stoi_of s = elim (stoi s) [ ok n ↦ ok n | err e ↦ err (bad_number e) ]

-- The reply split into address, parameter and data.
pub record Response : Type 0 where
  pub address : ℤ
  pub parameter : ℤ
  pub payload : List ℕ

-- A count is an `int` that `substr` takes as a `size_t`: a negative one is beyond every string.
abbrev pub as_count : ℤ → List ℕ → ℕ
as_count (pos n) s = n
as_count (negsuc n) s = length s

-- The fields of a reply whose checksum is right.
abbrev pub fields : List ℕ → Result Error Response
fields response = do
  addr ← (substr response 0 3 >>= stoi_of)
  paramno ← (substr response 5 3 >>= stoi_of)
  dlen ← (substr response 8 2 >>= stoi_of)
  dat ← substr response 10 (as_count dlen response)
  ok (record { address = addr; parameter = paramno; payload = dat })

unfoldable pub interpret_response_telegram : Bool → List ℕ → Result Error Response
unfolding calculate_checksum
interpret_response_telegram signed response = do
  throw_if (ltb (length response) 4) substr_range
  body ← substr response 0 (length response - 4)
  received ← substr response (length response - 4) 3
  throw_if (not (same_bytes received (calculate_checksum signed body))) invalid_checksum
  fields response

abbrev pub is_number : ℤ → ℕ → Bool
is_number (pos n) k = n == k
is_number (negsuc n) k = false

abbrev pub no_def_text : List ℕ
no_def_text = b'N' ∷ b'O' ∷ b'_' ∷ b'D' ∷ b'E' ∷ b'F' ∷ []

abbrev pub range_text : List ℕ
range_text = b'_' ∷ b'R' ∷ b'A' ∷ b'N' ∷ b'G' ∷ b'E' ∷ []

abbrev pub logic_text : List ℕ
logic_text = b'_' ∷ b'L' ∷ b'O' ∷ b'G' ∷ b'I' ∷ b'C' ∷ []

unfoldable pub validate_response_telegram_parameters : ℕ → ℕ → Response → Result Error (Unit {0})
validate_response_telegram_parameters addr param resp = do
  throw_if (not (is_number resp.address addr)) bad_device_address
  throw_if (not (is_number resp.parameter param)) mismatched_parameter
  throw_if (same_bytes resp.payload no_def_text) no_def
  throw_if (same_bytes resp.payload range_text) out_of_limits
  throw_if (same_bytes resp.payload logic_text) access_violation

module _ (signed : Bool) (exchange : List ℕ → List ℕ) where
  unfoldable pub semantic_command : ℕ → ℕ → PfeifferAction → Option (List ℕ) → Result Error (List ℕ)
  unfolding semantic_message calculate_checksum
  semantic_command addr param readwrite dat = do
    message ← semantic_message addr param readwrite dat
    ok (exchange (telegram signed message))

  unfoldable pub read_cmd_helper : ℕ → ℕ → Result Error (List ℕ)
  unfolding semantic_command interpret_response_telegram validate_response_telegram_parameters
  read_cmd_helper addr param = do
    ret ← semantic_command addr param read none
    resp ← interpret_response_telegram signed ret
    validate_response_telegram_parameters addr param resp
    ok resp.payload

-- The data types of the protocol.
pub data DataType : Type 0 where
  boolean new_boolean positive_integer_long positive_fixed_comma_number : DataType
  symbol_chain_short positive_integer_short symbol_chain_long : DataType

-- `str_from_number(number, dtype)` at a number that prints as `text`: the last case falls through
-- into the `throw`.
unfoldable pub str_from_typed : List ℕ → DataType → Result Error (List ℕ)
str_from_typed text boolean = ok (text ++ text ++ text ++ text ++ text ++ text)
str_from_typed text new_boolean = ok text
str_from_typed text positive_integer_long = ok (set_width 6 b'0' text)
str_from_typed text positive_fixed_comma_number = ok (set_width 6 b'0' text)
str_from_typed text symbol_chain_short = ok (set_width 6 b'0' text)
str_from_typed text positive_integer_short = ok (set_width 3 b'0' text)
str_from_typed text symbol_chain_long = err bad_data_type

unfoldable pub write_cmd_helper :
    Bool → (List ℕ → List ℕ) → ℕ → ℕ → List ℕ → DataType → Result Error (Unit {0})
unfolding str_from_typed semantic_command interpret_response_telegram
    validate_response_telegram_parameters
write_cmd_helper signed exchange addr param text dtype = do
  st ← str_from_typed text dtype
  ret ← semantic_command signed exchange addr param describe (some st)
  resp ← interpret_response_telegram signed ret
  validate_response_telegram_parameters addr param resp
