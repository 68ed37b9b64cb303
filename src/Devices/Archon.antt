-- ===== src/Devices/Archon.antt =====
-- The Archon CCD controller: devices/archon/archon.cpp and archon.h, its state, commands and configuration
-- lines. A text is the list of its bytes. `transact` is the network and the controller: from the bytes
-- that are written, and the controller, to the line that is read, nothing if the connection fails.
-- The counters of the object are never negative; `_states` is never read, and left out.
pub mod Settings
pub mod Params
pub mod Frame
pub mod Modules
pub mod Commands
pub mod Store
pub mod Writes
pub mod Refinement
pub mod Sequences
pub mod States
pub mod Responses
pub mod Applied
pub mod ParamValues
pub mod Buffers
mod Tests
use foxtrot.Base.{
  ℕ, zero, suc, ◌+◌, ◌-◌, ◌%◌, ◌≡◌, Bool, true, false, ◌&&◌, ◌||◌, not, Option, none, some, List,
  [], ◌∷◌, ◌++◌, Result, ok, err, ltb, leb, ◌==◌, if◌then◌else◌, length, take, drop, bytes_eq,
  number_eq,
}
use foxtrot.Base.Int.{ℤ, pos, negsuc}
use foxtrot.Base.Decimal.{set_width, decimal, stoi, StoiError}
use foxtrot.Base.Texts.{Text, bytes, hex, split_at, stoul}
use foxtrot.Base.Dict.{Dict, lookup, insert}
use foxtrot.Base.Action.{Action, ◌>>=◌, ◌>>◌, give, throw, modify}

-- The exceptions: `ProtocolError`, `DeviceError` and those of the standard library. `undefined` is no
-- exception of the code: it stands for undefined behaviour.
pub data Error : Type 0 where
  protocol_error device_error logic_error runtime_error out_of_range invalid_argument undefined :
      Error

abbrev pub from_stoi : StoiError → Error
from_stoi StoiError.invalid_argument = invalid_argument
from_stoi StoiError.stoi_out_of_range = out_of_range

pub record Archon (Dev : Type 0) : Type 0 where
  pub order : ℕ
  pub system : Dict Text Text
  pub status : Dict Text Text
  pub frame : Dict Text Text
  pub config_line_map : Dict Text ℕ
  pub state_names : List Text
  pub parammap : Dict Text ℤ
  pub constantmap : Dict Text ℤ
  pub ad_tap_line_map : Dict ℕ ℕ
  pub config_lines : ℕ
  pub taplines : ℕ
  pub arch_tmr : ℕ
  pub sys_tmr : ℕ
  pub dev : Dev

-- `std::isprint`
abbrev pub is_print : ℕ → Bool
is_print c = leb 32 c && leb c 126

-- `ret.erase(std::remove_if(...), ret.end())`
abbrev pub printable : Text → Text
printable [] = []
printable (c ∷ cs) = let rest = printable cs in if is_print c then c ∷ rest else rest

-- Behind the two digits of the order number.
abbrev pub behind_order : Text → Result Error Text
behind_order (a ∷ b ∷ reply) = ok reply
behind_order _ = err out_of_range

unfoldable pub parse_reply : ℕ → Text → Result Error Text
parse_reply order [] = err protocol_error
parse_reply order (c ∷ rest) =
    if c == b'<'
    then (elim (stoul 16 (take 2 rest)) [
      | err e ↦ err (from_stoi e)
      | ok n ↦ if n == order then behind_order rest else err protocol_error
    ])
    else err (if c == b'?' then device_error else protocol_error)

-- What `cmd` writes.
unfoldable pub framed : ℕ → Text → Text
framed order request = b'>' ∷ set_width 2 48 (hex order) ++ (request ++ (10 ∷ []))

abbrev pub this_order : ℕ → ℕ
this_order order = if order == 0xFE then 0 else order

abbrev pub hex4 : ℕ → Text
hex4 n = set_width 4 48 (hex n)

abbrev pub Member : Type 0 → Type 0 → Type 0
Member Dev A = Action Error (Archon Dev) A

-- What throws and changes nothing.
abbrev pub lift : {Dev A : Type 0} → Result Error A → Member Dev A
lift r s = (r, s)

abbrev pub whole : Result StoiError ℤ → Result Error ℤ
whole (err e) = err (from_stoi e)
whole (ok n) = ok n

-- `std::stoi`
abbrev pub to_int : {Dev : Type 0} → Text → Member Dev ℤ
to_int text s = (whole (stoi text), s)

module _ {Dev : Type 0} (transact : Text → Dev → Option Text × Dev) where
  unfoldable pub cmd : Text → Archon Dev → Result Error Text × Archon Dev
  unfolding parse_reply framed
  cmd request s =
      let order = this_order s.order in
      let (reply, dev) = transact (framed order request) s.dev in
      (
        (elim reply [ none ↦ err protocol_error | some ret ↦ parse_reply order (printable ret) ]),
        record s { order = (order + 1) % 65536; dev = dev },
      )

  -- `cmd` where the code drops the answer.
  unfoldable pub order_cmd : Text → Member Dev (Unit {0})
  unfolding cmd ◌>>=◌
  order_cmd request = cmd request >>= (λ _. give tt)

  unfoldable pub write_line : Text → ℕ → Member Dev ℕ
  unfolding cmd ◌>>=◌
  write_line line num = cmd (bytes "WCONFIG" ++ (hex4 num ++ line)) >>= (λ _. give num)

  -- A negative number adds a line.
  unfoldable pub write_numbered : Text → ℤ → Member Dev ℕ
  unfolding write_line
  write_numbered line (negsuc _) s =
      write_line line s.config_lines (record s { config_lines = s.config_lines + 1 })
  write_numbered line (pos n) s =
      if ltb s.config_lines n then (err logic_error, s) else write_line line n s

  unfoldable pub write_config_line : Text → ℤ → Member Dev ℕ
  unfolding write_numbered
  write_config_line line num s =
      if leb 2047 s.config_lines || leb 2047 (length line)
      then (err device_error, s)
      else write_numbered line num s

  unfoldable pub read_config_line : ℕ → Bool → Member Dev Text
  unfolding cmd
  read_config_line num override_existing s =
      if ltb s.config_lines num && not override_existing
      then (err logic_error, s)
      else cmd (bytes "RCONFIG" ++ hex4 num) s

  -- The part of a line behind the sign.
  abbrev pub value_of : Text → Member Dev Text
  value_of line = elim (split_at b'=' line) [ none ↦ throw device_error | some (_, val) ↦ give val ]

  unfoldable pub read_known : Option ℕ → Member Dev Text
  unfolding read_config_line ◌>>=◌
  read_known none = throw runtime_error
  read_known (some linenum) = read_config_line linenum false >>= value_of

  unfoldable pub read_key_value : Text → Member Dev Text
  unfolding read_known
  read_key_value key s = read_known (lookup key s.config_line_map) s

  unfoldable pub write_known : Option ℕ → Text → Text → Member Dev (Unit {0})
  unfolding write_config_line ◌>>=◌
  write_known none key val = write_config_line (key ++ b'=' ∷ val) (negsuc 0) >>= (λ linenum.
      modify (λ t. record t { config_line_map = insert key linenum t.config_line_map }))
  write_known (some linenum) key val =
      write_config_line (key ++ b'=' ∷ val) (pos linenum) >>= (λ _. give tt)

  unfoldable pub write_key_value : Text → Text → Member Dev (Unit {0})
  unfolding write_known
  write_key_value key val s = write_known (lookup key s.config_line_map) key val s

  -- A value that is read as a number, and one that is written as a number.
  unfoldable pub read_int : Text → Member Dev ℤ
  unfolding read_key_value ◌>>=◌
  read_int key = read_key_value key >>= to_int

  unfoldable pub write_int : Text → ℤ → Member Dev (Unit {0})
  unfolding write_key_value
  write_int key n = write_key_value key (decimal n)
