-- ===== src/Devices/Archon/Modules.antt =====
-- The modules of the controller: devices/archon/archon_modules.cpp and archon_modules.h. Their settings are
-- lines of the configuration. A module's position counts from zero.
pub mod Bias
pub mod Lvx
pub mod Gpio
pub mod Driver
pub mod Ad
pub mod HeaterX
pub mod Inputs
pub mod Kept
use foxtrot.Base.{
  ℕ, ◌+◌, Bool, true, false, Option, List, [], ◌∷◌, ◌++◌, Result, ok, err, leb, ◌&&◌,
}
use foxtrot.Base.Int.{ℤ, pos, negsuc}
use foxtrot.Base.Decimal.{decimal, set_width}
use foxtrot.Base.Texts.{Text, bytes, hex}
use foxtrot.Base.Dict.{Dict}
use foxtrot.Base.Action.{◌>>=◌, give, throw}
use foxtrot.Devices.Archon.{
  Archon, Error, out_of_range, Member, to_int, order_cmd, read_key_value, write_key_value,
}
use foxtrot.Devices.Archon.Settings.{bool_int, int_bool}
use foxtrot.Devices.Archon.Frame.{at, int_at}

abbrev pub module_key : ℕ → ℕ → Text → Text
module_key modpos delim name = bytes "MOD" ++ (decimal (pos (modpos + 1)) ++ delim ∷ name)

unfoldable pub get_module_variable_string : ℕ → Text → Dict Text Text → ℕ → Result Error Text
get_module_variable_string modpos name map delim = at (module_key modpos delim name) map

-- `std::stoi` and `std::stof` of a variable.
unfoldable pub extract_int : ℕ → Text → Dict Text Text → Result Error ℤ
extract_int modpos name map = int_at (module_key modpos b'/' name) map

module _ {R : Type 0} (stof : Text → Result Error R) where
  unfoldable pub extract_float : ℕ → Text → Dict Text Text → Result Error R
  unfolding get_module_variable_string
  extract_float modpos name map = elim (get_module_variable_string modpos name map b'/') [
    | err e ↦ err e
    | ok val ↦ stof val
  ]

-- What an operation checks first: a number within two bounds.
abbrev pub within : ℕ → ℕ → ℤ → Bool
within low high (pos n) = leb low n && leb n high
within low high (negsuc _) = false

abbrev pub checked : {Dev A : Type 0} → Bool → Member Dev A → Member Dev A
checked true act s = act s
checked false act s = (err out_of_range, s)

module _ {Dev : Type 0} (transact : Text → Dev → Option Text × Dev) (modpos : ℕ) where
  unfoldable pub read_config_key : Text → Member Dev Text
  unfolding read_key_value
  read_config_key subkey = read_key_value transact (module_key modpos b'/' subkey)

  unfoldable pub write_config_key : Text → Text → Member Dev (Unit {0})
  unfolding write_key_value
  write_config_key key val = write_key_value transact (module_key modpos b'/' key) val

  unfoldable pub apply : Member Dev (Unit {0})
  unfolding order_cmd
  apply = order_cmd transact (bytes "APPLYMOD" ++ set_width 2 48 (hex modpos))

  -- Values that are numbers.
  unfoldable pub read_config_int : Text → Member Dev ℤ
  unfolding read_config_key ◌>>=◌
  read_config_int subkey = read_config_key subkey >>= to_int

  unfoldable pub read_config_bool : Text → Member Dev Bool
  unfolding read_config_int ◌>>=◌
  read_config_bool subkey = read_config_int subkey >>= (λ n. give (int_bool n))

  unfoldable pub write_config_int : Text → ℤ → Member Dev (Unit {0})
  unfolding write_config_key
  write_config_int key n = write_config_key key (decimal n)

  unfoldable pub write_config_bool : Text → Bool → Member Dev (Unit {0})
  unfolding write_config_int
  write_config_bool key onoff = write_config_int key (bool_int onoff)

module _ {Dev R : Type 0} (stod : Text → Result Error R) (modpos : ℕ) where
  -- A value of the status.
  abbrev pub status_value : Text → Member Dev R
  status_value key s =
      (elim (at (module_key modpos b'/' key) s.status) [ err e ↦ err e | ok val ↦ stod val ], s)

  unfoldable pub get_temp : Member Dev R
  get_temp = status_value (bytes "TEMP")
