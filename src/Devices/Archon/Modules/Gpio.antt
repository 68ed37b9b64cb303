-- ===== src/Devices/Archon/Modules/Gpio.antt =====
-- Digital inputs and outputs of a module: devices/archon/archon_GPIO.cpp.
use foxtrot.Base.{ℕ, Bool, true, false, Option, none, some, ◌++◌, ◌==◌, if◌then◌else◌}
use foxtrot.Base.Int.{ℤ, pos, negsuc}
use foxtrot.Base.Decimal.{decimal}
use foxtrot.Base.Texts.{Text, bytes}
use foxtrot.Base.Action.{throw}
use foxtrot.Devices.Archon.{out_of_range, Member}
use foxtrot.Devices.Archon.Modules.{
  read_config_key, write_config_key, read_config_int, read_config_bool, write_config_int,
  write_config_bool,
}

abbrev pub pairstr : ℤ → Option Text
pairstr (pos pair) =
    if pair == 1
    then some (bytes "12")
    else if pair == 2
    then some (bytes "34")
    else if pair == 3
    then some (bytes "56")
    else if pair == 4
    then some (bytes "78")
    else none
pairstr (negsuc _) = none

pub data GpioSource : Type 0 where
  low high clocked vcpu : GpioSource

abbrev pub source_to_int : GpioSource → ℕ
source_to_int low = 0
source_to_int high = 1
source_to_int clocked = 2
source_to_int vcpu = 3

-- With whether it is a source.
abbrev pub int_to_source : ℤ → GpioSource × Bool
int_to_source (pos n) =
    if n == 0
    then (low, true)
    else if n == 1
    then (high, true)
    else if n == 2
    then (clocked, true)
    else if n == 3
    then (vcpu, true)
    else (low, false)
int_to_source (negsuc _) = (low, false)

module _ {Dev : Type 0} (transact : Text → Dev → Option Text × Dev) (modpos : ℕ) where
  unfoldable pub get_dio_power : Member Dev Bool
  unfolding read_config_bool
  get_dio_power = read_config_bool transact modpos (bytes "DIO_POWER")

  unfoldable pub set_dio_power : Bool → Member Dev (Unit {0})
  unfolding write_config_bool
  set_dio_power onoff = write_config_bool transact modpos (bytes "DIO_POWER") onoff

  unfoldable pub get_direction : ℤ → Member Dev Bool
  unfolding read_config_bool
  get_direction pair = elim (pairstr pair) [
    | none ↦ throw out_of_range
    | some text ↦ read_config_bool transact modpos (bytes "DIO_DIR" ++ text)
  ]

  unfoldable pub set_direction : ℤ → Bool → Member Dev (Unit {0})
  unfolding write_config_bool
  set_direction pair inout = elim (pairstr pair) [
    | none ↦ throw out_of_range
    | some text ↦ write_config_bool transact modpos (bytes "DIO_DIR" ++ text) inout
  ]

  unfoldable pub get_label : ℤ → Member Dev Text
  unfolding read_config_key
  get_label ch = read_config_key transact modpos (bytes "DIO_LABEL" ++ decimal ch)

  unfoldable pub set_label : ℤ → Text → Member Dev (Unit {0})
  unfolding write_config_key
  set_label ch label = write_config_key transact modpos (bytes "DIO_LABEL" ++ decimal ch) label

  -- The number is cast to a source, whatever it is.
  unfoldable pub get_source : ℤ → Member Dev ℤ
  unfolding read_config_int
  get_source ch = read_config_int transact modpos (bytes "DIO_SOURCE" ++ decimal ch)

  unfoldable pub set_source : ℤ → GpioSource → Member Dev (Unit {0})
  unfolding write_config_int
  set_source ch source =
      write_config_int transact modpos (bytes "DIO_SOURCE" ++ decimal ch)
        (pos (source_to_int source))
