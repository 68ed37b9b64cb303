-- ===== src/Devices/Archon/Modules/Bias.antt =====
-- Bias channels of a module: devices/archon/archon_module_generic_bias.cpp. Doubles are an arbitrary type.
use foxtrot.Base.{ℕ, Bool, true, false, Option, ◌++◌, Result, ok, err, ◌||◌, not, if◌then◌else◌}
use foxtrot.Base.Int.{ℤ, pos, negsuc}
use foxtrot.Base.Decimal.{decimal}
use foxtrot.Base.Texts.{Text, bytes}
use foxtrot.Base.Action.{◌>>=◌}
use foxtrot.Devices.Archon.{Error, out_of_range, Member, lift}
use foxtrot.Devices.Archon.Modules.{
  within, checked, read_config_key, write_config_key, read_config_int, read_config_bool,
  write_config_int, write_config_bool, status_value,
}

pub record Bias (R : Type 0) : Type 0 where
  pub nmemonic : Text
  pub numchans : ℕ
  pub lowlimit : R
  pub highlimit : R

abbrev pub channel_key : Text → Text → ℤ → Text
channel_key nmemonic name channel = nmemonic ++ (name ++ decimal channel)

module _ {R : Type 0} where
  abbrev pub check_channel_number : Bias R → ℤ → Bool
  check_channel_number bias channel = within 1 bias.numchans channel

  unfoldable pub reconfigure : Text → ℕ → R → R → Bias R → Bias R
  reconfigure nmemonic numchans lowlimit highlimit bias = record {
    nmemonic = nmemonic;
    numchans = numchans;
    lowlimit = lowlimit;
    highlimit = highlimit;
  }

  -- No operation calls this.
  unfoldable pub check_limits : (R → R → Bool) → Bias R → R → Result Error (Unit {0})
  check_limits less bias val =
      if less val bias.lowlimit || less bias.highlimit val then err out_of_range else ok tt

module _ {Dev R : Type 0} (transact : Text → Dev → Option Text × Dev) (modpos : ℕ)
    (bias : Bias R) where
  abbrev pub bias_key : Text → ℤ → Text
  bias_key = channel_key bias.nmemonic

  unfoldable pub set_label : ℤ → Text → Member Dev (Unit {0})
  unfolding write_config_key
  set_label channel label =
      checked (check_channel_number bias channel)
        (write_config_key transact modpos (bias_key (bytes "_LABEL") channel) label)

  unfoldable pub get_label : ℤ → Member Dev Text
  unfolding read_config_key
  get_label channel =
      checked (check_channel_number bias channel)
        (read_config_key transact modpos (bias_key (bytes "_LABEL") channel))

  abbrev is_negative : ℤ → Bool
  is_negative (pos _) = false
  is_negative (negsuc _) = true

  unfoldable pub set_order : ℤ → ℤ → Member Dev (Unit {0})
  unfolding write_config_int
  set_order channel sequence = checked (check_channel_number bias channel) (
      checked (not (is_negative sequence))
        (write_config_int transact modpos (bias_key (bytes "_ORDER") channel) sequence))

  unfoldable pub get_order : ℤ → Member Dev ℤ
  unfolding read_config_int
  get_order channel =
      checked (check_channel_number bias channel)
        (read_config_int transact modpos (bias_key (bytes "_ORDER") channel))

  unfoldable pub set_enable : ℤ → Bool → Member Dev (Unit {0})
  unfolding write_config_bool
  set_enable channel onoff =
      checked (check_channel_number bias channel)
        (write_config_bool transact modpos (bias_key (bytes "_ENABLE") channel) onoff)

  unfoldable pub get_enable : ℤ → Member Dev Bool
  unfolding read_config_bool
  get_enable channel =
      checked (check_channel_number bias channel)
        (read_config_bool transact modpos (bias_key (bytes "_ENABLE") channel))

  -- Printed with three digits by an argument.
  unfoldable pub set_v : (R → Text) → ℤ → R → Member Dev (Unit {0})
  unfolding write_config_key
  set_v print channel v =
      checked (check_channel_number bias channel)
        (write_config_key transact modpos (bias_key (bytes "_V") channel) (print v))

  module _ (stod : Text → Result Error R) where
    unfoldable pub get_v : ℤ → Member Dev R
    unfolding read_config_key ◌>>=◌
    get_v channel = checked (check_channel_number bias channel) (
        read_config_key transact modpos (bias_key (bytes "_V") channel)
        >>= (λ text. lift (stod text)))

    unfoldable pub measure_i : ℤ → Member Dev R
    measure_i channel =
        checked (check_channel_number bias channel)
          (status_value stod modpos (bias_key (bytes "_I") channel))

    unfoldable pub measure_v : ℤ → Member Dev R
    measure_v channel =
        checked (check_channel_number bias channel)
          (status_value stod modpos (bias_key (bytes "_V") channel))
