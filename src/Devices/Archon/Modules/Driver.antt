-- ===== src/Devices/Archon/Modules/Driver.antt =====
-- The clock driver module: devices/archon/archon_module_driver.cpp and archon_module_driver.h. Doubles are an
-- arbitrary type with a comparison.
use foxtrot.Base.{ℕ, Bool, Option, ◌++◌, Result, ◌||◌, not}
use foxtrot.Base.Int.{ℤ}
use foxtrot.Base.Decimal.{decimal}
use foxtrot.Base.Texts.{Text, bytes}
use foxtrot.Base.Action.{◌>>=◌}
use foxtrot.Devices.Archon.{Error, Member, lift}
use foxtrot.Devices.Archon.Modules.{
  within, checked, read_config_key, write_config_key, read_config_bool, write_config_bool,
}

abbrev pub check_channel : ℤ → Bool
check_channel = within 1 8

module _ {Dev : Type 0} (transact : Text → Dev → Option Text × Dev) (modpos : ℕ) where
  unfoldable pub get_label : ℤ → Member Dev Text
  unfolding read_config_key
  get_label channel =
      checked (check_channel channel)
        (read_config_key transact modpos (bytes "LABEL" ++ decimal channel))

  unfoldable pub set_label : ℤ → Text → Member Dev (Unit {0})
  unfolding write_config_key
  set_label channel val =
      checked (check_channel channel)
        (write_config_key transact modpos (bytes "LABEL" ++ decimal channel) val)

  unfoldable pub set_enable : ℤ → Bool → Member Dev (Unit {0})
  unfolding write_config_bool
  set_enable channel onoff =
      checked (check_channel channel)
        (write_config_bool transact modpos (bytes "ENABLE" ++ decimal channel) onoff)

  unfoldable pub get_enable : ℤ → Member Dev Bool
  unfolding read_config_bool
  get_enable channel =
      checked (check_channel channel)
        (read_config_bool transact modpos (bytes "ENABLE" ++ decimal channel))

  module _ {R : Type 0} where
    -- `val < 0.001 || val > 1000`
    abbrev pub is_slew_rate : (R → R → Bool) → R → R → R → Bool
    is_slew_rate less low high val = not (less val low || less high val)

    unfoldable pub get_fast_slew_rate : (Text → Result Error R) → ℤ → Member Dev R
    unfolding read_config_key ◌>>=◌
    get_fast_slew_rate stod channel = checked (check_channel channel) (
        read_config_key transact modpos (bytes "FASTSLEWRATE" ++ decimal channel)
        >>= (λ text. lift (stod text)))

    unfoldable pub set_fast_slew_rate :
        (R → R → Bool) → R → R → (R → Text) → ℤ → R → Member Dev (Unit {0})
    unfolding write_config_key
    set_fast_slew_rate less low high print channel val = checked (check_channel channel) (
        checked (is_slew_rate less low high val)
          (write_config_key transact modpos (bytes "FASTSLEWRATE" ++ decimal channel) (print val)))

    unfoldable pub get_slow_slew_rate : (Text → Result Error R) → ℤ → Member Dev R
    unfolding read_config_key ◌>>=◌
    get_slow_slew_rate stod channel = checked (check_channel channel) (
        read_config_key transact modpos (bytes "SLOWSLEWRATE" ++ decimal channel)
        >>= (λ text. lift (stod text)))

    unfoldable pub set_slow_slew_rate :
        (R → R → Bool) → R → R → (R → Text) → ℤ → R → Member Dev (Unit {0})
    unfolding write_config_key
    set_slow_slew_rate less low high print channel val = checked (check_channel channel) (
        checked (is_slew_rate less low high val)
          (write_config_key transact modpos (bytes "SLOWSLEWRATE" ++ decimal channel) (print val)))
