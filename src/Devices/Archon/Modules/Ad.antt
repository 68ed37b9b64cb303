-- ===== src/Devices/Archon/Modules/Ad.antt =====
-- The converter module: devices/archon/archon_module_AD.cpp and archon_module_AD.h. Doubles are an arbitrary
-- type with a comparison.
use foxtrot.Base.{ℕ, Bool, Option, ◌++◌, Result, ◌||◌, not}
use foxtrot.Base.Int.{ℤ}
use foxtrot.Base.Decimal.{decimal}
use foxtrot.Base.Texts.{Text, bytes}
use foxtrot.Base.Action.{◌>>=◌}
use foxtrot.Devices.Archon.{Error, Member, lift}
use foxtrot.Devices.Archon.Modules.{
  within, checked, read_config_key, write_config_key, read_config_bool, write_config_bool,
}

abbrev pub check_channel_num : ℤ → Bool
check_channel_num = within 1 4

module _ {Dev : Type 0} (transact : Text → Dev → Option Text × Dev) (modpos : ℕ) where
  unfoldable pub get_preamp_gain : Member Dev Bool
  unfolding read_config_bool
  get_preamp_gain = read_config_bool transact modpos (bytes "PREAMPGAIN")

  unfoldable pub set_preamp_gain : Bool → Member Dev (Unit {0})
  unfolding write_config_bool
  set_preamp_gain hgain = write_config_bool transact modpos (bytes "PREAMPGAIN") hgain

  module _ {R : Type 0} where
    unfoldable pub get_clamp : (Text → Result Error R) → ℤ → Member Dev R
    unfolding read_config_key ◌>>=◌
    get_clamp stod channel = checked (check_channel_num channel) (
        read_config_key transact modpos (bytes "CLAMP" ++ decimal channel)
        >>= (λ text. lift (stod text)))

    -- From -2.5 to 2.5, which are arguments.
    unfoldable pub set_clamp : (R → R → Bool) → R → R → (R → Text) → ℤ → R → Member Dev (Unit {0})
    unfolding write_config_key
    set_clamp less low high print channel val = checked (check_channel_num channel) (
        checked (not (less val low || less high val))
          (write_config_key transact modpos (bytes "CLAMP" ++ decimal channel) (print val)))
