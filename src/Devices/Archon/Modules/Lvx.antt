-- ===== src/Devices/Archon/Modules/Lvx.antt =====
-- The bias modules LVX and HVX: devices/archon/archon_module_lvxbias.cpp and archon_module_hvxbias.cpp. Two
-- groups of channels, of low and of high current.
use foxtrot.Base.{ℕ, Bool, true, false, Option, ◌++◌, Result}
use foxtrot.Base.Int.{ℤ}
use foxtrot.Base.Decimal.{decimal}
use foxtrot.Base.Texts.{Text, bytes}
use foxtrot.Devices.Archon.{Error, Member}
use foxtrot.Devices.Archon.Modules.{within, checked, read_config_int, write_config_int}
use foxtrot.Devices.Archon.Modules.Bias
use foxtrot.Devices.Archon.Modules.Bias.{Bias, check_channel_number}

pub record Lvx (R : Type 0) : Type 0 where
  pub lcbias : Bias R
  pub hcbias : Bias R

-- The doubles 14 and 31, with their negations, are arguments.
unfoldable pub archon_lvx : {R : Type 0} → R → R → Lvx R
archon_lvx minus_14 plus_14 = record {
  lcbias = record {
    nmemonic = bytes "LVLC";
    numchans = 24;
    lowlimit = minus_14;
    highlimit = plus_14;
  };
  hcbias = record {
    nmemonic = bytes "LVHC";
    numchans = 6;
    lowlimit = minus_14;
    highlimit = plus_14;
  };
}

unfoldable pub archon_hvx : {R : Type 0} → R → R → R → R → Lvx R
unfolding archon_lvx Bias.reconfigure
archon_hvx minus_14 plus_14 null plus_31 =
    let lvx = archon_lvx minus_14 plus_14 in
    record {
      lcbias = Bias.reconfigure (bytes "HVLC") 24 null plus_31 lvx.lcbias;
      hcbias = Bias.reconfigure (bytes "HVHC") 5 null plus_31 lvx.hcbias;
    }

-- `HC` chooses the group.
abbrev pub group : {R : Type 0} → Lvx R → Bool → Bias R
group lvx true = lvx.hcbias
group lvx false = lvx.lcbias

module _ {Dev R : Type 0} (transact : Text → Dev → Option Text × Dev) (modpos : ℕ)
    (lvx : Lvx R) where
  unfoldable pub set_label : Bool → ℤ → Text → Member Dev (Unit {0})
  unfolding Bias.set_label
  set_label hc channel label = Bias.set_label transact modpos (group lvx hc) channel label

  unfoldable pub get_label : Bool → ℤ → Member Dev Text
  unfolding Bias.get_label
  get_label hc channel = Bias.get_label transact modpos (group lvx hc) channel

  unfoldable pub set_order : Bool → ℤ → ℤ → Member Dev (Unit {0})
  unfolding Bias.set_order
  set_order hc channel sequence = Bias.set_order transact modpos (group lvx hc) channel sequence

  unfoldable pub get_order : Bool → ℤ → Member Dev ℤ
  unfolding Bias.get_order
  get_order hc channel = Bias.get_order transact modpos (group lvx hc) channel

  unfoldable pub set_enable : Bool → ℤ → Bool → Member Dev (Unit {0})
  unfolding Bias.set_enable
  set_enable hc channel onoff = Bias.set_enable transact modpos (group lvx hc) channel onoff

  unfoldable pub get_enable : Bool → ℤ → Member Dev Bool
  unfolding Bias.get_enable
  get_enable hc channel = Bias.get_enable transact modpos (group lvx hc) channel

  unfoldable pub set_v : (R → Text) → Bool → ℤ → R → Member Dev (Unit {0})
  unfolding Bias.set_v
  set_v print hc channel v = Bias.set_v transact modpos (group lvx hc) print channel v

  unfoldable pub get_v : (Text → Result Error R) → Bool → ℤ → Member Dev R
  unfolding Bias.get_v
  get_v stod hc channel = Bias.get_v transact modpos (group lvx hc) stod channel

  unfoldable pub measure_i : (Text → Result Error R) → Bool → ℤ → Member Dev R
  unfolding Bias.measure_i
  measure_i stod hc channel = Bias.measure_i transact modpos (group lvx hc) stod channel

  unfoldable pub measure_v : (Text → Result Error R) → Bool → ℤ → Member Dev R
  unfolding Bias.measure_v
  measure_v stod hc channel = Bias.measure_v transact modpos (group lvx hc) stod channel

  -- The key is that of LVX also on an HVX module.
  unfoldable pub set_limit : ℤ → ℤ → Member Dev (Unit {0})
  unfolding write_config_int
  set_limit channel limit_ma = checked (check_channel_number lvx.hcbias channel) (
      checked (within 0 500 limit_ma)
        (write_config_int transact modpos (bytes "LVHC_IL" ++ decimal channel) limit_ma))

  unfoldable pub get_limit : ℤ → Member Dev ℤ
  unfolding read_config_int
  get_limit channel =
      checked (check_channel_number lvx.hcbias channel)
        (read_config_int transact modpos (bytes "LVHC_IL" ++ decimal channel))
