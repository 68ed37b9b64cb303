-- ===== src/Devices/Archon/Modules/Kept.antt =====
-- Settings of modules that are written and read back.
use foxtrot.Base.{
  ℕ, ◌+◌, ◌<◌, ◌≤◌, ◌≡◌, refl, ap, ◌∙◌, arith, Option, some, ◌∷◌, ◌++◌, ok, if◌then◌else◌, length,
  length-append, bytes_eq, same_refl,
}
use foxtrot.Base.Int.{ℤ, pos}
use foxtrot.Base.Decimal.{decimal}
use foxtrot.Base.Numerals.{decimal-length}
use foxtrot.Base.Texts.{Text, bytes}
use foxtrot.Base.Action.{bind_eq}
use foxtrot.Devices.Archon.{Archon, lift, read_int, read_key_value, write_key_value}
use foxtrot.Devices.Archon.Commands.{IsPrintable, after_cmd}
use foxtrot.Devices.Archon.Store.{
  Controller, IsKey, is_key-IsKey, setting, put, Represents, after_write, write_key_value_eq,
  rconfig,
}
use foxtrot.Devices.Archon.Writes.{after_write-Represents}
use foxtrot.Devices.Archon.Refinement.{read_key_value_eq, read_int_eq}
use foxtrot.Devices.Archon.Sequences.{decimal-IsPrintable, decimal-IsKey, append-IsKey}
use foxtrot.Devices.Archon.Modules.{module_key}
use foxtrot.Devices.Archon.Modules.Bias.{Bias, channel_key}
use foxtrot.Devices.Archon.Modules.Lvx
use foxtrot.Devices.Archon.Modules.Lvx.{Lvx}
use foxtrot.Devices.Archon.Modules.HeaterX.{
  HeaterXSensors, sensor_a, sensor_b, sensor_c, HeaterXHeaters, heater_a, heater_b, sensor_to_int,
  sensor_of, heater_key, set_heater_sensor, get_heater_sensor,
}

pub module_key-IsKey : (modpos : ℕ) (name : Text) → IsKey name → IsKey (module_key modpos b'/' name)
module_key-IsKey modpos name k =
    append-IsKey (bytes "MOD") (decimal (pos (modpos + 1)) ++ b'/' ∷ name)
      (is_key-IsKey (bytes "MOD") refl)
      (append-IsKey (decimal (pos (modpos + 1))) (b'/' ∷ name) (decimal-IsKey (modpos + 1))
        ((refl, refl), k))

abbrev pub label_key : {R : Type 0} → ℕ → Bias R → ℤ → Text
label_key modpos bias channel =
    module_key modpos b'/' (channel_key bias.nmemonic (bytes "_LABEL") channel)

heater_key-IsKey : (heater : HeaterXHeaters) → IsKey (heater_key heater (bytes "SENSOR"))
heater_key-IsKey heater_a = is_key-IsKey (heater_key heater_a (bytes "SENSOR")) refl
heater_key-IsKey heater_b = is_key-IsKey (heater_key heater_b (bytes "SENSOR")) refl

sensor_le : (sensor : HeaterXSensors) → sensor_to_int sensor ≤ 2
sensor_le sensor_a = omega arith
sensor_le sensor_b = omega arith
sensor_le sensor_c = omega arith

sensor_of_lem : (sensor : HeaterXSensors) → sensor_of (pos (sensor_to_int sensor)) ≡ ok sensor
sensor_of_lem sensor_a = refl
sensor_of_lem sensor_b = refl
sensor_of_lem sensor_c = refl

module _ {Dev : Type 0} (transact : Text → Dev → Option Text × Dev)
    (controller : Controller transact) where
  -- A line that fits is written, and then read.
  module _ (key val : Text) (s : Archon Dev) (abs : Text → Option Text)
      (r : Represents transact controller s abs) (k : IsKey key) (p : IsPrintable val)
      (room : s.config_lines < 2047) (short : length (setting key val) < 2047) where
    abbrev written : Archon Dev
    written = after_write transact controller key val s

    kept_write : write_key_value transact key val s ≡ (ok tt, written)
    kept_write = write_key_value_eq transact controller key val s r k p room short

    kept_read :
        (n : ℕ) × (read_key_value transact key written
          ≡ (ok val, after_cmd transact (rconfig n) written))
    kept_read =
        let (n, read, _) =
          read_key_value_eq transact controller key val written (put key val abs)
            (after_write-Represents transact controller key val s abs r k p room)
            (ap (λ b. if b then some val else abs key) (same_refl key)) in
        (n, read)

  -- The sensor of a heater is read back as it was set.
  pub get_heater_sensor-set_heater_sensor :
      (modpos : ℕ) (heater : HeaterXHeaters) (sensor : HeaterXSensors) (s : Archon Dev)
      (abs : Text → Option Text)
      → Represents transact controller s abs
      → s.config_lines < 2047
      → modpos < 12
      → let done = set_heater_sensor transact modpos heater sensor s in
        (done.0 ≡ ok tt) × ((get_heater_sensor transact modpos heater done.1).0 ≡ ok sensor)
  unfolding set_heater_sensor get_heater_sensor read_int
  get_heater_sensor-set_heater_sensor modpos heater sensor s abs r room small =
      let name = heater_key heater (bytes "SENSOR") in
      let key = module_key modpos b'/' name in
      let val = decimal (pos (sensor_to_int sensor)) in
      let key_lem = module_key-IsKey modpos name (heater_key-IsKey heater) in
      let printed = decimal-IsPrintable (sensor_to_int sensor) in
      let short : length (setting key val) < 2047 = omega (
        arith,
        length-append key (b'=' ∷ val),
        length-append (decimal (pos (modpos + 1))) (b'/' ∷ name),
        decimal-length (modpos + 1),
        decimal-length (sensor_to_int sensor),
        sensor_le sensor,
      ) in
      let t = written key val s abs r key_lem printed room short in
      let (n, read) = kept_read key val s abs r key_lem printed room short in
      let u = after_cmd transact (rconfig n) t in
      rw (kept_write key val s abs r key_lem printed room short) (
        refl,
        ap (λ q. q.0)
              (bind_eq (read_int transact key) (λ sens. lift (sensor_of sens)) t u
                (pos (sensor_to_int sensor))
                (read_int_eq transact controller key (pos (sensor_to_int sensor)) t u
                  (omega (arith, sensor_le sensor)) read))
            ∙ sensor_of_lem sensor,
      )
