-- ===== src/Devices/Archon/Modules/HeaterX.antt =====
-- The heater module: devices/archon/archon_module_heaterx.cpp and archon_module_heaterx.h. Doubles are an
-- arbitrary type with a comparison.

use foxtrot.Base.{
  ℕ, Bool, true, false, Option, ◌∷◌, ◌++◌, Result, ok, err, ◌==◌, ◌||◌, if◌then◌else◌,
}
use foxtrot.Base.Int.{ℤ, pos, negsuc}
use foxtrot.Base.Texts.{Text, bytes, stoul}
use foxtrot.Base.Action.{◌>>=◌, give, throw}
use foxtrot.Devices.Archon.{Error, device_error, Member, lift, from_stoi}
use foxtrot.Devices.Archon.Modules.{
  within, read_config_key, write_config_key, read_config_int, read_config_bool, write_config_int,
  write_config_bool,
}

pub data HeaterXSensorTypes : Type 0 where
  dt_670 dt_470 rtd100 rtd1000 : HeaterXSensorTypes

pub data HeaterXSensors : Type 0 where
  sensor_a sensor_b sensor_c : HeaterXSensors

pub data HeaterXHeaters : Type 0 where
  heater_a heater_b : HeaterXHeaters

abbrev pub sensor_char : HeaterXSensors → ℕ
sensor_char sensor_a = b'A'
sensor_char sensor_b = b'B'
sensor_char sensor_c = b'C'

abbrev pub heater_char : HeaterXHeaters → ℕ
heater_char heater_a = b'A'
heater_char heater_b = b'B'

abbrev pub sensor_type_to_int : HeaterXSensorTypes → ℕ
sensor_type_to_int dt_670 = 0
sensor_type_to_int dt_470 = 1
sensor_type_to_int rtd100 = 2
sensor_type_to_int rtd1000 = 3

abbrev pub heater_to_int : HeaterXHeaters → ℕ
heater_to_int heater_a = 0
heater_to_int heater_b = 1

-- With whether it is a heater.
abbrev pub int_to_heater : ℤ → HeaterXHeaters × Bool
int_to_heater (pos i) =
    if i == 0 then (heater_a, true) else if i == 1 then (heater_b, true) else (heater_a, false)
int_to_heater (negsuc _) = (heater_a, false)

abbrev pub sensor_to_int : HeaterXSensors → ℕ
sensor_to_int sensor_a = 0
sensor_to_int sensor_b = 1
sensor_to_int sensor_c = 2

abbrev pub int_to_sensor : ℤ → HeaterXSensors × Bool
int_to_sensor (pos i) =
    if i == 0
    then (sensor_a, true)
    else if i == 1
    then (sensor_b, true)
    else if i == 2
    then (sensor_c, true)
    else (sensor_a, false)
int_to_sensor (negsuc _) = (sensor_a, false)

-- What the cases of `getHeaterSensor` return.
abbrev pub sensor_of : ℤ → Result Error HeaterXSensors
sensor_of (pos sens) =
    if sens == 0
    then ok sensor_a
    else if sens == 1
    then ok sensor_b
    else if sens == 2
    then ok sensor_c
    else err device_error
sensor_of (negsuc _) = err device_error

abbrev pub sensor_key : HeaterXSensors → Text → Text
sensor_key sensor name = bytes "SENSOR" ++ sensor_char sensor ∷ name

abbrev pub heater_key : HeaterXHeaters → Text → Text
heater_key heater name = bytes "HEATER" ++ heater_char heater ∷ name

-- `assert_limits` of integers.
abbrev pub limited : {Dev : Type 0} → ℕ → ℕ → ℤ → Member Dev (Unit {0}) → Member Dev (Unit {0})
limited low high val act = if within low high val then act else throw device_error

module _ {Dev : Type 0} (transact : Text → Dev → Option Text × Dev) (modpos : ℕ) where
  unfoldable pub set_sensor_type : HeaterXSensors → HeaterXSensorTypes → Member Dev (Unit {0})
  unfolding write_config_int
  set_sensor_type sensor type =
      write_config_int transact modpos (sensor_key sensor (bytes "TYPE"))
        (pos (sensor_type_to_int type))

  -- `std::stoul`; the number is cast to a type, whatever it is.
  unfoldable pub get_sensor_type : HeaterXSensors → Member Dev ℕ
  unfolding read_config_key ◌>>=◌
  get_sensor_type sensor =
      read_config_key transact modpos (sensor_key sensor (bytes "TYPE"))
      >>= (λ text. elim (stoul 10 text) [ err e ↦ throw (from_stoi e) | ok n ↦ give n ])

  unfoldable pub set_sensor_current : HeaterXSensors → ℤ → Member Dev (Unit {0})
  unfolding write_config_int
  set_sensor_current sensor curr_na =
      write_config_int transact modpos (sensor_key sensor (bytes "CURRENT")) curr_na

  unfoldable pub get_sensor_current : HeaterXSensors → Member Dev ℤ
  unfolding read_config_int
  get_sensor_current sensor = read_config_int transact modpos (sensor_key sensor (bytes "CURRENT"))

  unfoldable pub set_heater_sensor : HeaterXHeaters → HeaterXSensors → Member Dev (Unit {0})
  unfolding write_config_int
  set_heater_sensor heater sensor =
      write_config_int transact modpos (heater_key heater (bytes "SENSOR"))
        (pos (sensor_to_int sensor))

  unfoldable pub get_heater_sensor : HeaterXHeaters → Member Dev HeaterXSensors
  unfolding read_config_int ◌>>=◌
  get_heater_sensor heater =
      read_config_int transact modpos (heater_key heater (bytes "SENSOR"))
      >>= (λ sens. lift (sensor_of sens))

  unfoldable pub set_heater_enable : HeaterXHeaters → Bool → Member Dev (Unit {0})
  unfolding write_config_bool
  set_heater_enable heater onoff =
      write_config_bool transact modpos (heater_key heater (bytes "ENABLE")) onoff

  unfoldable pub get_heater_enable : HeaterXHeaters → Member Dev Bool
  unfolding read_config_bool
  get_heater_enable heater = read_config_bool transact modpos (heater_key heater (bytes "ENABLE"))

  unfoldable pub set_heater_p : HeaterXHeaters → ℤ → Member Dev (Unit {0})
  unfolding write_config_int
  set_heater_p heater val =
      limited 0 10000 val (write_config_int transact modpos (heater_key heater (bytes "P")) val)

  unfoldable pub get_heater_p : HeaterXHeaters → Member Dev ℤ
  unfolding read_config_int
  get_heater_p heater = read_config_int transact modpos (heater_key heater (bytes "P"))

  unfoldable pub set_heater_i : HeaterXHeaters → ℤ → Member Dev (Unit {0})
  unfolding write_config_int
  set_heater_i heater val =
      limited 0 10000 val (write_config_int transact modpos (heater_key heater (bytes "I")) val)

  unfoldable pub get_heater_i : HeaterXHeaters → Member Dev ℤ
  unfolding read_config_int
  get_heater_i heater = read_config_int transact modpos (heater_key heater (bytes "I"))

  unfoldable pub set_heater_il : HeaterXHeaters → ℤ → Member Dev (Unit {0})
  unfolding write_config_int
  set_heater_il heater val =
      limited 0 10000 val (write_config_int transact modpos (heater_key heater (bytes "IL")) val)

  unfoldable pub get_heater_il : HeaterXHeaters → Member Dev ℤ
  unfolding read_config_int
  get_heater_il heater = read_config_int transact modpos (heater_key heater (bytes "IL"))

  unfoldable pub set_heater_d : HeaterXHeaters → ℤ → Member Dev (Unit {0})
  unfolding write_config_int
  set_heater_d heater val =
      limited 0 10000 val (write_config_int transact modpos (heater_key heater (bytes "D")) val)

  unfoldable pub get_heater_d : HeaterXHeaters → Member Dev ℤ
  unfolding read_config_int
  get_heater_d heater = read_config_int transact modpos (heater_key heater (bytes "D"))

  unfoldable pub set_heater_update_time : ℤ → Member Dev (Unit {0})
  unfolding write_config_int
  set_heater_update_time ms =
      limited 1 30000 ms (write_config_int transact modpos (bytes "HEATERUPDATETIME") ms)

  unfoldable pub get_heater_update_time : Member Dev ℤ
  unfolding read_config_int
  get_heater_update_time = read_config_int transact modpos (bytes "HEATERUPDATETIME")

  unfoldable pub set_heater_ramp : HeaterXHeaters → Bool → Member Dev (Unit {0})
  unfolding write_config_bool
  set_heater_ramp heater onoff =
      write_config_bool transact modpos (heater_key heater (bytes "RAMP")) onoff

  unfoldable pub get_heater_ramp : HeaterXHeaters → Member Dev Bool
  unfolding read_config_bool
  get_heater_ramp heater = read_config_bool transact modpos (heater_key heater (bytes "RAMP"))

  unfoldable pub set_heater_ramp_rate : HeaterXHeaters → ℤ → Member Dev (Unit {0})
  unfolding write_config_int
  set_heater_ramp_rate heater rate_mk_ut =
      write_config_int transact modpos (heater_key heater (bytes "RAMPRATE")) rate_mk_ut

  unfoldable pub get_heater_ramp_rate : HeaterXHeaters → Member Dev ℤ
  unfolding read_config_int
  get_heater_ramp_rate heater =
      read_config_int transact modpos (heater_key heater (bytes "RAMPRATE"))

  unfoldable pub set_heater_label : HeaterXHeaters → Text → Member Dev (Unit {0})
  unfolding write_config_key
  set_heater_label heater label =
      write_config_key transact modpos (heater_key heater (bytes "LABEL")) label

  unfoldable pub get_heater_label : HeaterXHeaters → Member Dev Text
  unfolding read_config_key
  get_heater_label heater = read_config_key transact modpos (heater_key heater (bytes "LABEL"))

  unfoldable pub set_sensor_label : HeaterXSensors → Text → Member Dev (Unit {0})
  unfolding write_config_key
  set_sensor_label sensor label =
      write_config_key transact modpos (sensor_key sensor (bytes "LABEL")) label

  unfoldable pub get_sensor_label : HeaterXSensors → Member Dev Text
  unfolding read_config_key
  get_sensor_label sensor = read_config_key transact modpos (sensor_key sensor (bytes "LABEL"))

  -- The limit is written as a double and read as an integer.
  unfoldable pub get_heater_limit : HeaterXHeaters → Member Dev ℤ
  unfolding read_config_int
  get_heater_limit heater = read_config_int transact modpos (heater_key heater (bytes "LIMIT"))

  module _ {R : Type 0} (print : R → Text) (stod : Text → Result Error R) where
    unfoldable pub set_heater_limit : HeaterXHeaters → R → Member Dev (Unit {0})
    unfolding write_config_key
    set_heater_limit heater lim =
        write_config_key transact modpos (heater_key heater (bytes "LIMIT")) (print lim)

    unfoldable pub set_heater_target : HeaterXHeaters → R → Member Dev (Unit {0})
    unfolding write_config_key
    set_heater_target heater target =
        write_config_key transact modpos (heater_key heater (bytes "TARGET")) (print target)

    unfoldable pub get_heater_target : HeaterXHeaters → Member Dev R
    unfolding read_config_key ◌>>=◌
    get_heater_target heater =
        read_config_key transact modpos (heater_key heater (bytes "TARGET"))
        >>= (λ text. lift (stod text))

    -- From -150 to 50, which are arguments.
    module _ (less : R → R → Bool) (low high : R) where
      abbrev pub assert_limits : R → Member Dev (Unit {0}) → Member Dev (Unit {0})
      assert_limits val act = if less val low || less high val then throw device_error else act

      unfoldable pub set_sensor_lower_limit : HeaterXSensors → R → Member Dev (Unit {0})
      unfolding write_config_key
      set_sensor_lower_limit sensor temp =
          assert_limits temp
            (write_config_key transact modpos (sensor_key sensor (bytes "LOWERLIMIT")) (print temp))

      unfoldable pub set_sensor_upper_limit : HeaterXSensors → R → Member Dev (Unit {0})
      unfolding write_config_key
      set_sensor_upper_limit sensor temp =
          assert_limits temp
            (write_config_key transact modpos (sensor_key sensor (bytes "UPPERLIMIT")) (print temp))

    unfoldable pub get_sensor_lower_limit : HeaterXSensors → Member Dev R
    unfolding read_config_key ◌>>=◌
    get_sensor_lower_limit sensor =
        read_config_key transact modpos (sensor_key sensor (bytes "LOWERLIMIT"))
        >>= (λ text. lift (stod text))

    unfoldable pub get_sensor_upper_limit : HeaterXSensors → Member Dev R
    unfolding read_config_key ◌>>=◌
    get_sensor_upper_limit sensor =
        read_config_key transact modpos (sensor_key sensor (bytes "UPPERLIMIT"))
        >>= (λ text. lift (stod text))
