-- ===== src/Devices/Archon/Tests.antt =====
-- Runs against a controller that keeps lines.
mod Memory
mod Image
use foxtrot.Base.{
  ◌+◌, ◌<◌, ◌≤◌, ◌≡◌, refl, ap, arith, Bool, true, false, Option, none, some, List, [], ◌∷◌, ◌++◌,
  Result, ok, err, length, inl, inr, ltb, ◌&&◌, if◌then◌else◌, ◌==◌, bytes_eq,
}
use foxtrot.Base.Int.{ℤ, pos, negsuc}
use foxtrot.Base.Decimal.{decimal, stoi}
use foxtrot.Base.Texts.{Text, bytes, getlines, split_at}
use foxtrot.Base.Dict.{Dict, lookup}
use foxtrot.Devices.Archon.{
  Archon, Error, device_error, runtime_error, out_of_range, protocol_error, this_order, cmd,
  read_key_value, write_key_value, read_int,
}
use foxtrot.Devices.Archon.Settings.{set_int}
use foxtrot.Devices.Archon.Params.{
  get_param, set_param, load_timing_script, write_timing_state, clear_config,
}
use foxtrot.Devices.Archon.Commands.{answer, after_cmd, cmd-answer}
use foxtrot.Devices.Archon.Store.{is_key-IsKey, setting, put, Represents, after_write}
use foxtrot.Devices.Archon.Writes.{after_write-Represents}
use foxtrot.Devices.Archon.Refinement.{read_key_value-Represents, write_key_value-Represents}
use foxtrot.Devices.Archon.Sequences.{unlines, numbered, put_all, load_timing_script_lem}
use foxtrot.Devices.Archon.States.{state_lines, keyed, write_timing_state_new}
use foxtrot.Devices.Archon.ParamValues.{get_param-set_param}
use foxtrot.Devices.Archon.Applied.{
  empty_counts, forget-Represents, read_int-set_int, clear_config-Represents,
}
use foxtrot.Devices.Archon.Modules.{get_module_variable_string}
use foxtrot.Devices.Archon.Modules.Lvx
use foxtrot.Devices.Archon.Modules.HeaterX.{
  heater_b, sensor_c, set_heater_sensor, get_heater_sensor,
}
use foxtrot.Devices.Archon.Modules.Inputs.{
  HeaterXVariables, read_numbers, update_variables, update_variables_inputs,
}
use foxtrot.Devices.Archon.Modules.Kept.{get_heater_sensor-set_heater_sensor}
use foxtrot.Devices.Archon.Tests.Memory.{
  Lines, memory, memory_controller, memory_applycds, memory_clearconfig,
}

abbrev start : Archon Lines
start = record {
  order = 0;
  system = [];
  status = [];
  frame = [];
  config_line_map = [];
  state_names = [];
  parammap = [];
  constantmap = [];
  ad_tap_line_map = [];
  config_lines = 0;
  taplines = 0;
  arch_tmr = 0;
  sys_tmr = 0;
  dev = λ n. [];
}

abbrev nothing : Text → Option Text
nothing key = none

start-Represents : Represents memory memory_controller start nothing
start-Represents = forget-Represents memory memory_controller start (omega arith)

-- With no parameters yet.
abbrev counted : Archon Lines
counted = after_write memory memory_controller (bytes "PARAMETERS") (bytes "0") start

abbrev counts : Text → Option Text
counts = put (bytes "PARAMETERS") (bytes "0") nothing

counted-Represents : Represents memory memory_controller counted counts
counted-Represents =
    after_write-Represents memory memory_controller (bytes "PARAMETERS") (bytes "0") start nothing
      start-Represents (is_key-IsKey (bytes "PARAMETERS") refl) (refl, tt) (omega arith)

-- Always the answer to the first command.
abbrev parrot : Text → Lines → Option Text × Lines
parrot request lines = (some (answer 0 (bytes "OK")), lines)

cmd-answer_example :
    (cmd parrot (bytes "STATUS") start ≡ (ok (bytes "OK"), after_cmd parrot (bytes "STATUS") start))
    × (1 ≤ (cmd parrot (bytes "STATUS") start).1.order)
    × ((cmd parrot (bytes "STATUS") start).1.order ≤ 254)
cmd-answer_example =
    cmd-answer parrot (bytes "STATUS") (bytes "OK") 0 start (omega arith) (omega arith)
      (refl, (refl, tt)) refl

write_key_value-Represents_example :
    let done = write_key_value memory (bytes "RAWSEL") (bytes "7") start in
    (done.0 ≡ ok tt)
    × Represents memory memory_controller done.1 (put (bytes "RAWSEL") (bytes "7") nothing)
write_key_value-Represents_example =
    write_key_value-Represents memory memory_controller (bytes "RAWSEL") (bytes "7") start nothing
      start-Represents (is_key-IsKey (bytes "RAWSEL") refl) (refl, tt)

read_key_value-Represents_example :
    let done = read_key_value memory (bytes "PARAMETERS") counted in
    (done.0 ≡ ok (bytes "0")) × Represents memory memory_controller done.1 counts
read_key_value-Represents_example =
    read_key_value-Represents memory memory_controller (bytes "PARAMETERS") counted counts
      counted-Represents

abbrev script : List Text
script = bytes "A" ∷ bytes "GOTO A" ∷ []

load_timing_script_lem_example :
    let done = load_timing_script memory (unlines script) start in
    (done.0 ≡ ok tt)
    × Represents memory memory_controller done.1
        (put (bytes "LINES") (decimal (pos (length script))) (put_all (numbered 0 script) nothing))
unfolding decimal
load_timing_script_lem_example =
    load_timing_script_lem memory memory_controller script start nothing start-Represents
      (
        (is_key-IsKey (bytes "LINE0") refl, (refl, tt), omega arith),
        (
          (
            is_key-IsKey (bytes "LINE1") refl,
            (refl, (refl, (refl, (refl, (refl, (refl, tt)))))),
            omega arith,
          ),
          tt,
        ),
      )
      (omega arith)

abbrev state_entries : List (Text × Text)
state_entries = (bytes "MOD9", bytes "1") ∷ []

write_timing_state_new_example :
    let done =
      write_timing_state memory (bytes "RGHIGH") (unlines (state_lines state_entries)) start in
    (done.0 ≡ ok tt)
    × (done.1.state_names ≡ bytes "RGHIGH" ∷ [])
    × Represents memory memory_controller done.1
        (put (bytes "STATES") (decimal (pos 0)) (put_all (keyed 0 state_entries) nothing))
unfolding decimal
write_timing_state_new_example =
    write_timing_state_new memory memory_controller (bytes "RGHIGH") state_entries start nothing
      start-Represents refl (is_key-IsKey (bytes "MOD9") refl, tt)
      ((is_key-IsKey (bytes "STATE0/MOD9") refl, (refl, tt), omega arith), tt) (omega arith)
      (omega arith)

get_param-set_param_example :
    let done = set_param memory (bytes "Exposures") 3 counted in
    (done.0 ≡ ok tt)
    × ((get_param memory (bytes "Exposures") done.1).0 ≡ ok 3)
    × (lookup (bytes "Exposures") done.1.parammap ≡ some (pos 0))
unfolding decimal
get_param-set_param_example =
    get_param-set_param memory memory_controller (bytes "Exposures") 3 0 counted counts
      counted-Represents (is_key-IsKey (bytes "Exposures") refl) (omega arith)
      (inr (refl, refl, omega arith)) (omega arith) (omega arith)

read_int-set_int_example :
    let done = set_int memory (bytes "RAWSEL") (bytes "APPLYCDS") (negsuc 4) start in
    (done.0 ≡ ok tt)
    × ((read_int memory (bytes "RAWSEL") done.1).0 ≡ ok (negsuc 4))
    × Represents memory memory_controller done.1 (put (bytes "RAWSEL") (decimal (negsuc 4)) nothing)
unfolding decimal memory_controller
read_int-set_int_example =
    read_int-set_int memory memory_controller (bytes "RAWSEL") (bytes "APPLYCDS") (negsuc 4) start
      nothing start-Represents (λ order lines h. ap (λ r. r.0) (memory_applycds order lines h))
      (λ order m lines h. ap (λ r. r.1 m) (memory_applycds order lines h))
      (is_key-IsKey (bytes "RAWSEL") refl) (omega arith) (omega arith) (omega arith)

clear_config-Represents_example :
    let done = clear_config memory counted in
    (done.0 ≡ ok tt)
    × Represents memory memory_controller done.1 (put_all empty_counts (λ _. none))
    × (done.1.config_lines ≡ 5)
    × (done.1.state_names ≡ [])
    × (done.1.parammap ≡ [])
clear_config-Represents_example =
    clear_config-Represents memory memory_controller counted (omega arith)
      (λ order lines h. memory_clearconfig order lines h)

abbrev items : List (Text × Text)
items = (bytes "P", bytes "4") ∷ (bytes "T", bytes "=") ∷ []

-- The status of a module in the first place, with all inputs low.
abbrev heater_status : Dict Text Text
heater_status =
    (bytes "MOD1/HEATERAOUTPUT", bytes "0.5")
    ∷ (bytes "MOD1/HEATERBOUTPUT", bytes "0.0")
    ∷ (bytes "MOD1/TEMPA", bytes "21.0")
    ∷ (bytes "MOD1/TEMPB", bytes "20.0")
    ∷ (bytes "MOD1/TEMPC", bytes "19.0")
    ∷ (bytes "MOD1/HEATERAP", bytes "100")
    ∷ (bytes "MOD1/HEATERAI", bytes "2")
    ∷ (bytes "MOD1/HEATERAD", bytes "0")
    ∷ (bytes "MOD1/HEATERBP", bytes "100")
    ∷ (bytes "MOD1/HEATERBI", bytes "2")
    ∷ (bytes "MOD1/HEATERBD", bytes "0")
    ∷ (bytes "MOD1/DINPUTS", bytes "00000000")
    ∷ []

abbrev heater_variables : HeaterXVariables Text
heater_variables = record {
  heater_a_output = bytes "0.5";
  heater_b_output = bytes "0.0";
  temp_a = bytes "21.0";
  temp_b = bytes "20.0";
  temp_c = bytes "19.0";
  heater_ap = pos 100;
  heater_ai = pos 2;
  heater_ad = pos 0;
  heater_bp = pos 100;
  heater_bi = pos 2;
  heater_bd = pos 0;
  gpio = true ∷ true ∷ true ∷ true ∷ true ∷ true ∷ true ∷ true ∷ [];
}

update_variables_inputs_example :
    update_variables (λ text. ok text) 0 heater_status ≡ ok heater_variables
unfolding get_module_variable_string read_numbers stoi decimal
update_variables_inputs_example =
    update_variables_inputs (λ text. ok text) 0 heater_status (bytes "00000000") refl (omega arith)
