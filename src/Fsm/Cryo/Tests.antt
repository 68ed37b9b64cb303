-- ===== src/Fsm/Cryo/Tests.antt =====
-- The cryostat's machine on concrete data, with numbers in the place of doubles.
use foxtrot.Base.{ℕ, ◌≡◌, refl, true, false, ltb}
use foxtrot.Fsm.Event.{DataUpdateEvent}
use foxtrot.Fsm.Cryo.{
  CryoState, cryostat_empty, cryostat_filling, Cryo, CryoConfig, Transits, entry, should_refill,
  react,
}
use foxtrot.Fsm.Cryo.Moves.{react_starts_filling}

unfoldable transit : CryoState → ℕ → Cryo → Cryo
transit s now c = entry s now (record c { current = s })

transits : Transits transit
unfolding transit
transits = record { enters = λ s now c. refl }

abbrev cfg : CryoConfig ℕ
cfg = record { cryo_empty_temp_thresh = 100; allowed_pressure_thresh = 5; fill_time_preset = 60 }

-- A warm tank at a low pressure.
abbrev warm : DataUpdateEvent ℕ
warm = record {
  pump_pressure = 1;
  cryo_pressure = 1;
  tank_temp = 200;
  stage_temp = 200;
  pump_rot_percent = 0;
  pump_rot_speed = 0;
  pump_venting = false;
  valve_open = true;
  pump_enabled = true;
  autofill_enabled = true;
  experiment_running = false;
  lowvibration_requested = false;
  tank_refill_flag_set = false;
}

abbrev at_empty : Cryo
at_empty = record { current = cryostat_empty; start_time = 0; filling_time = 61 }

abbrev at_filling : Cryo
at_filling = record { current = cryostat_filling; start_time = 1000; filling_time = 61 }

begins : (react ltb transit cfg warm 1000 at_empty).current ≡ cryostat_filling
unfolding react transit entry
begins = refl

react_starts_filling_example : (ltb 200 100 ≡ false) × (true ≡ true) × (ltb 1 5 ≡ true)
react_starts_filling_example =
    react_starts_filling ltb transit transits cfg warm 1000 at_empty (λ e. absurd (cc)) begins

refill : should_refill ltb transit cfg warm ≡ true
unfolding should_refill
refill = refl
