-- ===== src/Fsm/Vacuum/Tests.antt =====
-- The vacuum system's machine on concrete data, with numbers in the place of doubles.
use foxtrot.Base.{ℕ, true, false}
use foxtrot.Fsm.Event.{DataUpdateEvent}
use foxtrot.Fsm.Vacuum.{VacuumConfig}

abbrev cfg : VacuumConfig ℕ
cfg = record { pumpdown_thresh = 10; ambient_thresh = 900; pump_lowvibration_rot_thresh = 5 }

-- A stopped pump at the ambient pressure.
abbrev ambient : DataUpdateEvent ℕ
ambient = record {
  pump_pressure = 1000;
  cryo_pressure = 1000;
  tank_temp = 290;
  stage_temp = 290;
  pump_rot_percent = 0;
  pump_rot_speed = 0;
  pump_venting = false;
  valve_open = true;
  pump_enabled = false;
  autofill_enabled = false;
  experiment_running = false;
  lowvibration_requested = false;
  tank_refill_flag_set = false;
}
