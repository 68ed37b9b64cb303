-- ===== src/Fsm/Event.antt =====
-- lsst/fsmd/include/foxtrot/fsmd/common_events.hh
use foxtrot.Base.{ℕ, Bool}

pub record DataUpdateEvent (D : Type 0) : Type 0 where
  pub pump_pressure : D
  pub cryo_pressure : D
  pub tank_temp : D
  pub stage_temp : D
  pub pump_rot_percent : D
  pub pump_rot_speed : ℕ
  pub pump_venting : Bool
  pub valve_open : Bool
  pub pump_enabled : Bool
  pub autofill_enabled : Bool
  pub experiment_running : Bool
  pub lowvibration_requested : Bool
  pub tank_refill_flag_set : Bool
