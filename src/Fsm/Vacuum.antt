-- ===== src/Fsm/Vacuum.antt =====
-- The vacuum system's machine: lsst/fsmd/src/vacuum_system_fsm.cpp and
-- lsst/fsmd/include/foxtrot/fsmd/vacuum_system_fsm.hh. A reaction gives the state that it leaves the
-- machine in, and whether it threw. `transit` is the library's: it makes a state the current one.
mod Tests
use foxtrot.Base.{◌≡◌, refl, Bool, true, false, not, ◌&&◌, if◌then◌else◌, arith, ◌↔◌}
use foxtrot.Fsm.Event.{DataUpdateEvent}

pub data VacuumState : Type 0 where
  initial_vacuum_state high_vibration_operation pump_spinning_down pump_venting : VacuumState
  pumped_to_atmosphere pump_spinning_up top_up_needed low_vibration_running : VacuumState
  cryostat_pump_down emergency_bailout : VacuumState

pub record VacuumConfig (D : Type 0) : Type 0 where
  pub pumpdown_thresh : D
  pub ambient_thresh : D
  pub pump_lowvibration_rot_thresh : D

module _ {D : Type 0} (lt : D → D → Bool) (transit : VacuumState → VacuumState → VacuumState)
    (cfg : VacuumConfig D) where
  open cfg use {pumpdown_thresh, ambient_thresh}

  -- `InitialVacuumState::react`: two tests one after the other, and then the `throw`.
  react_initial : DataUpdateEvent D → VacuumState → VacuumState × Bool
  react_initial ev s =
      let s1 =
        if not ev.pump_enabled && ev.valve_open && lt ambient_thresh ev.pump_pressure
        then transit pumped_to_atmosphere s
        else s in
      let s2 =
        if ev.pump_enabled && ev.valve_open && lt pumpdown_thresh ev.cryo_pressure
        then transit cryostat_pump_down s1
        else if ev.pump_enabled && ev.valve_open
        then transit high_vibration_operation s1
        else s1 in
      (s2, true)

  react_pump_down : DataUpdateEvent D → VacuumState → VacuumState × Bool
  react_pump_down ev s =
      if ev.pump_enabled && lt ev.cryo_pressure pumpdown_thresh && not ev.lowvibration_requested
      then (transit high_vibration_operation s, false)
      else if ev.pump_enabled && lt ev.cryo_pressure pumpdown_thresh
      then (transit pump_spinning_down s, false)
      else (s, false)

  -- `PumpVenting::react`: the test only writes to the log.
  react_venting : DataUpdateEvent D → VacuumState → VacuumState × Bool
  react_venting ev s = (transit pumped_to_atmosphere s, false)

  abbrev react_in : VacuumState → DataUpdateEvent D → VacuumState → VacuumState × Bool
  react_in initial_vacuum_state = react_initial
  react_in cryostat_pump_down = react_pump_down
  react_in pump_venting = react_venting
  react_in _ = λ ev s. (s, false)

  pub react : DataUpdateEvent D → VacuumState → VacuumState × Bool
  unfolding react_initial react_pump_down react_venting
  react ev s = react_in s ev s

  -- The machine throws exactly when it reacts in its initial state, also when it has just found the
  -- state that the event calls for.
  pub react_throws :
      (ev : DataUpdateEvent D) (s : VacuumState)
      → ((react ev s).1 ≡ true) ↔ (s ≡ initial_vacuum_state)
  unfolding react
  react_throws ev initial_vacuum_state = (λ h. refl, λ h. refl)
  react_throws ev cryostat_pump_down = (λ h. ground arith, λ h. ground arith)
  react_throws ev s = (λ h. ground arith, λ h. ground arith)
