-- ===== src/Fsm/Cryo.antt =====
-- The cryostat's machine: lsst/fsmd/src/cryo_system_fsm.cpp. Times are whole seconds, and the clock
-- does not run backwards.
pub mod Moves
mod Tests
use foxtrot.Base.{ℕ, ◌-◌, ◌≡◌, Bool, true, false, ◌&&◌, if◌then◌else◌, ltb}
use foxtrot.Fsm.Event.{DataUpdateEvent}

pub data CryoState : Type 0 where
  initial_cryo_state cryostat_empty cryostat_full : CryoState
  cryostat_filling tank_empty tank_refilled : CryoState

-- The current state, and the members of the one instance of `CryostatFilling`, which are static.
pub record Cryo : Type 0 where
  pub current : CryoState
  pub start_time : ℕ
  pub filling_time : ℕ

-- `CryostatFilling::entry`; what the others do at their entry is to report to the server.
unfoldable pub entry : CryoState → ℕ → Cryo → Cryo
entry cryostat_filling now c = record c { start_time = now }
entry _ now c = c

-- `transit<S>()` leaves the current state, makes S the current state and runs its `entry`.
pub record Transits (transit : CryoState → ℕ → Cryo → Cryo) : Type 0 where
  pub enters :
      (s : CryoState) (now : ℕ) (c : Cryo)
      → transit s now c ≡ entry s now (record c { current = s })

pub record CryoConfig (D : Type 0) : Type 0 where
  pub cryo_empty_temp_thresh : D
  pub allowed_pressure_thresh : D
  pub fill_time_preset : ℕ

module _ {D : Type 0} (lt : D → D → Bool) (transit : CryoState → ℕ → Cryo → Cryo)
    (cfg : CryoConfig D) where
  open cfg use {cryo_empty_temp_thresh, allowed_pressure_thresh, fill_time_preset}

  unfoldable pub should_refill : DataUpdateEvent D → Bool
  should_refill ev =
      if lt ev.tank_temp cryo_empty_temp_thresh
      then false
      else if ev.autofill_enabled && lt ev.cryo_pressure allowed_pressure_thresh
      then true
      else if lt allowed_pressure_thresh ev.cryo_pressure
      then false
      else false

  -- `react(const DataUpdateEvent&)` of each state.
  unfoldable pub react_initial : DataUpdateEvent D → ℕ → Cryo → Cryo
  unfolding should_refill
  react_initial ev now c =
      if lt ev.tank_temp cryo_empty_temp_thresh
      then transit cryostat_full now c
      else if should_refill ev
      then transit cryostat_filling now c
      else transit cryostat_empty now c

  unfoldable pub react_empty : DataUpdateEvent D → ℕ → Cryo → Cryo
  unfolding should_refill
  react_empty ev now c = if should_refill ev then transit cryostat_filling now c else c

  unfoldable pub react_full : DataUpdateEvent D → ℕ → Cryo → Cryo
  react_full ev now c =
      if lt cryo_empty_temp_thresh ev.tank_temp then transit cryostat_empty now c else c

  unfoldable pub react_filling : DataUpdateEvent D → ℕ → Cryo → Cryo
  react_filling ev now c =
      if ltb fill_time_preset c.filling_time
      then (if lt ev.tank_temp cryo_empty_temp_thresh
          then transit cryostat_full now c
          else transit tank_empty now c)
      else c

  unfoldable pub react_tank_empty : DataUpdateEvent D → ℕ → Cryo → Cryo
  react_tank_empty ev now c = if ev.tank_refill_flag_set then transit tank_refilled now c else c

  unfoldable pub react_tank_refilled : DataUpdateEvent D → ℕ → Cryo → Cryo
  unfolding should_refill
  react_tank_refilled ev now c = if should_refill ev then transit cryostat_filling now c else c

  abbrev react_in : CryoState → DataUpdateEvent D → ℕ → Cryo → Cryo
  react_in initial_cryo_state = react_initial
  react_in cryostat_empty = react_empty
  react_in cryostat_full = react_full
  react_in cryostat_filling = react_filling
  react_in tank_empty = react_tank_empty
  react_in tank_refilled = react_tank_refilled

  -- `dispatch` of a data update: the current state reacts.
  unfoldable pub react : DataUpdateEvent D → ℕ → Cryo → Cryo
  unfolding react_initial react_empty react_full react_filling react_tank_empty react_tank_refilled
  react ev now c = react_in c.current ev now c

abbrev tick_in : CryoState → ℕ → Cryo → Cryo
tick_in cryostat_filling now c = record c { filling_time = now - c.start_time }
tick_in _ now c = c

-- `dispatch` of a `TimeTickEvent`: only `CryostatFilling` reacts.
unfoldable pub react_tick : ℕ → Cryo → Cryo
react_tick now c = tick_in c.current now c
