-- ===== src/Fsm.antt =====
-- The state machines of lsst/fsmd: the cryostat (src/cryo_system_fsm.cpp) and the vacuum system
-- (src/vacuum_system_fsm.cpp). `D` is the type of doubles with its comparison `<`. The library
-- tinyfsm is an argument: what `transit<S>()` does is stated in `Transits`.
pub mod Event
pub mod Cryo
pub mod Vacuum
