-- ===== src/Devices.antt =====
-- Drivers of single devices, from the directory devices/.
pub mod Archon
pub mod Rly8
pub mod Pfeiffer
pub mod Apt
pub mod TCube
