-- ===== src/Devices/Apt/Motor/Blocking.antt =====
-- That the blocking moves of devices/Thorlabs_APT/APT.cpp end.
use foxtrot.Devices.Apt.{Apt}
