-- ===== src/Harness/Tests.antt =====
-- A harness with three devices, of which the second, `true`, has a lock of its own, number 7.
use foxtrot.Base.{ℕ, Bool, true, false, Option, some, number_eq}
use foxtrot.Harness.{DeviceHarness, empty, add_device}

abbrev is_own : Bool → Bool
is_own dev = dev

abbrev seven : Bool → Option ℕ
seven dev = some 7

abbrev added : Bool → DeviceHarness Bool → DeviceHarness Bool
unfolding add_device
added dev h = (add_device is_own dev h).1

abbrev three : DeviceHarness Bool
unfolding added
three = added false (added true (added false empty))
