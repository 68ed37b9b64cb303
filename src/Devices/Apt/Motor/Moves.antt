-- ===== src/Devices/Apt/Motor/Moves.antt =====
-- The moves of a motor, and the wait for the end of a move: devices/Thorlabs_APT/APT.cpp. A distance is a
-- 32-bit pattern. The time that the code estimates for a move is only logged; the requests that the
-- estimate makes are modelled.
use foxtrot.Base.{ℕ, suc, zero, ◌+◌, Bool, true, List, ◌∷◌, if◌then◌else◌, length}
use foxtrot.Base.Action.{◌>>=◌, ◌>>◌, throw}
use foxtrot.Devices.Apt.Opcodes.{
  Opcode, mgmsg_mot_move_absolute, mgmsg_mot_move_completed, mgmsg_mot_move_home,
  mgmsg_mot_move_homed, mgmsg_mot_move_relative, mgmsg_mot_move_stop,
}
use foxtrot.Devices.Apt.Bytes.{u32}
use foxtrot.Devices.Apt.{
  motor_status_failed, crash_suspected, unexpected_completion, still_homing, out_of_fuel,
  Destination, MotorChannel, channel_code, Apt, transmit_message, transmit_data, flush,
  receive_sync_common,
}
use foxtrot.Devices.Apt.Motor.{
  AptDeviceTraits, is_homing, statusbits_of, Verdict, go_on, complete, crashed, failed, unexpected,
  judge, guarded, get_status, is_limited,
}
use foxtrot.Devices.Apt.Motor.Params.{get_velocity_params}

-- `get_move_request_header_data`
abbrev pub move_request : ℕ → MotorChannel → List ℕ
move_request distance chan = channel_code chan ∷ 0 ∷ u32 distance

unfoldable pub start_absolute_move : Destination → MotorChannel → ℕ → Apt (Unit {0})
unfolding transmit_data
start_absolute_move dest chan target =
    transmit_data mgmsg_mot_move_absolute (move_request target chan) dest

unfoldable pub start_relative_move : Destination → MotorChannel → ℕ → Apt (Unit {0})
unfolding transmit_data
start_relative_move dest chan movedist =
    transmit_data mgmsg_mot_move_relative (move_request movedist chan) dest

unfoldable pub start_home_channel : Destination → MotorChannel → Apt (Unit {0})
unfolding transmit_message
start_home_channel dest chan = transmit_message mgmsg_mot_move_home (channel_code chan) 0 dest

unfoldable pub stop_move : Destination → MotorChannel → Bool → Apt (Unit {0})
unfolding transmit_message
stop_move dest chan immediate =
    transmit_message mgmsg_mot_move_stop (channel_code chan) (if immediate then 0x01 else 0x02) dest

module _ (traits : AptDeviceTraits) (flushed : List ℕ → List ℕ) where
  -- What a round of the `while(true)` of `wait_blocking_move` does in the end.
  unfoldable pub act_on :
      Destination → MotorChannel → (Bool → ℕ → Apt (Unit {0})) → Verdict → Apt (Unit {0})
  unfolding flush stop_move
  act_on dest chan continue (go_on init_limit_state retries) = continue init_limit_state retries
  act_on dest chan continue complete = flush flushed
  act_on dest chan continue crashed = stop_move dest chan true >> throw crash_suspected
  act_on dest chan continue failed = flush flushed >> throw motor_status_failed
  act_on dest chan continue unexpected = throw unexpected_completion

  -- The `while(true)` of `wait_blocking_move`; each round takes a message off the port.
  unfoldable pub wait_loop : Opcode → Destination → MotorChannel → ℕ → Bool → ℕ → Apt (Unit {0})
  unfolding receive_sync_common judge act_on
  wait_loop completion dest chan zero init_limit_state retries = throw out_of_fuel
  wait_loop completion dest chan (suc fuel) init_limit_state retries = do
    (reply, received) ← receive_sync_common flushed dest
    verdict ← (λ port. (judge traits completion init_limit_state retries reply received, port))
    act_on dest chan
        (λ init_limit_state' retries'.
          wait_loop completion dest chan fuel init_limit_state' retries')
        verdict

  unfoldable pub wait_blocking_move : Opcode → Destination → MotorChannel → Bool → Apt (Unit {0})
  unfolding guarded wait_loop
  wait_blocking_move completion dest chan init_limit_state =
      guarded true dest
        (λ port. wait_loop completion dest chan (length port.incoming + 1) init_limit_state 0 port)

  unfoldable pub absolute_move_blocking : Destination → MotorChannel → ℕ → Apt (Unit {0})
  unfolding get_status get_velocity_params is_limited start_absolute_move wait_blocking_move
  absolute_move_blocking dest chan target = do
    _ ← get_status traits flushed dest chan
    _ ← get_velocity_params flushed dest chan
    limstate ← is_limited traits flushed dest chan
    start_absolute_move dest chan target
    wait_blocking_move traits.complete_success_code dest chan limstate

  unfoldable pub relative_move_blocking : Destination → MotorChannel → ℕ → Apt (Unit {0})
  unfolding get_velocity_params is_limited start_relative_move wait_blocking_move
  relative_move_blocking dest chan target = do
    _ ← get_velocity_params flushed dest chan
    limitstate ← is_limited traits flushed dest chan
    start_relative_move dest chan target
    wait_blocking_move mgmsg_mot_move_completed dest chan limitstate

  unfoldable pub home_move_blocking : Destination → MotorChannel → Apt (Unit {0})
  unfolding is_limited get_status stop_move start_home_channel wait_blocking_move
  home_move_blocking dest chan = do
    limitstate ← is_limited traits flushed dest chan
    _ ← get_status traits flushed dest chan
    stop_move dest chan true
    stat ← get_status traits flushed dest chan
    if is_homing (statusbits_of stat) then throw still_homing else (do
      start_home_channel dest chan
      wait_blocking_move mgmsg_mot_move_homed dest chan limitstate)
