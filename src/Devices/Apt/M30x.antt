-- ===== src/Devices/Apt/M30x.antt =====
-- The M30X stage: devices/Thorlabs_APT/M30X.cpp, and what it uses of devices/Thorlabs_APT/APT_defaultdest.cpp.
-- A limit and a velocity are 32-bit patterns of the `long` that is given.
pub mod Homing
mod Tests
use foxtrot.Base.{
  if◌then◌else◌, ℕ, ◌+◌, ◌%◌, ◌^◌, ◌<◌, ◌≤◌, ◌≡◌, ◌⊎◌, inl, inr, refl, sym, ◌∙◌, ap, arith, Bool,
  true, false, none, some, List, [], ◌∷◌, ◌++◌, Result, ok, err, leb,
}
use foxtrot.Base.Action.{◌>>=◌, ◌>>◌, give, bind_eq, then_eq}
use foxtrot.Devices.Apt.Opcodes.{
  mgmsg_mot_get_homeparams, mgmsg_mot_req_homeparams, mgmsg_mot_set_homeparams, opcode_code,
  mgmsg_mot_req_dcstatusupdate, mgmsg_mot_get_dcstatusupdate, mgmsg_mot_move_completed,
  mgmsg_mot_resume_endofmovemsgs, mgmsg_mot_get_limswitchparams, mgmsg_mot_req_limswitchparams,
}
use foxtrot.Devices.Apt.Structs.{
  HomeParams, homeparams_layout, LimitSwitchParams, limitswitchparams_layout,
}
use foxtrot.Devices.Apt.Layouts.{HomeParamsFits, LimitSwitchParamsFits, layouts-IsLayout}
use foxtrot.Devices.Apt.Frames.{long, frame}
use foxtrot.Devices.Apt.Replies.{request_response_struct-pack}
use foxtrot.Devices.Apt.{
  Destination, host, generic_usb, bay1, channel_1, channel_code, Port, Apt, short_message,
  data_message, transmit_data, transmit_message, flush, request_response_struct,
}
use foxtrot.Devices.Apt.Motor.{AptDeviceTraits, stop_update_messages}
use foxtrot.Devices.Apt.Motor.Params.{
  get_homeparams, set_homeparams, get_limitswitchparams, set_limitswitchparams,
}
use foxtrot.Devices.Apt.Motor.Moves.{home_move_blocking}

abbrev pub m30x_traits : AptDeviceTraits
m30x_traits = record {
  status_request_code = mgmsg_mot_req_dcstatusupdate;
  status_get_code = mgmsg_mot_get_dcstatusupdate;
  complete_success_code = mgmsg_mot_move_completed;
  n_ignore_failed_motor_msgs = 10;
  require_enable_updates_for_status = false;
}

unfoldable pub start_motor_messages : Destination → Apt (Unit {0})
unfolding transmit_message
start_motor_messages dest = transmit_message mgmsg_mot_resume_endofmovemsgs 0x0 0x0 dest

module _ (flushed : List ℕ → List ℕ) where
  -- The constructor.
  unfoldable pub m30x : Apt (Unit {0})
  unfolding stop_update_messages flush start_motor_messages
  m30x = stop_update_messages generic_usb >> flush flushed >> start_motor_messages generic_usb

  -- `CCWsoft <= -required_distance` compares an `unsigned` with a `long`, of 64 bits: no sum of the two
  -- sides wraps.
  unfoldable pub check_soft_limits : Bool → ℕ → Apt Bool
  unfolding get_limitswitchparams
  check_soft_limits home_left required_distance = do
    limswitchparams ← get_limitswitchparams flushed generic_usb channel_1
    give (
        if home_left
        then leb required_distance limswitchparams.cw_soft
        else leb (limswitchparams.ccw_soft + required_distance) 0)

  unfoldable pub safe_home_move : Bool → ℕ → Apt (Unit {0})
  unfolding check_soft_limits get_homeparams set_homeparams home_move_blocking
  safe_home_move home_left velocity = do
    safe ← check_soft_limits home_left 170000
    if safe
        then (do
          homeparms ← get_homeparams flushed generic_usb channel_1
          set_homeparams generic_usb (record homeparms {
            home_dir = if home_left then 2 else 1;
            limit_switch = if home_left then 1 else 4;
            home_velocity = velocity;
          })
          home_move_blocking m30x_traits flushed bay1 channel_1)
        else give tt

  unfoldable pub set_soft_limits : ℕ → ℕ → Apt (Unit {0})
  unfolding get_limitswitchparams set_limitswitchparams
  set_soft_limits cw_limit ccw_limit = do
    limswitchparams ← get_limitswitchparams flushed generic_usb channel_1
    set_limitswitchparams generic_usb
        (record limswitchparams { cw_soft = cw_limit; ccw_soft = ccw_limit })
