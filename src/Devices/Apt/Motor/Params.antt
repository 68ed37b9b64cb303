-- ===== src/Devices/Apt/Motor/Params.antt =====
-- The calls of devices/Thorlabs_APT/APT.cpp that get and set a motor controller's parameters. A position is a
-- 32-bit pattern.
use foxtrot.Base.{ℕ, Bool, Option, none, List, ◌==◌, if◌then◌else◌}
use foxtrot.Base.Action.{◌>>=◌, ◌>>◌, give}
use foxtrot.Devices.Apt.Opcodes.{
  mgmsg_mod_get_chanenablestate, mgmsg_mod_get_hwinfo, mgmsg_mod_req_chanenablestate,
  mgmsg_mod_req_hwinfo, mgmsg_mod_set_chanenablestate, mgmsg_mot_get_homeparams,
  mgmsg_mot_get_limswitchparams, mgmsg_mot_get_poscounter, mgmsg_mot_get_velparams,
  mgmsg_mot_req_homeparams, mgmsg_mot_req_limswitchparams, mgmsg_mot_req_poscounter,
  mgmsg_mot_req_velparams, mgmsg_mot_set_homeparams, mgmsg_mot_set_limswitchparams,
  mgmsg_mot_set_poscounter, mgmsg_mot_set_velparams,
}
use foxtrot.Devices.Apt.Structs.{
  HwInfo, hwinfo_layout, VelocityParams, velocity_params_layout, HomeParams, homeparams_layout,
  LimitSwitchParams, limitswitchparams_layout, poscounter_layout,
}
use foxtrot.Devices.Apt.{
  Destination, MotorChannel, channel_code, Apt, transmit_message, transmit_to_channel,
  transmit_data, receive_message_sync_check, request_response_struct,
}

unfoldable pub set_position_counter : Destination → MotorChannel → ℕ → Apt (Unit {0})
unfolding transmit_data
set_position_counter dest chan val =
    transmit_data mgmsg_mot_set_poscounter
      (poscounter_layout.pack
        (record { chan_ident = channel_code chan; position_counter_value = val }))
      dest

unfoldable pub set_homeparams : Destination → HomeParams → Apt (Unit {0})
unfolding transmit_data
set_homeparams dest params =
    transmit_data mgmsg_mot_set_homeparams (homeparams_layout.pack params) dest

unfoldable pub set_limitswitchparams : Destination → LimitSwitchParams → Apt (Unit {0})
unfolding transmit_data
set_limitswitchparams dest params =
    transmit_data mgmsg_mot_set_limswitchparams (limitswitchparams_layout.pack params) dest

unfoldable pub set_velocity_params : Destination → VelocityParams → Apt (Unit {0})
unfolding transmit_data
set_velocity_params dest velpar =
    transmit_data mgmsg_mot_set_velparams (velocity_params_layout.pack velpar) dest

unfoldable pub set_channelenable : Destination → MotorChannel → Bool → Apt (Unit {0})
unfolding transmit_message
set_channelenable dest chan onoff =
    transmit_message mgmsg_mod_set_chanenablestate (channel_code chan)
      (if onoff then 0x01 else 0x02) dest

module _ (flushed : List ℕ → List ℕ) where
  -- The request names no channel.
  unfoldable pub get_position_counter : Destination → MotorChannel → Apt ℕ
  unfolding request_response_struct
  get_position_counter dest _ = do
    repl ←
        request_response_struct flushed poscounter_layout mgmsg_mot_req_poscounter
          mgmsg_mot_get_poscounter dest 0 0 none
    give repl.position_counter_value

  unfoldable pub get_homeparams : Destination → MotorChannel → Apt HomeParams
  unfolding request_response_struct
  get_homeparams dest chan =
      request_response_struct flushed homeparams_layout mgmsg_mot_req_homeparams
        mgmsg_mot_get_homeparams dest (channel_code chan) 0 none

  unfoldable pub get_limitswitchparams : Destination → MotorChannel → Apt LimitSwitchParams
  unfolding request_response_struct
  get_limitswitchparams dest chan =
      request_response_struct flushed limitswitchparams_layout mgmsg_mot_req_limswitchparams
        mgmsg_mot_get_limswitchparams dest (channel_code chan) 0 none

  unfoldable pub get_velocity_params : Destination → MotorChannel → Apt VelocityParams
  unfolding request_response_struct
  get_velocity_params dest chan =
      request_response_struct flushed velocity_params_layout mgmsg_mot_req_velparams
        mgmsg_mot_get_velparams dest (channel_code chan) 0 none

  unfoldable pub get_channelenable : Destination → MotorChannel → Apt Bool
  unfolding transmit_to_channel receive_message_sync_check
  get_channelenable dest chan = do
    transmit_to_channel mgmsg_mod_req_chanenablestate dest chan
    ret ← receive_message_sync_check flushed mgmsg_mod_get_chanenablestate dest
    give (ret.p2 == 0x01)

  unfoldable pub get_hwinfo : Destination → Option Destination → Apt HwInfo
  unfolding request_response_struct
  get_hwinfo dest expd_src =
      request_response_struct flushed hwinfo_layout mgmsg_mod_req_hwinfo mgmsg_mod_get_hwinfo dest 0
        0 expd_src
