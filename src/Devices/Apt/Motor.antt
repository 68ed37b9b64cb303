-- ===== src/Devices/Apt/Motor.antt =====
-- The status of a motor controller, and what the code makes of the messages of a move: devices/Thorlabs_APT/APT.cpp.
pub mod Params
pub mod Moves
pub mod Waits
pub mod Runs
pub mod Ends
pub mod Refinement
pub mod Termination
pub mod Requests
pub mod Blocking
pub mod Absolute
pub mod Tests
use foxtrot.Base.{
  ℕ, suc, zero, ◌+◌, ◌/◌, ◌%◌, ◌^◌, Bool, true, false, not, ◌&&◌, ◌||◌, Option, none, some, List,
  [], ◌∷◌, Result, ok, err, leb, ◌==◌, if◌then◌else◌, length,
}
use foxtrot.Base.Action.{Action, ◌>>=◌, ◌>>◌, give, throw, when, finally}
use foxtrot.Devices.Apt.Opcodes.{
  Opcode, opcode_code, mgmsg_hw_start_updatemsgs, mgmsg_hw_stop_updatemsgs,
  mgmsg_mod_get_chanenablestate, mgmsg_mod_get_hwinfo, mgmsg_mod_req_chanenablestate,
  mgmsg_mod_req_hwinfo, mgmsg_mod_set_chanenablestate, mgmsg_mot_get_homeparams,
  mgmsg_mot_get_limswitchparams, mgmsg_mot_get_poscounter, mgmsg_mot_get_velparams,
  mgmsg_mot_move_absolute, mgmsg_mot_move_completed, mgmsg_mot_move_home, mgmsg_mot_move_homed,
  mgmsg_mot_move_relative, mgmsg_mot_move_stop, mgmsg_mot_req_dcstatusupdate,
  mgmsg_mot_req_homeparams, mgmsg_mot_req_limswitchparams, mgmsg_mot_req_poscounter,
  mgmsg_mot_req_statusupdate, mgmsg_mot_req_velparams, mgmsg_mot_set_homeparams,
  mgmsg_mot_set_limswitchparams, mgmsg_mot_set_poscounter, mgmsg_mot_set_velparams,
}
use foxtrot.Devices.Apt.Bytes.{u32}
use foxtrot.Devices.Apt.Structs.{
  Layout, HwInfo, hwinfo_layout, ChannelStatus, channel_status_layout, DcStatus, dcstatus_layout,
  VelocityParams, velocity_params_layout, HomeParams, homeparams_layout, LimitSwitchParams,
  limitswitchparams_layout, PosCounter, poscounter_layout,
}
use foxtrot.Devices.Apt.{
  Error, motor_status_failed, crash_suspected, unexpected_completion, still_homing, bad_status_code,
  undefined, out_of_fuel, Destination, MotorChannel, channel_code, Port, Apt, AptReply,
  transmit_message, transmit_to_channel, transmit_data, flush, receive_sync_common,
  receive_message_sync_check, request_response_struct, is_opcode,
}

-- `APTDeviceTraits`, without the sets of messages that are only logged.
pub record AptDeviceTraits : Type 0 where
  pub status_request_code : Opcode
  pub status_get_code : Opcode
  pub complete_success_code : Opcode
  pub n_ignore_failed_motor_msgs : ℕ
  pub require_enable_updates_for_status : Bool

pub data AllStatus : Type 0 where
  channel : ChannelStatus → AllStatus
  dc : DcStatus → AllStatus

-- `extract_status_bits`: one bit of them.
abbrev pub statusbits_of : AllStatus → ℕ
statusbits_of (channel s) = s.statusbits
statusbits_of (dc s) = s.statusbits

abbrev pub bit : ℕ → ℕ → Bool
bit bits i = (bits / 2 ^ i) % 2 == 1

abbrev pub at_limit : ℕ → Bool
at_limit bits = bit bits 0 || bit bits 1 || bit bits 2 || bit bits 3

abbrev pub moves : ℕ → Bool
moves bits = bit bits 4 || bit bits 5 || bit bits 6 || bit bits 7

abbrev pub is_homing : ℕ → Bool
is_homing bits = bit bits 9

unfoldable pub check_status_bits : ℕ → Bool → Bool → Bool
check_status_bits bits check_limitswitch require_moving =
    if check_limitswitch && at_limit bits
    then false
    else if require_moving && not (moves bits)
    then false
    else true

-- `_copy_data_to_status` copies as many bytes as there are over the struct.
abbrev pub copy_data_to_status :
    {S : Type 0} → Layout S → (S → AllStatus) → List ℕ → Result Error AllStatus
copy_data_to_status layout as_status dat = elim (layout.unpack dat) [
  | none ↦ err undefined
  | some s ↦ ok (as_status s)
]

-- What the code knows between two messages of a wait, and what it does about one of them.
pub data Verdict : Type 0 where
  go_on : Bool → ℕ → Verdict
  complete crashed failed unexpected : Verdict

unfoldable pub start_update_messages : Destination → Apt (Unit {0})
unfolding transmit_message
start_update_messages dest = transmit_message mgmsg_hw_start_updatemsgs 0x0A 0x0 dest

unfoldable pub stop_update_messages : Destination → Apt (Unit {0})
unfolding transmit_message
stop_update_messages dest = transmit_message mgmsg_hw_stop_updatemsgs 0x0 0x0 dest

-- A block with an `AptUpdateMessageScopeGuard`, that starts the messages or does not.
unfoldable pub guarded : {A : Type 0} → Bool → Destination → Apt A → Apt A
unfolding start_update_messages stop_update_messages
guarded started dest act =
    if started
    then (start_update_messages dest >> finally act (λ port. (stop_update_messages dest port).1))
    else act

module _ (traits : AptDeviceTraits) where
  unfoldable pub extract_status_from_data : List ℕ → Result Error AllStatus
  extract_status_from_data dat =
      if opcode_code traits.status_request_code == opcode_code mgmsg_mot_req_dcstatusupdate
      then copy_data_to_status dcstatus_layout dc dat
      else if opcode_code traits.status_request_code == opcode_code mgmsg_mot_req_statusupdate
      then copy_data_to_status channel_status_layout channel dat
      else err bad_status_code

  unfoldable pub judge_status : Bool → ℕ → ℕ → Verdict
  unfolding check_status_bits
  judge_status init_limit_state retries bits =
      if check_status_bits bits true true
      then go_on init_limit_state retries
      else if is_homing bits
      then (if leb traits.n_ignore_failed_motor_msgs retries
          then crashed
          else go_on init_limit_state (retries + 1))
      else if at_limit bits && init_limit_state
      then go_on false retries
      else failed

  -- `*repl.data` of a reply without data is undefined.
  abbrev pub status_of : AptReply → Result Error AllStatus
  status_of reply = elim reply.payload [
    | none ↦ err undefined
    | some dat ↦ extract_status_from_data dat
  ]

  unfoldable pub judge : Opcode → Bool → ℕ → AptReply → ℕ → Result Error Verdict
  unfolding judge_status extract_status_from_data
  judge completion init_limit_state retries reply received =
      if is_opcode received traits.status_get_code
      then elim (status_of reply) [
        | err e ↦ err e
        | ok status ↦ ok (judge_status init_limit_state retries (statusbits_of status))
      ]
      else if is_opcode received completion
      then ok complete
      else ok unexpected

  module _ (flushed : List ℕ → List ℕ) where
    abbrev pub status_request :
        {S : Type 0} → Layout S → (S → AllStatus) → Destination → MotorChannel → Apt AllStatus
    status_request layout as_status dest chan = do
      out ←
          request_response_struct flushed layout traits.status_request_code traits.status_get_code
            dest (channel_code chan) 0 (some dest)
      give (as_status out)

    unfoldable pub get_status : Destination → MotorChannel → Apt AllStatus
    unfolding guarded request_response_struct
    get_status dest chan = guarded traits.require_enable_updates_for_status dest (
        if opcode_code traits.status_request_code == opcode_code mgmsg_mot_req_dcstatusupdate
        then status_request dcstatus_layout dc dest chan
        else if opcode_code traits.status_request_code == opcode_code mgmsg_mot_req_statusupdate
        then status_request channel_status_layout channel dest chan
        else throw bad_status_code)

    unfoldable pub is_limited : Destination → MotorChannel → Apt Bool
    unfolding get_status
    is_limited dest chan = do stat ← get_status dest chan; give (at_limit (statusbits_of stat))
