-- ===== src/Devices/Apt/M30x/Tests.antt =====
-- A stage with soft limits of 200000 and 100000 on the left.
use foxtrot.Base.{ℕ, ◌≡◌, arith, true, List, [], ◌∷◌, ◌++◌}
use foxtrot.Devices.Apt.Opcodes.{
  opcode_code, mgmsg_mot_get_limswitchparams, mgmsg_mot_req_limswitchparams,
  mgmsg_mot_get_homeparams, mgmsg_mot_req_homeparams, mgmsg_mot_set_homeparams,
}
use foxtrot.Devices.Apt.Structs.{
  HomeParams, homeparams_layout, LimitSwitchParams, limitswitchparams_layout,
}
use foxtrot.Devices.Apt.Frames.{long, frame}
use foxtrot.Devices.Apt.{host, generic_usb, bay1, channel_1, short_message, data_message}
use foxtrot.Devices.Apt.Motor.Moves.{home_move_blocking}
use foxtrot.Devices.Apt.M30x.{m30x_traits, safe_home_move}
use foxtrot.Devices.Apt.M30x.Homing.{safe_home_move_left}

abbrev no_bytes : List ℕ → List ℕ
no_bytes bytes = []

abbrev limits : ℕ → LimitSwitchParams
limits cw = record {
  chan_ident = 1;
  cw_hard = 2;
  ccw_hard = 2;
  cw_soft = cw;
  ccw_soft = 0;
  limit_mode = 1;
}

abbrev settings : HomeParams
settings = record {
  chan_ident = 1;
  home_dir = 1;
  limit_switch = 4;
  home_velocity = 1000;
  offset_distance = 400;
}

safe_home_move_left_example :
    safe_home_move no_bytes true 223749 (record {
      incoming =
          frame generic_usb (
            long
              (opcode_code mgmsg_mot_get_limswitchparams)
              (limitswitchparams_layout.pack (limits 200000)))
          ++ (frame generic_usb
                (long (opcode_code mgmsg_mot_get_homeparams) (homeparams_layout.pack settings))
              ++ (7 ∷ []));
      written = [];
    })
    ≡ home_move_blocking m30x_traits no_bytes bay1 channel_1 (record {
      incoming = 7 ∷ [];
      written =
          (short_message (opcode_code mgmsg_mot_req_limswitchparams) 1 0 generic_usb host
            ++ short_message (opcode_code mgmsg_mot_req_homeparams) 1 0 generic_usb host)
          ++ data_message
              (opcode_code mgmsg_mot_set_homeparams)
              (homeparams_layout.pack
                (record settings { home_dir = 2; limit_switch = 1; home_velocity = 223749 }))
              generic_usb
              host;
    })
safe_home_move_left_example =
    safe_home_move_left no_bytes 223749 (limits 200000) settings (7 ∷ []) []
      (omega arith, omega arith, omega arith, omega arith, omega arith, omega arith)
      (omega arith, omega arith, omega arith, omega arith, omega arith) (omega arith)
