-- ===== src/Devices/Apt/Motor/Tests.antt =====
-- A controller in bay 1 that moves its first channel, and may fail once while it is homing.
use foxtrot.Base.{ℕ, ◌≡◌, refl, arith, false, some, List, [], ◌∷◌, ◌++◌, ok, err, map, All}
use foxtrot.Base.Decimal.{replicate}
use foxtrot.Devices.Apt.Opcodes.{
  opcode_code, mgmsg_mot_req_statusupdate, mgmsg_mot_get_statusupdate, mgmsg_mot_move_completed,
  mgmsg_mot_get_homeparams, mgmsg_mot_req_homeparams, mgmsg_mot_move_stop,
}
use foxtrot.Devices.Apt.Structs.{HomeParams, homeparams_layout, VelocityParams}
use foxtrot.Devices.Apt.Layouts.{layouts-IsLayout}
use foxtrot.Devices.Apt.Frames.{Message, short, long, frame}
use foxtrot.Devices.Apt.Replies.{request_response_struct-pack}
use foxtrot.Devices.Apt.{
  crash_suspected, host, bay1, channel_1, short_message, request_response_struct,
}
use foxtrot.Devices.Apt.Motor.{AptDeviceTraits, AllStatus, channel, check_status_bits}
use foxtrot.Devices.Apt.Motor.Moves.{wait_blocking_move, absolute_move_blocking}
use foxtrot.Devices.Apt.Motor.Waits.{status_message, IsStatus}
use foxtrot.Devices.Apt.Motor.Runs.{frames}
use foxtrot.Devices.Apt.Motor.Ends.{start_bytes, stop_bytes, wait_blocking_move_crash}
use foxtrot.Devices.Apt.Motor.Absolute.{move_messages, move_bytes, absolute_move_blocking_completes}

abbrev no_bytes : List ℕ → List ℕ
no_bytes bytes = []

abbrev no_data : List ℕ
no_data = []

abbrev stage : AptDeviceTraits
stage = record {
  status_request_code = mgmsg_mot_req_statusupdate;
  status_get_code = mgmsg_mot_get_statusupdate;
  complete_success_code = mgmsg_mot_move_completed;
  n_ignore_failed_motor_msgs = 1;
  require_enable_updates_for_status = false;
}

abbrev moving : AllStatus
moving = channel (record { chan_ident = 1; position = 500; enccount = 0; statusbits = 16 })

abbrev homing : AllStatus
homing = channel (record { chan_ident = 1; position = 0; enccount = 0; statusbits = 513 })

abbrev limited : AllStatus
limited = channel (record { chan_ident = 1; position = 0; enccount = 0; statusbits = 17 })

abbrev velocities : VelocityParams
velocities = record { chan_ident = 1; minvel = 0; acceleration = 70000; maxvel = 100000 }

abbrev home_settings : HomeParams
home_settings = record {
  chan_ident = 1;
  home_dir = 2;
  limit_switch = 1;
  home_velocity = 300000;
  offset_distance = 4000;
}

abbrev completion : Message
completion = long (opcode_code mgmsg_mot_move_completed) (replicate 14 0)

abbrev unasked : Message
unasked = short (opcode_code mgmsg_mot_move_completed) 1 0

abbrev run : List AllStatus
run = moving ∷ homing ∷ []

request_response_struct-pack_example :
    request_response_struct no_bytes homeparams_layout mgmsg_mot_req_homeparams
      mgmsg_mot_get_homeparams bay1 1 0
      (some bay1)
      (record {
        incoming =
            frame bay1
              (long (opcode_code mgmsg_mot_get_homeparams) (homeparams_layout.pack home_settings))
            ++ (7 ∷ []);
        written = [];
      })
    ≡ (
      ok home_settings,
      record {
        incoming = 7 ∷ [];
        written = short_message (opcode_code mgmsg_mot_req_homeparams) 1 0 bay1 host;
      },
    )
request_response_struct-pack_example =
    request_response_struct-pack no_bytes homeparams_layout layouts-IsLayout.4
      mgmsg_mot_req_homeparams mgmsg_mot_get_homeparams bay1 bay1 1 0 home_settings (7 ∷ []) []
      (omega arith) (omega arith, omega arith, omega arith, omega arith, omega arith)

moving-IsStatus : IsStatus stage moving
moving-IsStatus = (refl, (omega arith, omega arith, omega arith, omega arith))

homing-IsStatus : IsStatus stage homing
homing-IsStatus = (refl, (omega arith, omega arith, omega arith, omega arith))

run-IsStatus : All (IsStatus stage) run
run-IsStatus = (moving-IsStatus, (homing-IsStatus, tt))

wait_blocking_move_crash_example :
    wait_blocking_move stage no_bytes mgmsg_mot_move_completed bay1 channel_1 false (record {
      incoming =
          frames bay1 (map (status_message stage) run)
          ++ (frame bay1 (status_message stage homing) ++ (7 ∷ []));
      written = [];
    })
    ≡ (
      err crash_suspected,
      record {
        incoming = 7 ∷ [];
        written =
            (start_bytes bay1 ++ short_message (opcode_code mgmsg_mot_move_stop) 1 1 bay1 host)
            ++ stop_bytes bay1;
      },
    )
unfolding check_status_bits
wait_blocking_move_crash_example =
    wait_blocking_move_crash stage no_bytes mgmsg_mot_move_completed bay1 channel_1 run homing false
      (7 ∷ []) [] run-IsStatus (refl, (refl, tt)) refl homing-IsStatus refl refl

absolute_move_blocking_completes_example :
    absolute_move_blocking stage no_bytes bay1 channel_1 1000 (record {
      incoming =
          move_messages stage bay1 channel_1 no_bytes moving velocities moving run completion
            (7 ∷ []);
      written = [];
    })
    ≡ (ok tt, record { incoming = []; written = move_bytes stage bay1 channel_1 no_bytes 1000 [] })
unfolding check_status_bits
absolute_move_blocking_completes_example =
    absolute_move_blocking_completes stage bay1 channel_1 no_bytes moving moving velocities run
      completion 1000 (7 ∷ []) [] moving-IsStatus
      (omega arith, omega arith, omega arith, omega arith) moving-IsStatus run-IsStatus
      (refl, (refl, tt)) (omega arith) (omega arith, omega arith, omega arith) refl
      (λ e. omega (arith, e))

abbrev two_limits : List Message
two_limits =
    status_message stage limited
    ∷ status_message stage moving
    ∷ status_message stage limited
    ∷ unasked
    ∷ []
