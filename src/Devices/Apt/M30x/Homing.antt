-- ===== src/Devices/Apt/M30x/Homing.antt =====
-- When the stage is homed, and what is written for it.
use foxtrot.Base.{
  if◌then◌else◌, ℕ, ◌+◌, ◌<◌, ◌≤◌, ◌≡◌, ◌⊎◌, inl, inr, refl, ◌∙◌, ap, arith, Bool, true, false,
  List, ◌++◌, ok, leb,
}
use foxtrot.Base.Action.{bind_eq, then_eq}
use foxtrot.Devices.Apt.Opcodes.{
  mgmsg_mot_get_homeparams, mgmsg_mot_req_homeparams, mgmsg_mot_set_homeparams, opcode_code,
  mgmsg_mot_get_limswitchparams, mgmsg_mot_req_limswitchparams,
}
use foxtrot.Devices.Apt.Structs.{
  HomeParams, homeparams_layout, LimitSwitchParams, limitswitchparams_layout,
}
use foxtrot.Devices.Apt.Layouts.{HomeParamsFits, LimitSwitchParamsFits, layouts-IsLayout}
use foxtrot.Devices.Apt.Frames.{long, frame}
use foxtrot.Devices.Apt.Replies.{request_response_struct-pack}
use foxtrot.Devices.Apt.{
  host, generic_usb, bay1, channel_1, channel_code, Port, short_message, data_message,
  transmit_data, request_response_struct,
}
use foxtrot.Devices.Apt.Motor.Params.{get_homeparams, set_homeparams, get_limitswitchparams}
use foxtrot.Devices.Apt.Motor.Moves.{home_move_blocking}
use foxtrot.Devices.Apt.M30x.{m30x_traits, check_soft_limits, safe_home_move}

refused :
    (home_left : Bool) (cw ccw : ℕ)
    → (home_left ≡ false) ⊎ (cw < 170000)
    → (if home_left then leb 170000 cw else leb (ccw + 170000) 0) ≡ false
refused true cw ccw (inl h) = absurd cc
refused true cw ccw (inr h) = ground arith
refused false cw ccw h = ground arith

module _ (flushed : List ℕ → List ℕ) where
  check_soft_limits-pack :
      (home_left : Bool) (required : ℕ) (params : LimitSwitchParams) (rest w : List ℕ)
      → LimitSwitchParamsFits params
      → check_soft_limits flushed home_left required (record {
        incoming =
            frame generic_usb (
              long
                (opcode_code mgmsg_mot_get_limswitchparams)
                (limitswitchparams_layout.pack params))
            ++ rest;
        written = w;
      })
        ≡ (
          ok (
              if home_left
              then leb required params.cw_soft
              else leb (params.ccw_soft + required) 0),
          record {
            incoming = rest;
            written =
                w
                ++ short_message
                    (opcode_code mgmsg_mot_req_limswitchparams)
                    (channel_code channel_1)
                    0
                    generic_usb
                    host;
          },
        )
  unfolding check_soft_limits get_limitswitchparams request_response_struct
  check_soft_limits-pack home_left required params rest w fits = bind_eq _ _ _ _ params (
      request_response_struct-pack flushed limitswitchparams_layout layouts-IsLayout.5
        mgmsg_mot_req_limswitchparams mgmsg_mot_get_limswitchparams generic_usb generic_usb
        (channel_code channel_1) 0 params rest w (omega arith) fits)

  -- If the stage is to go right, or if its soft limit on the left is less than 170000, then a safe homing
  -- move writes no more than the request for the limits, and returns as if it had been made.
  pub safe_home_move_aborts :
      (home_left : Bool) (velocity : ℕ) (params : LimitSwitchParams) (rest w : List ℕ)
      → LimitSwitchParamsFits params
      → (home_left ≡ false) ⊎ (params.cw_soft < 170000)
      → safe_home_move flushed home_left velocity (record {
        incoming =
            frame generic_usb (
              long
                (opcode_code mgmsg_mot_get_limswitchparams)
                (limitswitchparams_layout.pack params))
            ++ rest;
        written = w;
      })
        ≡ (
          ok tt,
          record {
            incoming = rest;
            written =
                w
                ++ short_message
                    (opcode_code mgmsg_mot_req_limswitchparams)
                    (channel_code channel_1)
                    0
                    generic_usb
                    host;
          },
        )
  unfolding safe_home_move
  safe_home_move_aborts home_left velocity params rest w fits unsafe =
      let after : Port = record {
        incoming = rest;
        written =
            w
            ++ short_message (opcode_code mgmsg_mot_req_limswitchparams) (channel_code channel_1) 0
                generic_usb host;
      } in
      bind_eq (check_soft_limits flushed home_left 170000) _ _ _ false (
        check_soft_limits-pack home_left 170000 params rest w fits
        ∙ ap (λ b. (ok b, after)) (refused home_left params.cw_soft params.ccw_soft unsafe))

  -- To the left, with a soft limit of at least 170000, the stage's homing parameters are asked for and
  -- set again with the direction 2, the limit switch 1 and the velocity that is given, and then the
  -- stage is homed through bay 1.
  pub safe_home_move_left :
      (velocity : ℕ) (params : LimitSwitchParams) (homeparms : HomeParams) (rest w : List ℕ)
      → LimitSwitchParamsFits params
      → HomeParamsFits homeparms
      → 170000 ≤ params.cw_soft
      → let homed : HomeParams = record homeparms {
        home_dir = 2;
        limit_switch = 1;
        home_velocity = velocity;
      } in
        safe_home_move flushed true velocity (record {
          incoming =
              frame generic_usb (
                long
                  (opcode_code mgmsg_mot_get_limswitchparams)
                  (limitswitchparams_layout.pack params))
              ++ (frame generic_usb
                    (long (opcode_code mgmsg_mot_get_homeparams) (homeparams_layout.pack homeparms))
                  ++ rest);
          written = w;
        })
        ≡ home_move_blocking m30x_traits flushed bay1 channel_1 (record {
          incoming = rest;
          written =
              ((w
                  ++ short_message
                      (opcode_code mgmsg_mot_req_limswitchparams)
                      (channel_code channel_1)
                      0
                      generic_usb
                      host)
                ++ short_message
                    (opcode_code mgmsg_mot_req_homeparams)
                    (channel_code channel_1)
                    0
                    generic_usb
                    host)
              ++ data_message
                  (opcode_code mgmsg_mot_set_homeparams)
                  (homeparams_layout.pack homed)
                  generic_usb
                  host;
        })
  unfolding safe_home_move get_homeparams request_response_struct set_homeparams transmit_data
  safe_home_move_left velocity params homeparms rest w fits home_fits safe =
      let left =
        frame generic_usb
          (long (opcode_code mgmsg_mot_get_homeparams) (homeparams_layout.pack homeparms))
        ++ rest in
      let asked =
        w
        ++ short_message (opcode_code mgmsg_mot_req_limswitchparams) (channel_code channel_1) 0
            generic_usb host in
      let after : Port = record { incoming = left; written = asked } in
      bind_eq (check_soft_limits flushed true 170000) _ _ _ true (
        check_soft_limits-pack true 170000 params left w fits
        ∙ ap (λ b. (ok b, after)) (ground (arith, safe)))
      ∙ bind_eq _ _ _ _ homeparms (
          request_response_struct-pack flushed homeparams_layout layouts-IsLayout.4
            mgmsg_mot_req_homeparams mgmsg_mot_get_homeparams generic_usb generic_usb
            (channel_code channel_1) 0 homeparms rest asked (omega arith) home_fits)
      ∙ then_eq _ _ _ _ refl
