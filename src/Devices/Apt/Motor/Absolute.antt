-- ===== src/Devices/Apt/Motor/Absolute.antt =====
-- A whole blocking move: what the controller sends and what the code writes.
use foxtrot.Base.{
  if◌then◌else◌, ℕ, ◌≤◌, ◌≡◌, ◌≢◌, ◌==◌, refl, ◌∙◌, ap, arith, Bool, true, false, List, ◌++◌,
  Result, ok, map, All,
}
use foxtrot.Base.Action.{give, bind_eq, then_eq}
use foxtrot.Devices.Apt.Opcodes.{
  Opcode, opcode_code, mgmsg_mot_req_statusupdate, mgmsg_mot_req_dcstatusupdate,
  mgmsg_mot_req_velparams, mgmsg_mot_get_velparams, mgmsg_mot_move_absolute,
}
use foxtrot.Devices.Apt.Structs.{
  Layout, channel_status_layout, dcstatus_layout, VelocityParams, velocity_params_layout,
}
use foxtrot.Devices.Apt.Layouts.{IsLayout, VelocityParamsFits, layouts-IsLayout}
use foxtrot.Devices.Apt.Frames.{Message, long, IsMessage, frame, reply_of}
use foxtrot.Devices.Apt.Replies.{request_response_struct-pack}
use foxtrot.Devices.Apt.{
  Destination, host, MotorChannel, channel_code, Apt, short_message, data_message,
  request_response_struct, transmit_data,
}
use foxtrot.Devices.Apt.Motor.{
  AptDeviceTraits, AllStatus, channel, dc, statusbits_of, at_limit, status_request, guarded,
  get_status, is_limited,
}
use foxtrot.Devices.Apt.Motor.Params.{get_velocity_params}
use foxtrot.Devices.Apt.Motor.Moves.{move_request, start_absolute_move, absolute_move_blocking}
use foxtrot.Devices.Apt.Motor.Waits.{status_message, IsStatus}
use foxtrot.Devices.Apt.Motor.Runs.{frames, tolerable, failures}
use foxtrot.Devices.Apt.Motor.Ends.{
  start_bytes, stop_bytes, guarded_eq, wait_blocking_move_completes,
}

select_channel :
    {A : Type 0} (sent : Opcode)
    → sent ≡ mgmsg_mot_req_statusupdate
    → (by_dc by_channel other : A)
    → (if opcode_code sent == opcode_code mgmsg_mot_req_dcstatusupdate
        then by_dc
        else if opcode_code sent == opcode_code mgmsg_mot_req_statusupdate
        then by_channel
        else other)
      ≡ by_channel
select_channel sent h by_dc by_channel other = rw h

select_dc :
    {A : Type 0} (sent : Opcode)
    → sent ≡ mgmsg_mot_req_dcstatusupdate
    → (by_dc other : A)
    → (if opcode_code sent == opcode_code mgmsg_mot_req_dcstatusupdate then by_dc else other)
      ≡ by_dc
select_dc sent h by_dc other = rw h

module _ (traits : AptDeviceTraits) (dest : Destination) (chan : MotorChannel) where
  abbrev pub request_bytes : List ℕ
  request_bytes =
      short_message (opcode_code traits.status_request_code) (channel_code chan) 0 dest host

  -- What is written after a request for a status, with the updates on or not.
  abbrev pub after_status : List ℕ → List ℕ
  after_status w =
      if traits.require_enable_updates_for_status
      then ((w ++ start_bytes dest) ++ request_bytes) ++ stop_bytes dest
      else w ++ request_bytes

  module _ (flushed : List ℕ → List ℕ) where
    status_request-status_message :
        {S : Type 0} {Fits : S → Type 0} (layout : Layout S) (laws : IsLayout layout Fits 14)
        (as_status : S → AllStatus) (s : S) (rest w : List ℕ)
        → Fits s
        → status_request traits flushed layout as_status dest chan (record {
          incoming = frame dest (long (opcode_code traits.status_get_code) (layout.pack s)) ++ rest;
          written = w;
        })
          ≡ (ok (as_status s), record { incoming = rest; written = w ++ request_bytes })
    status_request-status_message layout laws as_status s rest w fits =
        bind_eq _ (λ out. give (as_status out)) _ _ _
          (request_response_struct-pack flushed layout laws traits.status_request_code
            traits.status_get_code dest dest (channel_code chan) 0 s rest w (omega arith) fits)

    guarded_if :
        {A : Type 0} (act : Apt A) (r : Result _ A) (rest' : List ℕ) (rest w : List ℕ) (on : Bool)
        → ((w' : List ℕ)
            → act (record { incoming = rest'; written = w' })
              ≡ (r, record { incoming = rest; written = w' ++ request_bytes }))
        → guarded on dest act (record { incoming = rest'; written = w }) ≡ (
          r,
          record {
            incoming = rest;
            written =
                if on
                then ((w ++ start_bytes dest) ++ request_bytes) ++ stop_bytes dest
                else w ++ request_bytes;
          },
        )
    unfolding guarded
    guarded_if act r rest' rest w true h = guarded_eq dest act _ _ r (h (w ++ start_bytes dest))
    guarded_if act r rest' rest w false h = h w

    pub get_status-status_message :
        (s : AllStatus) (rest w : List ℕ)
        → IsStatus traits s
        → get_status traits flushed dest chan
            (record { incoming = frame dest (status_message traits s) ++ rest; written = w })
          ≡ (ok s, record { incoming = rest; written = after_status w })
    unfolding get_status
    get_status-status_message (channel s) rest w (code, fits) =
        guarded_if _ _ _ rest w traits.require_enable_updates_for_status (λ w'.
          ap
            (λ (act : Apt AllStatus). act (record {
              incoming = frame dest (status_message traits (channel s)) ++ rest;
              written = w';
            }))
            (select_channel traits.status_request_code code _ _ _)
          ∙ status_request-status_message channel_status_layout layouts-IsLayout.1 channel s rest w'
              fits)
    get_status-status_message (dc s) rest w (code, fits) =
        guarded_if _ _ _ rest w traits.require_enable_updates_for_status (λ w'.
          ap
            (λ (act : Apt AllStatus). act (record {
              incoming = frame dest (status_message traits (dc s)) ++ rest;
              written = w';
            }))
            (select_dc traits.status_request_code code _ _)
          ∙ status_request-status_message dcstatus_layout layouts-IsLayout.2 dc s rest w' fits)

    is_limited-status_message :
        (s : AllStatus) (rest w : List ℕ)
        → IsStatus traits s
        → is_limited traits flushed dest chan
            (record { incoming = frame dest (status_message traits s) ++ rest; written = w })
          ≡ (ok (at_limit (statusbits_of s)), record { incoming = rest; written = after_status w })
    unfolding is_limited
    is_limited-status_message s rest w h =
        bind_eq (get_status traits flushed dest chan) (λ stat. give (at_limit (statusbits_of stat)))
          _ _ s (get_status-status_message s rest w h)

    get_velocity_params-pack :
        (v : VelocityParams) (rest w : List ℕ)
        → VelocityParamsFits v
        → get_velocity_params flushed dest chan (record {
          incoming =
              frame dest
                (long (opcode_code mgmsg_mot_get_velparams) (velocity_params_layout.pack v))
              ++ rest;
          written = w;
        })
          ≡ (
            ok v,
            record {
              incoming = rest;
              written =
                  w
                  ++ short_message
                      (opcode_code mgmsg_mot_req_velparams)
                      (channel_code chan)
                      0
                      dest
                      host;
            },
          )
    unfolding get_velocity_params request_response_struct
    get_velocity_params-pack v rest w fits =
        request_response_struct-pack flushed velocity_params_layout layouts-IsLayout.3
          mgmsg_mot_req_velparams mgmsg_mot_get_velparams dest dest (channel_code chan) 0 v rest w
          (omega arith) fits

    -- What a controller sends during a move: two statuses and the velocities, as it is asked for them, the
    -- statuses of the move, and its end.
    abbrev pub move_messages :
        AllStatus → VelocityParams → AllStatus → List AllStatus → Message → List ℕ → List ℕ
    move_messages first velocities second ss m rest =
        frame dest (status_message traits first)
        ++ (frame dest
              (long (opcode_code mgmsg_mot_get_velparams) (velocity_params_layout.pack velocities))
            ++ (frame dest (status_message traits second)
                ++ (frames dest (map (status_message traits) ss) ++ (frame dest m ++ rest))))

    -- What the code writes during an absolute move.
    abbrev pub move_bytes : ℕ → List ℕ → List ℕ
    move_bytes target w =
        ((after_status (
              after_status w
              ++ short_message (opcode_code mgmsg_mot_req_velparams) (channel_code chan) 0 dest
                  host)
            ++ data_message (opcode_code mgmsg_mot_move_absolute) (move_request target chan) dest
                host)
          ++ start_bytes dest)
        ++ stop_bytes dest

    -- An absolute move whose controller answers the requests, then sends any number of tolerable statuses,
    -- no more failures among them than are ignored, and then the controller's completion, returns, with
    -- the port flushed. What it has written is the requests in their order, the move with its channel and
    -- its target, the request for updates and the end of them.
    pub absolute_move_blocking_completes :
        (first second : AllStatus) (velocities : VelocityParams) (ss : List AllStatus) (m : Message)
        (target : ℕ) (rest w : List ℕ)
        → IsStatus traits first
        → VelocityParamsFits velocities
        → IsStatus traits second
        → All (IsStatus traits) ss
        → All (λ s. tolerable s ≡ true) ss
        → failures ss ≤ traits.n_ignore_failed_motor_msgs
        → IsMessage m
        → (reply_of m).1 ≡ opcode_code traits.complete_success_code
        → opcode_code traits.complete_success_code ≢ opcode_code traits.status_get_code
        → absolute_move_blocking traits flushed dest chan target
            (record { incoming = move_messages first velocities second ss m rest; written = w })
          ≡ (ok tt, record { incoming = flushed rest; written = move_bytes target w })
    unfolding absolute_move_blocking start_absolute_move transmit_data
    absolute_move_blocking_completes first second velocities ss m target rest w hf hv h2 hs ht few
          hm same differ =
        bind_eq (get_status traits flushed dest chan) _ _ _ first
          (get_status-status_message first _ w hf)
        ∙ bind_eq (get_velocity_params flushed dest chan) _ _ _ velocities
            (get_velocity_params-pack velocities _ _ hv)
        ∙ bind_eq (is_limited traits flushed dest chan) _ _ _ (at_limit (statusbits_of second))
            (is_limited-status_message second _ _ h2)
        ∙ then_eq (start_absolute_move dest chan target) _ _ _ refl
        ∙ wait_blocking_move_completes traits flushed traits.complete_success_code dest chan ss m
            (at_limit (statusbits_of second)) rest _ hs ht few hm same differ
