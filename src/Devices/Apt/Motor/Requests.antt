-- ===== src/Devices/Apt/Motor/Requests.antt =====
-- That the calls of devices/Thorlabs_APT/APT.cpp that ask for something come to an end.
use foxtrot.Base.{
  if◌then◌else◌, ℕ, ◌==◌, refl, sym, subst, Bool, true, false, List, ◌++◌, Option, none, some,
  Result, ok, err, length,
}
use foxtrot.Base.Action.{◌>>=◌, ◌>>◌, throw, give}
use foxtrot.Devices.Apt.Opcodes.{
  Opcode, opcode_code, mgmsg_mot_req_statusupdate, mgmsg_mot_req_dcstatusupdate,
  mgmsg_mot_req_velparams, mgmsg_mot_get_velparams,
}
use foxtrot.Devices.Apt.Structs.{
  Layout, channel_status_layout, dcstatus_layout, velocity_params_layout,
}
use foxtrot.Devices.Apt.{
  Error, bad_status_code, unexpected_opcode, is_opcode, is_motor_status, Destination, MotorChannel,
  channel_code, Port, Apt, AptReply, receive_sync_common, receive_exactly,
  receive_message_sync_check, struct_of, request_response_struct, transmit_message,
}
use foxtrot.Devices.Apt.Motor.{
  AptDeviceTraits, AllStatus, channel, dc, status_request, guarded, get_status, is_limited,
}
use foxtrot.Devices.Apt.Motor.Params.{get_velocity_params}
use foxtrot.Devices.Apt.Motor.Ends.{start_bytes, guarded_eq}
use foxtrot.Devices.Apt.Motor.Termination.{Ends}
use foxtrot.Devices.Apt.Takes.{Takes, receive_sync_common-Takes}

-- An action that has an end from every port.
unfoldable pub EndsAlways : {A : Type 0} → Apt A → Type 0
EndsAlways act = (port : Port) → Ends (act port).0

pub bind-EndsAlways :
    {A B : Type 0} (act : Apt A) (next : A → Apt B)
    → EndsAlways act
    → ((a : A) → EndsAlways (next a))
    → EndsAlways (act >>= next)
unfolding EndsAlways Ends ◌>>=◌
bind-EndsAlways {A = A} act next first rest port = from (act port) (first port)
  where
    from : (r : Result Error A × Port) → Ends r.0 → Ends (((λ (u : Port). r) >>= next) port).0
    from (err e, p) h = h
    from (ok a, p) h = rest a p

pub then-EndsAlways :
    {B : Type 0} (act : Apt (Unit {0})) (next : Apt B)
    → EndsAlways act
    → EndsAlways next
    → EndsAlways (act >> next)
unfolding ◌>>=◌ ◌>>◌
then-EndsAlways act next first rest = bind-EndsAlways act (λ u. next) first (λ u. rest)

pub if-EndsAlways :
    {A : Type 0} (b : Bool) (act other : Apt A)
    → EndsAlways act
    → EndsAlways other
    → EndsAlways (if b then act else other)
if-EndsAlways true act other h h' = h
if-EndsAlways false act other h h' = h'

pub give-EndsAlways : {A : Type 0} (a : A) → EndsAlways (give a)
unfolding EndsAlways Ends
give-EndsAlways a port = tt

pub guarded-EndsAlways :
    {A : Type 0} (started : Bool) (dest : Destination) (act : Apt A)
    → EndsAlways act
    → EndsAlways (guarded started dest act)
unfolding EndsAlways guarded
guarded-EndsAlways true dest act h port =
    subst (λ r. Ends r.0) (sym (guarded_eq dest act port _ _ refl))
      (h (record port { written = port.written ++ start_bytes dest }))
guarded-EndsAlways false dest act h port = h port

module _ (flushed : List ℕ → List ℕ) where
  pub receive_sync_common-EndsAlways :
      (source : Destination) → EndsAlways (receive_sync_common flushed source)
  unfolding EndsAlways Takes Ends
  receive_sync_common-EndsAlways source port =
      from (receive_sync_common flushed source port) (receive_sync_common-Takes flushed source port)
    where
      from : (r : Result Error (AptReply × ℕ) × Port) → Takes 6 (length port.incoming) r → Ends r.0
      from (err e, p) h = h
      from (ok a, p) h = tt

  pub receive_exactly-EndsAlways :
      (o : Opcode) (source : Destination) → EndsAlways (receive_exactly flushed o source)
  unfolding receive_exactly EndsAlways Ends
  receive_exactly-EndsAlways o source =
      bind-EndsAlways (receive_sync_common flushed source) _ (receive_sync_common-EndsAlways source)
        (λ r.
          if-EndsAlways (is_opcode r.1 o) (give r.0) (throw unexpected_opcode) (give-EndsAlways r.0)
            (λ port. refl))

  pub receive_message_sync_check-EndsAlways :
      (o : Opcode) (source : Destination) → EndsAlways (receive_message_sync_check flushed o source)
  unfolding receive_message_sync_check EndsAlways Ends
  receive_message_sync_check-EndsAlways o source =
      bind-EndsAlways (receive_sync_common flushed source) _ (receive_sync_common-EndsAlways source)
        (λ r.
          if-EndsAlways (is_opcode r.1 o) (give r.0)
            (if is_motor_status r.1
              then receive_exactly flushed o source
              else throw unexpected_opcode)
            (give-EndsAlways r.0)
            (if-EndsAlways (is_motor_status r.1) (receive_exactly flushed o source)
              (throw unexpected_opcode) (receive_exactly-EndsAlways o source) (λ port. refl)))

  pub struct_of-EndsAlways :
      {T : Type 0} (layout : Layout T) (dat : Option (List ℕ)) → EndsAlways (struct_of layout dat)
  unfolding EndsAlways Ends
  struct_of-EndsAlways layout none port = refl
  struct_of-EndsAlways {T = T} layout (some dat) port = from (layout.unpack dat)
    where
      from :
          (o : Option T)
          → Ends (struct_of (record { pack = layout.pack; unpack = λ bs. o }) (some dat) port).0
      from none = refl
      from (some t) = tt

  pub request_response_struct-EndsAlways :
      {T : Type 0} (layout : Layout T) (send recv : Opcode) (dest source : Destination) (p1 p2 : ℕ)
      → EndsAlways (request_response_struct flushed layout send recv dest p1 p2 (some source))
  unfolding request_response_struct transmit_message EndsAlways Ends
  request_response_struct-EndsAlways layout send recv dest source p1 p2 =
      then-EndsAlways (transmit_message send p1 p2 dest) _ (λ port. tt)
        (bind-EndsAlways (receive_message_sync_check flushed recv source) _
          (receive_message_sync_check-EndsAlways recv source)
          (λ r. struct_of-EndsAlways layout r.payload))

  pub get_velocity_params-EndsAlways :
      (dest : Destination) (chan : MotorChannel)
      → EndsAlways (get_velocity_params flushed dest chan)
  unfolding get_velocity_params request_response_struct
  get_velocity_params-EndsAlways dest chan =
      request_response_struct-EndsAlways velocity_params_layout mgmsg_mot_req_velparams
        mgmsg_mot_get_velparams dest dest (channel_code chan) 0

  module _ (traits : AptDeviceTraits) (dest : Destination) (chan : MotorChannel) where
    pub status_request-EndsAlways :
        {S : Type 0} (layout : Layout S) (as_status : S → AllStatus)
        → EndsAlways (status_request traits flushed layout as_status dest chan)
    status_request-EndsAlways layout as_status =
        bind-EndsAlways _ _
          (request_response_struct-EndsAlways layout traits.status_request_code
            traits.status_get_code dest dest (channel_code chan) 0)
          (λ out. give-EndsAlways (as_status out))

    pub get_status-EndsAlways : EndsAlways (get_status traits flushed dest chan)
    unfolding get_status EndsAlways Ends
    get_status-EndsAlways =
        let sent = opcode_code traits.status_request_code in
        let by_channel = status_request traits flushed channel_status_layout channel dest chan in
        let by_dc = status_request traits flushed dcstatus_layout dc dest chan in
        guarded-EndsAlways traits.require_enable_updates_for_status dest _ (
          if-EndsAlways (sent == opcode_code mgmsg_mot_req_dcstatusupdate) by_dc
            (if sent == opcode_code mgmsg_mot_req_statusupdate
              then by_channel
              else throw bad_status_code)
            (status_request-EndsAlways dcstatus_layout dc)
            (if-EndsAlways (sent == opcode_code mgmsg_mot_req_statusupdate) by_channel
              (throw bad_status_code) (status_request-EndsAlways channel_status_layout channel)
              (λ port. refl)))

    pub is_limited-EndsAlways : EndsAlways (is_limited traits flushed dest chan)
    unfolding is_limited
    is_limited-EndsAlways =
        bind-EndsAlways (get_status traits flushed dest chan) _ get_status-EndsAlways
          (λ s. give-EndsAlways _)
