-- ===== src/Devices/Apt/Motor/Termination.antt =====
-- That a wait for the end of a move ends: each round takes a header off the port.
use foxtrot.Base.{
  if◌then◌else◌, ℕ, zero, suc, ◌+◌, ◌<◌, ◌≤◌, ◌≡◌, ◌==◌, refl, arith, Bool, true, false, List,
  Option, none, some, Result, ok, err, length,
}
use foxtrot.Base.Action.{◌>>=◌, ◌>>◌}
use foxtrot.Devices.Apt.Opcodes.{
  Opcode, opcode_code, mgmsg_mot_req_statusupdate, mgmsg_mot_req_dcstatusupdate,
}
use foxtrot.Devices.Apt.Structs.{Layout, channel_status_layout, dcstatus_layout}
use foxtrot.Devices.Apt.{
  Error, bad_status_code, is_opcode, Destination, MotorChannel, Port, Apt, AptReply,
  receive_sync_common, flush, transmit_message,
}
use foxtrot.Devices.Apt.Motor.{
  AptDeviceTraits, AllStatus, channel, dc, statusbits_of, Verdict, go_on, complete, crashed, failed,
  unexpected, judge, judge_status, status_of, copy_data_to_status, extract_status_from_data,
}
use foxtrot.Devices.Apt.Motor.Moves.{stop_move, act_on, wait_loop}
use foxtrot.Devices.Apt.Takes.{is_out_of_fuel, Takes, receive_sync_common-Takes}

-- What did not run out of fuel.
unfoldable pub Ends : {A : Type 0} → Result Error A → Type 0
Ends (err e) = is_out_of_fuel e ≡ false
Ends (ok a) = Unit

pub bind-Ends :
    {A B : Type 0} (act : Apt A) (next : A → Apt B) (port : Port) (k n : ℕ)
    → Takes k n (act port)
    → ((a : A) (p : Port) → length p.incoming + k ≤ n → Ends (next a p).0)
    → Ends ((act >>= next) port).0
unfolding ◌>>=◌ Takes Ends
bind-Ends {A = A} act next port k n first rest = from (act port) first
  where
    from : (r : Result Error A × Port) → Takes k n r → Ends (((λ (u : Port). r) >>= next) port).0
    from (err e, p) h = h
    from (ok a, p) h = rest a p h

pub if-Ends :
    {A : Type 0} (b : Bool) (r r' : Result Error A) → Ends r → Ends r' → Ends (if b then r else r')
unfolding Ends
if-Ends true r r' h h' = h
if-Ends false r r' h h' = h'

map-Ends :
    {A B : Type 0} (f : A → B) (r : Result Error A)
    → Ends r
    → Ends {A = B} (elim r [ err e ↦ err e | ok a ↦ ok (f a) ])
unfolding Ends
map-Ends f (err e) h = h
map-Ends f (ok a) h = tt

unchanged-Takes :
    {A : Type 0} (r : Result Error A) (port : Port)
    → Ends r
    → Takes 0 (length port.incoming) (r, port)
unfolding Takes Ends
unchanged-Takes (err e) port h = h
unchanged-Takes (ok a) port h = omega arith

copy_data_to_status-Ends :
    {S : Type 0} (layout : Layout S) (as_status : S → AllStatus) (dat : List ℕ)
    → Ends (copy_data_to_status layout as_status dat)
unfolding Ends
copy_data_to_status-Ends {S = S} layout as_status dat = from (layout.unpack dat)
  where
    from :
        (o : Option S)
        → Ends (copy_data_to_status (record { pack = layout.pack; unpack = λ bs. o }) as_status dat)
    from none = refl
    from (some s) = tt

module _ (traits : AptDeviceTraits) where
  status_of-Ends : (reply : AptReply) → Ends (status_of traits reply)
  unfolding extract_status_from_data Ends
  status_of-Ends reply = from reply.payload
    where
      from :
          (o : Option (List ℕ)) → Ends (status_of traits (record { p1 = 0; p2 = 0; payload = o }))
      from none = refl
      from (some dat) =
          let sent = opcode_code traits.status_request_code in
          let short =
            if sent == opcode_code mgmsg_mot_req_statusupdate
            then copy_data_to_status channel_status_layout channel dat
            else err bad_status_code in
          if-Ends (sent == opcode_code mgmsg_mot_req_dcstatusupdate)
            (copy_data_to_status dcstatus_layout dc dat) short
            (copy_data_to_status-Ends dcstatus_layout dc dat)
            (if-Ends (sent == opcode_code mgmsg_mot_req_statusupdate)
              (copy_data_to_status channel_status_layout channel dat) (err bad_status_code)
              (copy_data_to_status-Ends channel_status_layout channel dat) refl)

  judge-Ends :
      (completion : Opcode) (init : Bool) (retries : ℕ) (reply : AptReply) (received : ℕ)
      → Ends (judge traits completion init retries reply received)
  unfolding judge Ends
  judge-Ends completion init retries reply received =
      let judged = λ (s : AllStatus). judge_status traits init retries (statusbits_of s) in
      let last : Result Error Verdict =
        if is_opcode received completion then ok complete else ok unexpected in
      if-Ends (is_opcode received traits.status_get_code)
        (elim (status_of traits reply) [ err e ↦ err e | ok s ↦ ok (judged s) ]) last
        (map-Ends judged (status_of traits reply) (status_of-Ends reply))
        (if-Ends (is_opcode received completion) (ok complete) (ok unexpected) tt tt)

  act_on-Ends :
      (flushed : List ℕ → List ℕ) (dest : Destination) (chan : MotorChannel)
      (continue : Bool → ℕ → Apt (Unit {0})) (v : Verdict) (port : Port)
      → ((init : Bool) (retries : ℕ) → Ends (continue init retries port).0)
      → Ends (act_on traits flushed dest chan continue v port).0
  unfolding act_on flush stop_move transmit_message ◌>>◌ Ends
  act_on-Ends flushed dest chan continue (go_on init retries) port h = h init retries
  act_on-Ends flushed dest chan continue complete port h = tt
  act_on-Ends flushed dest chan continue crashed port h = refl
  act_on-Ends flushed dest chan continue failed port h = refl
  act_on-Ends flushed dest chan continue unexpected port h = refl

  module _ (flushed : List ℕ → List ℕ) (completion : Opcode) (dest : Destination)
      (chan : MotorChannel) where
    pub wait_loop-Ends :
        (fuel : ℕ) (init : Bool) (retries : ℕ) (port : Port)
        → length port.incoming < fuel
        → Ends (wait_loop traits flushed completion dest chan fuel init retries port).0
    unfolding wait_loop Ends
    wait_loop-Ends zero init retries port lt = absurd (omega (arith, lt))
    wait_loop-Ends (suc fuel) init retries port lt =
        bind-Ends (receive_sync_common flushed dest) _ port 6 (length port.incoming)
          (receive_sync_common-Takes flushed dest port)
          (λ message p h.
            bind-Ends (λ q. (judge traits completion init retries message.0 message.1, q)) _ p 0
              (length p.incoming)
              (unchanged-Takes _ p (judge-Ends completion init retries message.0 message.1))
              (λ v q h'.
                act_on-Ends flushed dest chan (wait_loop traits flushed completion dest chan fuel) v
                  q
                  (λ init' retries'.
                    wait_loop-Ends fuel init' retries' q (omega (arith, lt, h, h')))))
