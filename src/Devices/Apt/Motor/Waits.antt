-- ===== src/Devices/Apt/Motor/Waits.antt =====
-- How a wait for the end of a move takes the statuses that the controller sends.
use foxtrot.Base.{ℕ, suc, ◌≡◌, ◌∙◌, ap, arith, Bool, some, List, ◌++◌, ok}
use foxtrot.Base.Action.{bind_eq}
use foxtrot.Devices.Apt.Opcodes.{
  Opcode, opcode_code, mgmsg_mot_req_statusupdate, mgmsg_mot_req_dcstatusupdate,
}
use foxtrot.Devices.Apt.Structs.{Layout, channel_status_layout, dcstatus_layout}
use foxtrot.Devices.Apt.Layouts.{ChannelStatusFits, DcStatusFits, layouts-IsLayout}
use foxtrot.Devices.Apt.Frames.{
  Message, long, IsMessage, frame, reply_of, receive_sync_common-frame,
}
use foxtrot.Devices.Apt.Replies.{eq_lem, opcode_code-bounds}
use foxtrot.Devices.Apt.{Destination, MotorChannel, receive_sync_common}
use foxtrot.Devices.Apt.Motor.{
  AptDeviceTraits, AllStatus, channel, dc, statusbits_of, Verdict, extract_status_from_data,
  copy_data_to_status, judge_status, status_of, judge,
}
use foxtrot.Devices.Apt.Motor.Moves.{act_on, wait_loop}

copy_data_to_status-unpack :
    {S : Type 0} (layout : Layout S) (as_status : S → AllStatus) (dat : List ℕ) (s : S)
    → layout.unpack dat ≡ some s
    → copy_data_to_status layout as_status dat ≡ ok (as_status s)
copy_data_to_status-unpack layout as_status dat s h = rw (copy_data_to_status, h)

module _ (traits : AptDeviceTraits) where
  -- The message with a status.
  abbrev pub status_message : AllStatus → Message
  status_message (channel s) =
      long (opcode_code traits.status_get_code) (channel_status_layout.pack s)
  status_message (dc s) = long (opcode_code traits.status_get_code) (dcstatus_layout.pack s)

  -- A status of the kind that the controller sends, that fits its struct.
  abbrev pub IsStatus : AllStatus → Type 0
  IsStatus (channel s) =
      (traits.status_request_code ≡ mgmsg_mot_req_statusupdate) × ChannelStatusFits s
  IsStatus (dc s) = (traits.status_request_code ≡ mgmsg_mot_req_dcstatusupdate) × DcStatusFits s

  pub status_message-IsMessage : (s : AllStatus) → IsStatus s → IsMessage (status_message s)
  status_message-IsMessage (channel s) (_, fits) =
      let n = layouts-IsLayout.1.length-pack s fits in
      (opcode_code-bounds traits.status_get_code, omega (arith, n), omega (arith, n))
  status_message-IsMessage (dc s) (_, fits) =
      let n = layouts-IsLayout.2.length-pack s fits in
      (opcode_code-bounds traits.status_get_code, omega (arith, n), omega (arith, n))

  status_of_lem :
      (s : AllStatus) → IsStatus s → status_of traits (reply_of (status_message s)).0 ≡ ok s
  unfolding extract_status_from_data
  status_of_lem (channel s) (code, fits) = rw code (
      copy_data_to_status-unpack channel_status_layout channel _ s
        (layouts-IsLayout.1.unpack-pack s fits))
  status_of_lem (dc s) (code, fits) =
      rw code
        (copy_data_to_status-unpack dcstatus_layout dc _ s (layouts-IsLayout.2.unpack-pack s fits))

  pub judge_status_message :
      (completion : Opcode) (init : Bool) (retries : ℕ) (s : AllStatus)
      → IsStatus s
      → judge traits completion init retries
          (reply_of (status_message s)).0
          (reply_of (status_message s)).1
        ≡ ok (judge_status traits init retries (statusbits_of s))
  unfolding judge
  judge_status_message completion init retries (channel s) h =
      rw (eq_lem (opcode_code traits.status_get_code), status_of_lem (channel s) h)
  judge_status_message completion init retries (dc s) h =
      rw (eq_lem (opcode_code traits.status_get_code), status_of_lem (dc s) h)

  module _ (flushed : List ℕ → List ℕ) (completion : Opcode) (dest : Destination)
      (chan : MotorChannel) where
    -- A round takes a message and does what its verdict says.
    pub wait_loop-act_on :
        (fuel : ℕ) (init : Bool) (retries : ℕ) (m : Message) (v : Verdict) (rest w : List ℕ)
        → IsMessage m
        → judge traits completion init retries (reply_of m).0 (reply_of m).1 ≡ ok v
        → wait_loop traits flushed completion dest chan
            (suc fuel)
            init
            retries
            (record { incoming = frame dest m ++ rest; written = w })
          ≡ act_on traits flushed dest chan
              (wait_loop traits flushed completion dest chan fuel)
              v
              (record { incoming = rest; written = w })
    unfolding wait_loop
    wait_loop-act_on fuel init retries m v rest w hm hj =
        bind_eq (receive_sync_common flushed dest) _ _ _ _
          (receive_sync_common-frame flushed dest m rest w hm)
        ∙ bind_eq _ _ _ _ v (ap (λ r. (r, record { incoming = rest; written = w })) hj)
