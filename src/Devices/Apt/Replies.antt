-- ===== src/Devices/Apt/Replies.antt =====
-- What the calls that ask and wait for an answer make of the controller's messages.
use foxtrot.Base.{
  if◌then◌else◌, ℕ, ◌<◌, ◌==◌, ◌≡◌, refl, ◌∙◌, arith, Bool, true, false, some, List, ◌++◌, Result,
  ok, err,
}
use foxtrot.Base.Action.{give, throw, bind_eq, then_eq}
use foxtrot.Devices.Apt.Opcodes.{Opcode, opcode_code}
use foxtrot.Devices.Apt.Structs.{Layout}
use foxtrot.Devices.Apt.Layouts.{IsLayout}
use foxtrot.Devices.Apt.Frames.{
  Message, long, IsMessage, frame, reply_of, receive_sync_common-frame,
}
use foxtrot.Devices.Apt.{
  Error, unexpected_opcode, Destination, host, Port, AptReply, is_opcode, is_motor_status,
  short_message, transmit_message, receive_sync_common, receive_exactly, receive_message_sync_check,
  request_response_struct,
}

pub opcode_code-bounds : (o : Opcode) → opcode_code o < 65536
opcode_code-bounds o = ground arith

-- A reply if its opcode is the expected one.
abbrev pub expected_only : Opcode → Message → Result Error AptReply
expected_only o m = if is_opcode (reply_of m).1 o then ok (reply_of m).0 else err unexpected_opcode

pub eq_lem : (n : ℕ) → (n == n) ≡ true
eq_lem n = ground arith

give_if :
    {A : Type 0} (b : Bool) (a : A) (e : Error) (port : Port)
    → (if b then give a else throw e) port ≡ ((if b then ok a else err e), port)
give_if true a e port = refl
give_if false a e port = refl

module _ (flushed : List ℕ → List ℕ) (source : Destination) where
  pub receive_exactly-frame :
      (o : Opcode) (m : Message) (rest w : List ℕ)
      → IsMessage m
      → receive_exactly flushed o source (record { incoming = frame source m ++ rest; written = w })
        ≡ (expected_only o m, record { incoming = rest; written = w })
  unfolding receive_exactly
  receive_exactly-frame o m rest w h =
      bind_eq (receive_sync_common flushed source) _ _ _ _
        (receive_sync_common-frame flushed source m rest w h)
      ∙ give_if (is_opcode (reply_of m).1 o) (reply_of m).0 unexpected_opcode _

  -- The expected message is taken, whatever follows it.
  pub receive_message_sync_check-expected :
      (o : Opcode) (m : Message) (rest w : List ℕ)
      → IsMessage m
      → (reply_of m).1 ≡ opcode_code o
      → receive_message_sync_check flushed o source
          (record { incoming = frame source m ++ rest; written = w })
        ≡ (ok (reply_of m).0, record { incoming = rest; written = w })
  unfolding receive_message_sync_check
  receive_message_sync_check-expected o m rest w h same =
      bind_eq (receive_sync_common flushed source) _ _ _ _
        (receive_sync_common-frame flushed source m rest w h)
      ∙ rw (same, eq_lem (opcode_code o))

  -- One status of a motor that nobody asked for is thrown away, and the next message must be the
  -- expected one: else the call throws, also for a second status.
  pub receive_message_sync_check_one_status :
      (o : Opcode) (status m : Message) (rest w : List ℕ)
      → IsMessage status
      → IsMessage m
      → is_opcode (reply_of status).1 o ≡ false
      → is_motor_status (reply_of status).1 ≡ true
      → receive_message_sync_check flushed o source
          (record { incoming = frame source status ++ (frame source m ++ rest); written = w })
        ≡ (expected_only o m, record { incoming = rest; written = w })
  unfolding receive_message_sync_check
  receive_message_sync_check_one_status o status m rest w hs hm other motor =
      bind_eq (receive_sync_common flushed source) _ _ _ _
        (receive_sync_common-frame flushed source status (frame source m ++ rest) w hs)
      ∙ rw (other, motor) (receive_exactly-frame o m rest w hm)

module _ (flushed : List ℕ → List ℕ) where
  -- If the controller answers with the bytes of a struct that fits its layout, then the call writes the
  -- request, returns the struct and takes the answer's bytes only.
  pub request_response_struct-pack :
      {T : Type 0} {Fits : T → Type 0} {size : ℕ} (layout : Layout T)
      (laws : IsLayout layout Fits size) (send recv : Opcode) (dest source : Destination)
      (p1 p2 : ℕ) (x : T) (rest w : List ℕ)
      → size < 128
      → Fits x
      → request_response_struct flushed layout send recv dest p1 p2 (some source) (record {
        incoming = frame source (long (opcode_code recv) (layout.pack x)) ++ rest;
        written = w;
      })
        ≡ (
          ok x,
          record {
            incoming = rest;
            written = w ++ short_message (opcode_code send) p1 p2 dest host;
          },
        )
  unfolding request_response_struct transmit_message
  request_response_struct-pack layout laws send recv dest source p1 p2 x rest w small fits =
      then_eq (transmit_message send p1 p2 dest) _ _ _ refl
      ∙ bind_eq (receive_message_sync_check flushed recv source) _ _ _ _ (
          receive_message_sync_check-expected flushed source recv
            (long (opcode_code recv) (layout.pack x)) rest _
            (
              opcode_code-bounds recv,
              omega (arith, small, laws.length-pack x fits),
              omega (arith, small, laws.length-pack x fits),
            )
            refl)
      ∙ rw (laws.unpack-pack x fits)
