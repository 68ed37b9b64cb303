-- ===== src/Devices/Apt.antt =====
-- The messages of Thorlabs APT controllers: devices/Thorlabs_APT/APT.cpp, APT.h and APT_defs.hh.
--
-- The port is the bytes that come in and those that were written. `flushed` says which of the bytes
-- still to come a flush leaves. A read of more bytes than come in throws a timeout, and has taken what
-- came. A byte is read through a `char`, which is signed on the platforms the server runs on.
pub mod Opcodes
pub mod Bytes
pub mod Structs
pub mod Layouts
pub mod Motor
pub mod M30x
pub mod Frames
pub mod Takes
pub mod Replies
use foxtrot.Base.{
  ℕ, ◌+◌, ◌*◌, ◌/◌, ◌%◌, Bool, true, false, not, ◌&&◌, ◌||◌, Option, none, some, List, [], ◌∷◌,
  ◌++◌, Result, ok, err, ltb, leb, ◌==◌, if◌then◌else◌, length, take, drop,
}
use foxtrot.Base.Action.{Action, ◌>>=◌, ◌>>◌, give, throw, modify}
use Prim.Native.Nat.{bit_and, bit_or}
use foxtrot.Devices.Apt.Opcodes.{
  Opcode, opcode_code, mgmsg_mot_move_completed, mgmsg_mot_move_homed, mgmsg_mot_move_stopped,
  mgmsg_mot_get_statusupdate,
}
use foxtrot.Devices.Apt.Structs.{Layout}

-- The exceptions; `undefined` stands for behaviour that C++ leaves undefined, and `out_of_fuel` is no
-- exception of the code.
pub data Error : Type 0 where
  null_destination all_zeros unexpected_source unexpected_opcode no_data size_mismatch : Error
  motor_status_failed crash_suspected unexpected_completion still_homing bad_status_code : Error
  timed_out undefined out_of_fuel : Error

pub data Destination : Type 0 where
  host rack generic_usb bay1 bay2 bay3 : Destination

abbrev pub destination_code : Destination → ℕ
destination_code host = 0x01
destination_code rack = 0x11
destination_code generic_usb = 0x50
destination_code bay1 = 0x21
destination_code bay2 = 0x22
destination_code bay3 = 0x23

pub data MotorChannel : Type 0 where
  channel_1 channel_2 channel_3 channel_4 : MotorChannel

abbrev pub channel_code : MotorChannel → ℕ
channel_code channel_1 = 0x01
channel_code channel_2 = 0x02
channel_code channel_3 = 0x04
channel_code channel_4 = 0x08

pub record Port : Type 0 where
  pub incoming : List ℕ
  pub written : List ℕ

abbrev pub Apt : Type 0 → Type 0
Apt A = Action Error Port A

-- The two kinds of message, as bytes.
abbrev pub short_message : ℕ → ℕ → ℕ → Destination → Destination → List ℕ
short_message opcode p1 p2 dest src =
    opcode % 256 ∷ opcode / 256 % 256 ∷ p1 ∷ p2 ∷ destination_code dest ∷ destination_code src ∷ []

abbrev pub data_message : ℕ → List ℕ → Destination → Destination → List ℕ
data_message opcode dat dest src =
    opcode % 256
    ∷ opcode / 256 % 256
    ∷ length dat % 256
    ∷ length dat / 256 % 256
    ∷ bit_or (destination_code dest) 0x80
    ∷ destination_code src
    ∷ dat

abbrev pub write : List ℕ → Apt (Unit {0})
write bytes port = (ok tt, record port { written = port.written ++ bytes })

-- `transmit_message` with two parameters, with a channel, and with data, from the host.
unfoldable pub transmit_message : Opcode → ℕ → ℕ → Destination → Apt (Unit {0})
transmit_message opcode p1 p2 dest = write (short_message (opcode_code opcode) p1 p2 dest host)

unfoldable pub transmit_to_channel : Opcode → Destination → MotorChannel → Apt (Unit {0})
unfolding transmit_message
transmit_to_channel opcode dest chan = transmit_message opcode (channel_code chan) 0 dest

unfoldable pub transmit_data : Opcode → List ℕ → Destination → Apt (Unit {0})
transmit_data opcode dat dest = write (data_message (opcode_code opcode) dat dest host)

pub record AptReply : Type 0 where
  pub p1 : ℕ
  pub p2 : ℕ
  pub payload : Option (List ℕ)

-- The 16-bit pattern of a `char`.
abbrev pub sign_extended : ℕ → ℕ
sign_extended c = if ltb c 128 then c else c + 65280

-- `(b3 << 8) | b2` of two `char`s, as an `unsigned short`: a set sign of `b2` fills the high byte.
abbrev pub data_length : ℕ → ℕ → ℕ
data_length b2 b3 = if ltb b2 128 then b3 * 256 + b2 else sign_extended b2

-- `read_definite(n)`
abbrev pub read_definite : ℕ → Apt (List ℕ)
read_definite n port =
    if leb n (length port.incoming)
    then (ok (take n port.incoming), record port { incoming = drop n port.incoming })
    else (err timed_out, record port { incoming = [] })

abbrev pub is_opcode : ℕ → Opcode → Bool
is_opcode received opcode = received == opcode_code opcode

abbrev pub is_motor_status : ℕ → Bool
is_motor_status received =
    is_opcode received mgmsg_mot_move_completed
    || is_opcode received mgmsg_mot_move_homed
    || is_opcode received mgmsg_mot_move_stopped
    || is_opcode received mgmsg_mot_get_statusupdate

-- What `_response_struct_common` makes of a reply's data.
abbrev pub struct_of : {T : Type 0} → Layout T → Option (List ℕ) → Apt T
struct_of layout none = throw no_data
struct_of layout (some dat) = elim (layout.unpack dat) [
  | none ↦ throw size_mismatch
  | some t ↦ give t
]

module _ (flushed : List ℕ → List ℕ) where
  unfoldable pub flush : Apt (Unit {0})
  flush port = (ok tt, record port { incoming = flushed port.incoming })

  -- The checks of a header, and the data behind it.
  unfoldable pub receive_header : Destination → List ℕ → Apt (AptReply × ℕ)
  unfolding flush
  receive_header source (b0 ∷ b1 ∷ b2 ∷ b3 ∷ b4 ∷ b5 ∷ []) =
      if b4 == 0
      then flush >> throw null_destination
      else if b0 == 0 && b1 == 0 && b2 == 0 && b3 == 0 && b4 == 0 && b5 == 0
      then flush >> throw all_zeros
      else if not (b5 == destination_code source)
      then flush >> throw unexpected_source
      else if bit_and b4 0x80 == 0x80
      then (do
        dat ← read_definite (data_length b2 b3)
        give (record { p1 = b2; p2 = b3; payload = some dat }, b1 * 256 + b0))
      else give (record { p1 = b2; p2 = b3; payload = none }, b1 * 256 + b0)
  receive_header source _ = throw timed_out

  unfoldable pub receive_sync_common : Destination → Apt (AptReply × ℕ)
  unfolding receive_header
  receive_sync_common source = read_definite 6 >>= receive_header source

  -- `receive_message_sync_check` for one opcode, without and with leave to discard a motor's status.
  unfoldable pub receive_exactly : Opcode → Destination → Apt AptReply
  unfolding receive_sync_common
  receive_exactly expected source = do
    (out, received) ← receive_sync_common source
    if is_opcode received expected then give out else throw unexpected_opcode

  unfoldable pub receive_message_sync_check : Opcode → Destination → Apt AptReply
  unfolding receive_sync_common receive_exactly
  receive_message_sync_check expected source = do
    (out, received) ← receive_sync_common source
    if is_opcode received expected
        then give out
        else if is_motor_status received
        then receive_exactly expected source
        else throw unexpected_opcode

  -- `request_response_struct`
  unfoldable pub request_response_struct :
      {T : Type 0} → Layout T → Opcode → Opcode → Destination → ℕ → ℕ → Option Destination → Apt T
  unfolding transmit_message receive_message_sync_check
  request_response_struct layout send recv dest p1 p2 expd_src = do
    transmit_message send p1 p2 dest
    ret ← receive_message_sync_check recv (elim expd_src [ none ↦ dest | some source ↦ source ])
    struct_of layout ret.payload
