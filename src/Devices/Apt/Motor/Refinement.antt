-- ===== src/Devices/Apt/Motor/Refinement.antt =====
-- The wait for the end of a move as a fold over the messages that the controller sends.
use foxtrot.Base.{if◌then◌else◌, ℕ, Bool, true, false, List, [], ◌∷◌, ◌++◌, Result, ok, err}
use foxtrot.Devices.Apt.Opcodes.{Opcode, opcode_code, mgmsg_mot_move_stop}
use foxtrot.Devices.Apt.Frames.{Message, reply_of}
use foxtrot.Devices.Apt.{
  Error, crash_suspected, motor_status_failed, unexpected_completion, timed_out, Apt, Destination,
  host, MotorChannel, channel_code, Port, short_message,
}
use foxtrot.Devices.Apt.Motor.{
  AptDeviceTraits, Verdict, go_on, complete, crashed, failed, unexpected, judge,
}
use foxtrot.Devices.Apt.Motor.Runs.{frames}

-- How a wait ends, without bytes: what it returns or throws, whether the port is flushed, whether the
-- motor is stopped, and the messages that it has not read.
pub record Ending : Type 0 where
  pub outcome : Result Error (Unit {0})
  pub flushes : Bool
  pub stops : Bool
  pub unread : List Message

-- The specification takes one message after the other, and does what the verdict on it asks for.
abbrev pub ended : (Bool → ℕ → Ending) → List Message → Result Error Verdict → Ending
ended continue ms (err e) = record { outcome = err e; flushes = false; stops = false; unread = ms }
ended continue ms (ok (go_on init retries)) = continue init retries
ended continue ms (ok complete) = record {
  outcome = ok tt;
  flushes = true;
  stops = false;
  unread = ms;
}
ended continue ms (ok crashed) = record {
  outcome = err crash_suspected;
  flushes = false;
  stops = true;
  unread = ms;
}
ended continue ms (ok failed) = record {
  outcome = err motor_status_failed;
  flushes = true;
  stops = false;
  unread = ms;
}
ended continue ms (ok unexpected) = record {
  outcome = err unexpected_completion;
  flushes = false;
  stops = false;
  unread = ms;
}

abbrev pub follow : AptDeviceTraits → Opcode → List Message → Bool → ℕ → Ending
follow traits completion [] init retries = record {
  outcome = err timed_out;
  flushes = false;
  stops = false;
  unread = [];
}
follow traits completion (m ∷ ms) init retries =
    ended (follow traits completion ms) ms
      (judge traits completion init retries (reply_of m).0 (reply_of m).1)

module _ (traits : AptDeviceTraits) (flushed : List ℕ → List ℕ) (completion : Opcode)
    (dest : Destination) (chan : MotorChannel) where
  -- What an ending means for the port.
  abbrev pub port_of : Ending → List ℕ → Port
  port_of e w = record {
    incoming = if e.flushes then flushed (frames dest e.unread) else frames dest e.unread;
    written =
        if e.stops
        then w ++ short_message (opcode_code mgmsg_mot_move_stop) (channel_code chan) 0x01 dest host
        else w;
  }
