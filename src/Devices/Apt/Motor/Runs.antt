-- ===== src/Devices/Apt/Motor/Runs.antt =====
-- Whole waits: which runs of statuses a move survives, and how each end leaves the port.
use foxtrot.Base.{
  if◌then◌else◌, ℕ, ◌+◌, ◌-◌, ◌≤◌, ◌≡◌, sym, ◌∙◌, ap, arith, Bool, true, ◌||◌, List, [], ◌∷◌, ◌++◌,
  append_assoc, ok, length, length-append, map, All,
}
use native.Mathlib.Nat.{zero-add, add-zero, suc-add, add_assoc}
use foxtrot.Devices.Apt.Opcodes.{Opcode}
use foxtrot.Devices.Apt.Frames.{Message, short, long, frame}
use foxtrot.Devices.Apt.{Destination, MotorChannel}
use foxtrot.Devices.Apt.Motor.{
  AptDeviceTraits, AllStatus, statusbits_of, is_homing, check_status_bits, go_on, judge_status,
}
use foxtrot.Devices.Apt.Motor.Moves.{act_on, wait_loop}
use foxtrot.Devices.Apt.Motor.Waits.{
  status_message, IsStatus, status_message-IsMessage, judge_status_message, wait_loop-act_on,
}

abbrev pub frames : Destination → List Message → List ℕ
frames source [] = []
frames source (m ∷ ms) = frame source m ++ frames source ms

-- A status with which a motor may go on: it moves and is at no limit, or it is homing.
abbrev pub good : AllStatus → Bool
good s = check_status_bits (statusbits_of s) true true

abbrev pub tolerable : AllStatus → Bool
tolerable s = good s || is_homing (statusbits_of s)

-- How many of the statuses fail while the motor is homing.
abbrev pub failure : AllStatus → ℕ
failure s = if good s then 0 else if is_homing (statusbits_of s) then 1 else 0

abbrev pub failures : List AllStatus → ℕ
failures [] = 0
failures (s ∷ ss) = failure s + failures ss

add-sub_cancel : (m n : ℕ) → m ≤ n → m + (n - m) ≡ n
add-sub_cancel m n h = omega arith

length-frame : (dest : Destination) (m : Message) → 6 ≤ length (frame dest m)
length-frame dest (short op p1 p2) = omega arith
length-frame dest (long op dat) = omega arith

module _ (traits : AptDeviceTraits) where
  judge_status-tolerable :
      (init : Bool) (retries : ℕ) (s : AllStatus)
      → tolerable s ≡ true
      → retries + failure s ≤ traits.n_ignore_failed_motor_msgs
      → judge_status traits init retries (statusbits_of s) ≡ go_on init (retries + failure s)
  unfolding judge_status
  judge_status-tolerable init retries s h few = ground arith

  module _ (flushed : List ℕ → List ℕ) (completion : Opcode) (dest : Destination)
      (chan : MotorChannel) where
    -- The wait takes a run of tolerable statuses, if it may ignore as many failures, and only counts.
    pub wait_loop-frames :
        (ss : List AllStatus) (fuel : ℕ) (init : Bool) (retries : ℕ) (rest w : List ℕ)
        → All (IsStatus traits) ss
        → All (λ s. tolerable s ≡ true) ss
        → retries + failures ss ≤ traits.n_ignore_failed_motor_msgs
        → wait_loop traits flushed completion dest chan (length ss + fuel) init retries (record {
          incoming = frames dest (map (status_message traits) ss) ++ rest;
          written = w;
        })
          ≡ wait_loop traits flushed completion dest chan fuel init
              (retries + failures ss)
              (record { incoming = rest; written = w })
    unfolding act_on
    wait_loop-frames [] fuel init retries rest w hs ht few = rw (zero-add fuel, add-zero retries)
    wait_loop-frames (s ∷ ss) fuel init retries rest w (h, hs) (t, ts) few =
        rw
          (
            suc-add (length ss) fuel,
            append_assoc (frame dest (status_message traits s))
                (frames dest (map (status_message traits) ss)) rest,
          )
          (wait_loop-act_on traits flushed completion dest chan (length ss + fuel) init retries
              (status_message traits s) _ _ w (status_message-IsMessage traits s h)
              (judge_status_message traits completion init retries s h
                ∙ ap ok (judge_status-tolerable init retries s t (omega (arith, few))))
            ∙ wait_loop-frames ss fuel init (retries + failure s) rest w hs ts (omega (arith, few))
            ∙ rw (add_assoc retries (failure s) (failures ss)))

    -- The same of any fuel that the statuses do not use up.
    pub wait_loop-tolerable :
        (ss : List AllStatus) (fuel : ℕ) (init : Bool) (rest w : List ℕ)
        → length ss ≤ fuel
        → All (IsStatus traits) ss
        → All (λ s. tolerable s ≡ true) ss
        → failures ss ≤ traits.n_ignore_failed_motor_msgs
        → wait_loop traits flushed completion dest chan fuel init 0 (record {
          incoming = frames dest (map (status_message traits) ss) ++ rest;
          written = w;
        })
          ≡ wait_loop traits flushed completion dest chan
              (fuel - length ss)
              init
              (failures ss)
              (record { incoming = rest; written = w })
    wait_loop-tolerable ss fuel init rest w enough hs ht few =
        let fuel_eq = add-sub_cancel (length ss) fuel enough in
        ap
          (λ f. wait_loop traits flushed completion dest chan f init 0 (record {
            incoming = frames dest (map (status_message traits) ss) ++ rest;
            written = w;
          }))
          (sym fuel_eq)
        ∙ wait_loop-frames ss (fuel - length ss) init 0 rest w hs ht (omega (arith, few))
        ∙ rw (zero-add (failures ss))

-- There are no fewer bytes than messages.
pub length-frames : (dest : Destination) (ms : List Message) → length ms ≤ length (frames dest ms)
length-frames dest [] = omega arith
length-frames dest (m ∷ ms) = omega (
  arith,
  length-frames dest ms,
  length-append (frame dest m) (frames dest ms),
  length-frame dest m,
)
