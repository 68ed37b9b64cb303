-- ===== src/Devices/Apt/Motor/Ends.antt =====
-- How a wait for the end of a move ends.
use foxtrot.Base.{
  ℕ, suc, ◌+◌, ◌-◌, ◌≤◌, ◌≡◌, ◌≢◌, ◌==◌, refl, ◌∙◌, ap, arith, Bool, true, false, ◌&&◌, List, ◌++◌,
  Result, ok, err, length, length-append, length-map, map, All,
}
use foxtrot.Base.Action.{throw, finally, then_eq}
use foxtrot.Devices.Apt.Opcodes.{
  Opcode, opcode_code, mgmsg_hw_start_updatemsgs, mgmsg_hw_stop_updatemsgs, mgmsg_mot_move_stop,
}
use foxtrot.Devices.Apt.Frames.{Message, IsMessage, frame, reply_of}
use foxtrot.Devices.Apt.Replies.{eq_lem}
use foxtrot.Devices.Apt.{
  Error, crash_suspected, motor_status_failed, Destination, host, MotorChannel, channel_code, Port,
  Apt, short_message, transmit_message, flush,
}
use foxtrot.Devices.Apt.Motor.{
  AptDeviceTraits, AllStatus, statusbits_of, is_homing, at_limit, Verdict, complete, crashed,
  failed, judge, judge_status, guarded,
}
use foxtrot.Devices.Apt.Motor.Moves.{stop_move, act_on, wait_loop, wait_blocking_move}
use foxtrot.Devices.Apt.Motor.Waits.{
  status_message, IsStatus, status_message-IsMessage, judge_status_message, wait_loop-act_on,
}
use foxtrot.Devices.Apt.Motor.Runs.{
  frames, good, tolerable, failures, wait_loop-tolerable, length-frames,
}

-- The bytes that ask for status updates and that end them.
abbrev pub start_bytes : Destination → List ℕ
start_bytes dest = short_message (opcode_code mgmsg_hw_start_updatemsgs) 0x0A 0x0 dest host

abbrev pub stop_bytes : Destination → List ℕ
stop_bytes dest = short_message (opcode_code mgmsg_hw_stop_updatemsgs) 0x0 0x0 dest host

-- A block with the updates on writes the bytes that end them, whatever it does.
pub guarded_eq :
    {A : Type 0} (dest : Destination) (act : Apt A) (port after : Port) (r : Result Error A)
    → act (record port { written = port.written ++ start_bytes dest }) ≡ (r, after)
    → guarded true dest act port ≡ (r, record after { written = after.written ++ stop_bytes dest })
unfolding guarded transmit_message
guarded_eq dest act port after r h =
    then_eq _ (finally act (λ x. record x { written = x.written ++ stop_bytes dest })) port
      (record port { written = port.written ++ start_bytes dest }) refl
    ∙ ap (λ p. (p.0, record p.1 { written = p.1.written ++ stop_bytes dest })) h

neq_lem : (m n : ℕ) → m ≢ n → (m == n) ≡ false
neq_lem m n h = ground arith

one_more : (m n : ℕ) → n ≤ m → m + 1 - n ≡ suc (m - n)
one_more m n h = omega arith

module _ (traits : AptDeviceTraits) (completion : Opcode) (init : Bool) (retries : ℕ) where
  judge_completes :
      (m : Message)
      → (reply_of m).1 ≡ opcode_code completion
      → opcode_code completion ≢ opcode_code traits.status_get_code
      → judge traits completion init retries (reply_of m).0 (reply_of m).1 ≡ ok complete
  unfolding judge
  judge_completes m same differ = rw (same, neq_lem _ _ differ, eq_lem (opcode_code completion))

module _ (traits : AptDeviceTraits) (init : Bool) (retries : ℕ) (s : AllStatus) where
  judge_status-crashed :
      good s ≡ false
      → is_homing (statusbits_of s) ≡ true
      → traits.n_ignore_failed_motor_msgs ≤ retries
      → judge_status traits init retries (statusbits_of s) ≡ crashed
  unfolding judge_status
  judge_status-crashed bad homing many = ground arith

  judge_status-failed :
      tolerable s ≡ false
      → (at_limit (statusbits_of s) && init) ≡ false
      → judge_status traits init retries (statusbits_of s) ≡ failed
  unfolding judge_status
  judge_status-failed bad limit = ground arith

module _ (traits : AptDeviceTraits) (flushed : List ℕ → List ℕ) (completion : Opcode)
    (dest : Destination) (chan : MotorChannel) where
  -- A wait for which a run of tolerable statuses comes and then a message that ends it.
  wait_blocking_move-end :
      (ss : List AllStatus) (m : Message) (init : Bool) (rest w : List ℕ) (v : Verdict)
      → All (IsStatus traits) ss
      → All (λ s. tolerable s ≡ true) ss
      → failures ss ≤ traits.n_ignore_failed_motor_msgs
      → IsMessage m
      → judge traits completion init (failures ss) (reply_of m).0 (reply_of m).1 ≡ ok v
      → (r : Result Error (Unit {0})) (after : Port)
      → ((fuel : ℕ)
          → act_on traits flushed dest chan
              (wait_loop traits flushed completion dest chan fuel)
              v
              (record { incoming = rest; written = w ++ start_bytes dest })
            ≡ (r, after))
      → wait_blocking_move traits flushed completion dest chan init (record {
        incoming = frames dest (map (status_message traits) ss) ++ (frame dest m ++ rest);
        written = w;
      })
        ≡ (r, record after { written = after.written ++ stop_bytes dest })
  unfolding wait_blocking_move
  wait_blocking_move-end ss m init rest w v hs ht few hm hj r after last =
      let bytes = frames dest (map (status_message traits) ss) in
      let all = length (bytes ++ (frame dest m ++ rest)) in
      let enough : length ss ≤ all = omega (
        arith,
        length-append bytes (frame dest m ++ rest),
        length-frames dest (map (status_message traits) ss),
        length-map (status_message traits) ss,
      ) in
      guarded_eq dest _ _ after r (
        wait_loop-tolerable traits flushed completion dest chan ss (all + 1) init
          (frame dest m ++ rest) (w ++ start_bytes dest) (omega (arith, enough)) hs ht few
        ∙ ap
            (λ fuel.
              wait_loop traits flushed completion dest chan fuel init (failures ss)
                (record { incoming = frame dest m ++ rest; written = w ++ start_bytes dest }))
            (one_more all (length ss) enough)
        ∙ wait_loop-act_on traits flushed completion dest chan (all - length ss) init (failures ss)
            m v rest (w ++ start_bytes dest) hm hj
        ∙ last (all - length ss))

  -- A wait whose controller sends any number of tolerable statuses, no more failures among them than are
  -- ignored, and then the completion that is expected, returns, with the port flushed. What it has
  -- written is the request for updates and the end of them.
  pub wait_blocking_move_completes :
      (ss : List AllStatus) (m : Message) (init : Bool) (rest w : List ℕ)
      → All (IsStatus traits) ss
      → All (λ s. tolerable s ≡ true) ss
      → failures ss ≤ traits.n_ignore_failed_motor_msgs
      → IsMessage m
      → (reply_of m).1 ≡ opcode_code completion
      → opcode_code completion ≢ opcode_code traits.status_get_code
      → wait_blocking_move traits flushed completion dest chan init (record {
        incoming = frames dest (map (status_message traits) ss) ++ (frame dest m ++ rest);
        written = w;
      })
        ≡ (
          ok tt,
          record { incoming = flushed rest; written = (w ++ start_bytes dest) ++ stop_bytes dest },
        )
  unfolding act_on flush
  wait_blocking_move_completes ss m init rest w hs ht few hm same differ =
      wait_blocking_move-end ss m init rest w complete hs ht few hm
        (judge_completes traits completion init (failures ss) m same differ) (ok tt)
        (record { incoming = flushed rest; written = w ++ start_bytes dest }) (λ fuel. refl)

  -- If as many failures as are ignored have come while the motor was homing, then one more makes the wait
  -- stop the motor at once and throw. The port is not flushed, and the updates are ended.
  pub wait_blocking_move_crash :
      (ss : List AllStatus) (s : AllStatus) (init : Bool) (rest w : List ℕ)
      → All (IsStatus traits) ss
      → All (λ x. tolerable x ≡ true) ss
      → failures ss ≡ traits.n_ignore_failed_motor_msgs
      → IsStatus traits s
      → good s ≡ false
      → is_homing (statusbits_of s) ≡ true
      → wait_blocking_move traits flushed completion dest chan init (record {
        incoming =
            frames dest (map (status_message traits) ss)
            ++ (frame dest (status_message traits s) ++ rest);
        written = w;
      })
        ≡ (
          err crash_suspected,
          record {
            incoming = rest;
            written =
                ((w ++ start_bytes dest)
                  ++ short_message
                      (opcode_code mgmsg_mot_move_stop)
                      (channel_code chan)
                      0x01
                      dest
                      host)
                ++ stop_bytes dest;
          },
        )
  unfolding act_on stop_move transmit_message
  wait_blocking_move_crash ss s init rest w hs ht few h bad homing =
      wait_blocking_move-end ss (status_message traits s) init rest w crashed hs ht
        (omega (arith, few)) (status_message-IsMessage traits s h)
        (judge_status_message traits completion init (failures ss) s h
          ∙ ap ok
              (judge_status-crashed traits init (failures ss) s bad homing (omega (arith, few))))
        (err crash_suspected)
        (record {
          incoming = rest;
          written =
              (w ++ start_bytes dest)
              ++ short_message (opcode_code mgmsg_mot_move_stop) (channel_code chan) 0x01 dest host;
        })
        (λ fuel. then_eq (stop_move dest chan true) (throw crash_suspected) _ _ refl)

  -- A status that is not tolerable ends the wait with the exception for a failed motor, and the port is
  -- flushed; only a wait that began at a limit switch is not ended by a motor at a limit.
  pub wait_blocking_move_fails :
      (ss : List AllStatus) (s : AllStatus) (init : Bool) (rest w : List ℕ)
      → All (IsStatus traits) ss
      → All (λ x. tolerable x ≡ true) ss
      → failures ss ≤ traits.n_ignore_failed_motor_msgs
      → IsStatus traits s
      → tolerable s ≡ false
      → (at_limit (statusbits_of s) && init) ≡ false
      → wait_blocking_move traits flushed completion dest chan init (record {
        incoming =
            frames dest (map (status_message traits) ss)
            ++ (frame dest (status_message traits s) ++ rest);
        written = w;
      })
        ≡ (
          err motor_status_failed,
          record { incoming = flushed rest; written = (w ++ start_bytes dest) ++ stop_bytes dest },
        )
  unfolding act_on flush
  wait_blocking_move_fails ss s init rest w hs ht few h bad limit =
      wait_blocking_move-end ss (status_message traits s) init rest w failed hs ht few
        (status_message-IsMessage traits s h)
        (judge_status_message traits completion init (failures ss) s h
          ∙ ap ok (judge_status-failed traits init (failures ss) s bad limit))
        (err motor_status_failed)
        (record { incoming = flushed rest; written = w ++ start_bytes dest })
        (λ fuel. then_eq (flush flushed) (throw motor_status_failed) _ _ refl)
