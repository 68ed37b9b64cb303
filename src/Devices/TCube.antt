-- ===== src/Devices/TCube.antt =====
-- The TCube Edge chiller: devices/ssc_chiller/ssc_tcube_edge.cpp. A text is the list of its bytes, and time
-- is in milliseconds. What the chiller answers to a line, when a thread wakes that sleeps, the reading
-- of numbers and their printing with one decimal are arguments.
pub mod Lines
pub mod Spacing
mod Tests
use foxtrot.Base.{
  ℕ, zero, suc, ◌+◌, ◌/◌, ◌%◌, ◌^◌, ◌<◌, ◌≤◌, ◌≡◌, Bool, true, false, Option, none, some, List, [],
  ◌∷◌, ◌++◌, Result, ok, err, ltb, ◌==◌, if◌then◌else◌, length, take, bytes_eq, ◌-◌,
}
use foxtrot.Base.Action.{Action, ◌>>=◌, ◌>>◌, give, throw}

-- `std::logic_error` for an empty request, `std::runtime_error` for an answer that is none, and what
-- `std::stod` and `std::stoul` throw. `out_of_fuel` is no exception of the code.
pub data Error : Type 0 where
  empty_request invalid_response invalid_number out_of_fuel : Error

-- What was written has the time with it.
pub record TCubeEdge : Type 0 where
  pub now : ℕ
  pub last_command_sent : Option ℕ
  pub written : List (ℕ × List ℕ)

abbrev pub Chiller : Type 0 → Type 0
Chiller A = Action Error TCubeEdge A

abbrev pub eol : ℕ
eol = 0x0d

-- `find(char(0x0d))`
abbrev pub find_eol : List ℕ → Option ℕ
find_eol [] = none
find_eol (c ∷ cs) =
    let rest = find_eol cs in
    if c == eol then some 0 else (elim rest [ none ↦ none | some pos ↦ some (pos + 1) ])

-- The request with an end of line, and without what stands behind one.
unfoldable pub terminated : List ℕ → List ℕ
terminated request = elim (find_eol request) [
  | none ↦ request ++ (eol ∷ [])
  | some pos ↦ if pos == length request - 1 then request else take (pos + 1) request
]

-- What `cmd` makes of the line that it reads.
unfoldable pub response : List ℕ → List ℕ
response resp = elim (find_eol resp) [ none ↦ resp | some pos ↦ take pos resp ]

-- A bit of a `bitset`.
abbrev pub is_set : ℕ → ℕ → Bool
is_set bits i = (bits / 2 ^ i) % 2 == 1

module _ (wake : ℕ → ℕ → ℕ) where
  -- The `while` around `sleep_until`; `wake` says when a thread wakes.
  unfoldable pub wait_until : ℕ → ℕ → Chiller (Unit {0})
  wait_until next zero chiller =
      if ltb chiller.now next then (err out_of_fuel, chiller) else (ok tt, chiller)
  wait_until next (suc fuel) chiller =
      let again = wait_until next fuel (record chiller { now = wake chiller.now next }) in
      if ltb chiller.now next then again else (ok tt, chiller)

  abbrev pub wait_for_turn : Chiller (Unit {0})
  unfolding wait_until
  wait_for_turn chiller = elim chiller.last_command_sent [
    | none ↦ (ok tt, chiller)
    | some sent ↦ wait_until (sent + 200) 1 chiller
  ]

  abbrev pub write : List ℕ → Chiller (Unit {0})
  write bytes chiller = (
    ok tt,
    record chiller {
      last_command_sent = some chiller.now;
      written = chiller.written ++ ((chiller.now, bytes) ∷ []);
    },
  )

  unfoldable pub cmd_no_response : List ℕ → Chiller (Unit {0})
  unfolding wait_for_turn terminated ◌>>◌
  cmd_no_response [] = wait_for_turn >> throw empty_request
  cmd_no_response (c ∷ cs) = wait_for_turn >> write (terminated (c ∷ cs))

  module _ (answer : List ℕ → List ℕ) where
    unfoldable pub cmd : List ℕ → Chiller (List ℕ)
    unfolding cmd_no_response response ◌>>◌
    cmd request = cmd_no_response request >> give (response (answer (terminated request)))

    -- "IDN"
    unfoldable pub identify : Chiller (List ℕ)
    unfolding cmd
    identify = cmd (73 ∷ 68 ∷ 78 ∷ [])

    -- "RUN?"; the answers are "RUNNING" and "STOPPED".
    unfoldable pub is_running : Chiller Bool
    unfolding cmd ◌>>=◌
    is_running = do
      resp ← cmd (82 ∷ 85 ∷ 78 ∷ 63 ∷ [])
      if bytes_eq.same resp (82 ∷ 85 ∷ 78 ∷ 78 ∷ 73 ∷ 78 ∷ 71 ∷ [])
          then give true
          else if bytes_eq.same resp (83 ∷ 84 ∷ 79 ∷ 80 ∷ 80 ∷ 69 ∷ 68 ∷ [])
          then give false
          else throw invalid_response

    module _ {R : Type 0} (stod : List ℕ → Option R) where
      abbrev pub query : List ℕ → Chiller R
      query request =
          cmd request
          >>= (λ resp. elim (stod resp) [ none ↦ throw invalid_number | some x ↦ give x ])

      -- "TEMP?"
      unfoldable pub rtd_temp : Chiller R
      rtd_temp = query (84 ∷ 69 ∷ 77 ∷ 80 ∷ 63 ∷ [])

      -- "PUMPTEMP?"
      unfoldable pub pump_temp : Chiller R
      pump_temp = query (80 ∷ 85 ∷ 77 ∷ 80 ∷ 84 ∷ 69 ∷ 77 ∷ 80 ∷ 63 ∷ [])

      -- "SETTEMP?"
      unfoldable pub setpoint_temp : Chiller R
      setpoint_temp = query (83 ∷ 69 ∷ 84 ∷ 84 ∷ 69 ∷ 77 ∷ 80 ∷ 63 ∷ [])

      -- "RTDOFFSET?"
      unfoldable pub rtd_offset : Chiller R
      rtd_offset = query (82 ∷ 84 ∷ 68 ∷ 79 ∷ 70 ∷ 70 ∷ 83 ∷ 69 ∷ 84 ∷ 63 ∷ [])

      -- "PWM?"
      unfoldable pub te_pwm : Chiller R
      te_pwm = query (80 ∷ 87 ∷ 77 ∷ 63 ∷ [])

      -- "FANPWM?"
      unfoldable pub fan_pwm : Chiller R
      fan_pwm = query (70 ∷ 65 ∷ 78 ∷ 80 ∷ 87 ∷ 77 ∷ 63 ∷ [])

      -- "WIDTH?"
      unfoldable pub alarm_width : Chiller R
      alarm_width = query (87 ∷ 73 ∷ 68 ∷ 84 ∷ 72 ∷ 63 ∷ [])

    module _ (stoul : List ℕ → Option ℕ) where
      -- "STAT1A?" and "FLTS1A?"
      unfoldable pub statbits : Chiller ℕ
      unfolding cmd ◌>>=◌
      statbits = do
        resp ← cmd (83 ∷ 84 ∷ 65 ∷ 84 ∷ 49 ∷ 65 ∷ 63 ∷ [])
        elim (stoul resp) [ none ↦ throw invalid_number | some statul ↦ give (statul % 256) ]

      unfoldable pub faultbits : Chiller ℕ
      unfolding cmd ◌>>=◌
      faultbits = do
        resp ← cmd (70 ∷ 76 ∷ 84 ∷ 83 ∷ 49 ∷ 65 ∷ 63 ∷ [])
        elim (stoul resp) [ none ↦ throw invalid_number | some statul ↦ give (statul % 256) ]

      abbrev pub status_bit : ℕ → Chiller Bool
      status_bit i = statbits >>= (λ bits. give (is_set bits i))

      unfoldable pub warning : Chiller Bool
      warning = status_bit 6

      unfoldable pub system_alarm : Chiller Bool
      system_alarm = status_bit 7

      unfoldable pub heating : Chiller Bool
      heating = status_bit 5

      -- -1 is returned as an `unsigned short`.
      unfoldable pub temp_alarm : Chiller ℕ
      unfolding statbits ◌>>=◌
      temp_alarm = do
        bits ← statbits
        give (if is_set bits 3 then 65535 else if is_set bits 4 then 1 else 0)

      unfoldable pub faults : Chiller (List ℕ)
      unfolding faultbits ◌>>=◌
      faults = do bits ← faultbits; give (0 ∷ 1 ∷ 2 ∷ 3 ∷ 4 ∷ 5 ∷ 6 ∷ 7 ∷ [])

  -- "RUN" and "STOP"
  unfoldable pub startstop : Bool → Chiller (Unit {0})
  startstop true = cmd_no_response (82 ∷ 85 ∷ 78 ∷ [])
  startstop false = cmd_no_response (83 ∷ 84 ∷ 79 ∷ 80 ∷ [])

  -- "BLON" and "BLOFF"
  unfoldable pub set_backlight : Bool → Chiller (Unit {0})
  set_backlight true = cmd_no_response (66 ∷ 76 ∷ 79 ∷ 78 ∷ [])
  set_backlight false = cmd_no_response (66 ∷ 76 ∷ 79 ∷ 70 ∷ 70 ∷ [])

  -- "RESTART"
  unfoldable pub restart : Chiller (Unit {0})
  restart = cmd_no_response (82 ∷ 69 ∷ 83 ∷ 84 ∷ 65 ∷ 82 ∷ 84 ∷ [])

  module _ {R : Type 0} (fixed : R → List ℕ) where
    -- "RTDOFFSET "
    unfoldable pub set_rtd_offset : R → Chiller (Unit {0})
    set_rtd_offset offset =
        cmd_no_response ((82 ∷ 84 ∷ 68 ∷ 79 ∷ 70 ∷ 70 ∷ 83 ∷ 69 ∷ 84 ∷ 32 ∷ []) ++ fixed offset)

    -- "SETTEMP "
    unfoldable pub set_setpoint_temp : R → Chiller (Unit {0})
    set_setpoint_temp temp =
        cmd_no_response ((83 ∷ 69 ∷ 84 ∷ 84 ∷ 69 ∷ 77 ∷ 80 ∷ 32 ∷ []) ++ fixed temp)

    -- "WIDTH "
    unfoldable pub set_alarm_width : R → Chiller (Unit {0})
    set_alarm_width width = cmd_no_response ((87 ∷ 73 ∷ 68 ∷ 84 ∷ 72 ∷ 32 ∷ []) ++ fixed width)
