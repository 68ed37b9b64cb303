-- ===== src/Autofill.antt =====
-- The logic of the automatic fill: lsst/autofilld/autofill_fill_logic.cpp. `D` is the type of doubles
-- with its comparison `<`.
--
-- The logic is a client of the server's flags, so that its state includes them; each call over the
-- wire is that of `Flags`, under the message number `id`. The calls of devices and of the
-- notification service are arguments. A fill runs on a thread of its own: what the thread does at its
-- begin and its end are steps of their own, `fill_begins` and `fill_ends`.
pub mod Phases
pub mod Fills
pub mod Errors
pub mod Starts
pub mod Ends
mod Tests
use foxtrot.Base.{
  ℕ, Bool, true, false, not, ◌&&◌, String, Option, none, some, List, [], ◌∷◌, Result, ok, err,
  if◌then◌else◌,
}
use foxtrot.Base.Action.{Action, ◌>>=◌, ◌>>◌, modify, when}
use foxtrot.Rpc.{Exception, server_error, protocol_error, out_of_range, other_exception}
use foxtrot.Flags.{Variant, boolval, stringval, FlagMap, get_server_flag, set_server_flag}

pub data EventType : Type 0 where
  fill_begin fill_complete dewar_filled dewar_is_empty tank_empty : EventType

-- `std::future<std::exception_ptr>`: without a state, of a thread that runs, or of one that is done.
pub data Fill : Type 0 where
  no_fill running : Fill
  finished : Option Exception → Fill

-- The members of `autofill_logic` that change, the events logged so far, the newest first, and the
-- flags of the server.
pub record Autofill (D : Type 0) : Type 0 where
  pub flags : FlagMap D
  pub events : List (String × EventType)
  pub logged_tank_empty : Bool
  pub dewar_empty : Bool
  pub fill_in_progress : Bool
  pub fill_just_done : Bool
  pub running_fill : Fill

pub record AutofillConfig (D : Type 0) : Type 0 where
  pub empty_temp : D
  pub limit_pressure : D
  pub pb_enable : Bool

pub record EnvData (D : Type 0) : Type 0 where
  pub cryostat_pressure : D
  pub tank_temp : D

-- What a member function does.
abbrev pub Act : Type 0 → Type 0 → Type 0
Act D A = Action Exception (Autofill D) A

-- The two calls of `detail::execute_fill` that switch the relay, with what each throws: the calls that
-- are made, and the exception that comes out.
unfoldable pub execute_fill : (Bool → Option Exception) → Bool → List Bool × Option Exception
execute_fill invoke true = ([], none)
execute_fill invoke false = elim (invoke true) [
  | some e ↦ (true ∷ [], some e)
  | none ↦ (true ∷ false ∷ [], invoke false)
]

module _ {D : Type 0} (zero : D) (lt : D → D → Bool) (id : ℕ) (cfg : AutofillConfig D)
    (broadcast : String → String → Option Exception) (now : String) where
  open cfg use {empty_temp, limit_pressure, pb_enable}

  -- `cl.set_server_flag(name, val)`
  unfoldable pub set_flag : String → Variant D → Act D (Unit {0})
  set_flag name val s =
      let (r, flags') = set_server_flag id s.flags name val in (r, record s { flags = flags' })

  unfoldable pub log_event : EventType → Act D (Unit {0})
  log_event tp s = (ok tt, record s { events = (now, tp) ∷ s.events })

  -- The handlers of `broadcast_notify`.
  abbrev notified : Option Exception → Result Exception (Unit {0})
  notified none = ok tt
  notified (some (server_error _)) = ok tt
  notified (some (protocol_error _)) = ok tt
  notified (some e) = err e

  unfoldable pub broadcast_notify : String → String → Act D (Unit {0})
  broadcast_notify title body s =
      if pb_enable then (notified (broadcast title body), s) else (ok tt, s)

  -- `std::get<bool>(ret)`, or the flag made with the value false if it is missing.
  abbrev pub bool_or_create : String → Result Exception (Variant D) → Act D Bool
  bool_or_create name (ok (boolval b)) s = (ok b, s)
  bool_or_create name (ok _) s = (err (other_exception "std::get: wrong index for variant"), s)
  bool_or_create name (err (out_of_range _)) s =
      (set_flag name (boolval false) >> λ t. (ok false, t)) s
  bool_or_create name (err e) s = (err e, s)

  unfoldable pub was_dewar_filled : Act D Bool
  unfolding set_flag
  was_dewar_filled s =
      bool_or_create "autofill/dewar_filled"
        (get_server_flag zero id s.flags "autofill/dewar_filled") s

  unfoldable pub is_autofill_enabled : Act D Bool
  unfolding set_flag
  is_autofill_enabled s =
      bool_or_create "autofill/autofill_enable"
        (get_server_flag zero id s.flags "autofill/autofill_enable") s

  unfoldable pub clear_dewar_filled : Act D (Unit {0})
  clear_dewar_filled = set_flag "autofill/dewar_filled" (boolval false)

  unfoldable pub checkin : Act D (Unit {0})
  checkin = set_flag "autofill/autofill_checkin" (stringval now)

  unfoldable pub set_tank_status : Bool → Act D (Unit {0})
  set_tank_status full = set_flag "autofill/tank_full" (boolval full)

  unfoldable pub set_pumpdown_status : Bool → Act D (Unit {0})
  set_pumpdown_status pumpeddown = set_flag "autofill/pumpdown" (boolval pumpeddown)

  unfoldable pub set_dewar_status : Bool → Act D (Unit {0})
  set_dewar_status full = set_flag "autofill/dewarfull" (boolval full)

  -- The thread of a fill begins to run, and is done, with what `execute_fill` threw.
  unfoldable pub fill_begins : Autofill D → Autofill D
  fill_begins s = record s { fill_in_progress = true }

  unfoldable pub fill_ends : Option Exception → Autofill D → Autofill D
  fill_ends except s =
      let (r, logged) = log_event fill_complete s in
      let (r', cleared) = set_flag "autofill/fillactive" (boolval false) logged in
      record cleared {
        fill_in_progress = false;
        fill_just_done = true;
        running_fill = finished except;
      }

  -- `running_fill_ = fill_tank(...)`
  unfoldable pub fill_tank : Act D (Unit {0})
  unfolding log_event set_flag
  fill_tank = do
    log_event fill_begin
    set_flag "autofill/fillactive" (boolval true)
    modify (λ s. record s { running_fill = running })

  -- `tick`, in its order: the vacuum, the dewar's flag, the tank, the fill, and the fill that ran.
  unfoldable pub check_vacuum : EnvData D → Act D Bool
  unfolding set_pumpdown_status
  check_vacuum env = do
    let pumpdown = lt env.cryostat_pressure limit_pressure
    set_pumpdown_status pumpdown
    λ s. (ok pumpdown, s)

  unfoldable pub check_dewar : Act D (Unit {0})
  unfolding was_dewar_filled broadcast_notify set_dewar_status clear_dewar_filled log_event
  check_dewar = do
    filled ← was_dewar_filled
    when filled (do
      broadcast_notify "dewar" "LN2 Dewar was filled"
      set_dewar_status true
      modify (λ s. record s { dewar_empty = false })
      clear_dewar_filled
      log_event dewar_filled)

  -- The tank is warm: what is reported, and whether a fill is needed.
  unfoldable pub warm_tank : Act D Bool
  unfolding broadcast_notify set_dewar_status set_tank_status log_event
  warm_tank = do
    begun ← (λ s. (ok s, s))
    when (not begun.fill_in_progress && not begun.logged_tank_empty) (do
      broadcast_notify "tank" "cryostat tank is empty"
      log_event tank_empty
      modify (λ s. record s { logged_tank_empty = true }))
    set_tank_status false
    if begun.fill_just_done
        then (do
          modify (λ s. record s { logged_tank_empty = false })
          when (not begun.dewar_empty) (do
            broadcast_notify "dewar" "LN2 dewar is probably empty"
            set_dewar_status false
            log_event dewar_is_empty)
          modify (λ s. record s { dewar_empty = true })
          λ s. (ok false, s))
        else λ s. (ok (not begun.fill_in_progress), s)

  unfoldable pub check_tank : EnvData D → Act D Bool
  unfolding warm_tank set_tank_status
  check_tank env =
      if lt empty_temp env.tank_temp
      then warm_tank
      else (set_tank_status true >> λ s. (ok false, s))

  unfoldable pub start_fill : Bool → Bool → Act D (Unit {0})
  unfolding is_autofill_enabled broadcast_notify fill_tank
  start_fill fill_needed pumpdown s =
      when (fill_needed && pumpdown && not s.fill_just_done && not s.dewar_empty)
        (do
          enabled ← is_autofill_enabled
          when enabled (do broadcast_notify "tank" "a tank autofill is starting"; fill_tank))
        s

  -- The future is asked a second time for what it has already given up, and throws `future_error`.
  unfoldable pub collect_fill : Act D (Unit {0})
  unfolding broadcast_notify
  collect_fill s = elim s.running_fill [
    | no_fill ↦ (ok tt, s)
    | running ↦ (ok tt, s)
    | finished eptr ↦
        (do
          modify (λ t. record t { running_fill = no_fill })
          elim eptr [
            | none ↦ λ t. (ok tt, t)
            | some e ↦ (do
              broadcast_notify "tank" "there was an error filling the tank"
              λ t. (err (other_exception "std::future_error: No associated state"), t))
          ])
          s
  ]

  unfoldable pub tick : EnvData D → Act D (Unit {0})
  unfolding check_vacuum check_dewar check_tank checkin start_fill collect_fill
  tick env = do
    pumpdown ← check_vacuum env
    check_dewar
    fill_needed ← check_tank env
    checkin
    start_fill fill_needed pumpdown
    modify (λ s. record s { fill_just_done = false })
    collect_fill
