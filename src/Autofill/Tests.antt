-- ===== src/Autofill/Tests.antt =====
-- Ticks of a logic that finds the cryostat warm, with numbers in the place of doubles.
use foxtrot.Base.{
  ℕ, ◌≡◌, refl, true, false, String, Option, none, some, [], ◌∷◌, ok, err, ltb, ◌⊎◌, inl,
}
use foxtrot.Rpc.{
  Exception, runtime_error, device_error, server_error, rpc_error_handling, check_repl_err,
}
use foxtrot.Flags.{boolval, set_server_flag, get_server_flag}
use foxtrot.Base.Action.{◌>>=◌, ◌>>◌}
use foxtrot.Autofill.{
  fill_ends, Autofill, AutofillConfig, EnvData, no_fill, running, finished, broadcast_notify, tick,
}
use foxtrot.Autofill.Fills.{NeedsFill, tick_running}
use foxtrot.Autofill.Ends.{tick-fill_ends}
use foxtrot.Autofill.Starts.{tick_starts}

abbrev cfg : AutofillConfig ℕ
cfg = record { empty_temp = 100; limit_pressure = 5; pb_enable = true }

abbrev warm : EnvData ℕ
warm = record { cryostat_pressure = 1; tank_temp = 200 }

-- Every notification fails with the server's error, as the client rebuilds it.
abbrev refused : String → String → Option Exception
refused title body = some (runtime_error "no notifications")

abbrev passed : String → String → Option Exception
passed title body = none

abbrev ready : Autofill ℕ
ready = record {
  flags =
      ("autofill/autofill_enable", boolval true) ∷ ("autofill/dewar_filled", boolval false) ∷ [];
  events = [];
  logged_tank_empty = false;
  dewar_empty = false;
  fill_in_progress = false;
  fill_just_done = false;
  running_fill = no_fill;
}

starts : (tick 0 ltb 1 cfg passed "12:00" warm ready).1.running_fill ≡ running
unfolding tick ◌>>=◌ ◌>>◌ set_server_flag check_repl_err get_server_flag
starts = refl

tick_running_example : (no_fill ≡ running) ⊎ NeedsFill 0 ltb 1 cfg passed "12:00" warm ready
tick_running_example = tick_running 0 ltb 1 cfg passed "12:00" warm ready starts

rebuilds :
    check_repl_err (some (rpc_error_handling (server_error "no notifications")))
    ≡ err (runtime_error "no notifications")
unfolding check_repl_err rpc_error_handling
rebuilds = refl

abbrev failed : Autofill ℕ
failed = record ready { running_fill = finished (some (device_error "relay")) }

passes :
    (broadcast_notify 0 ltb 1 cfg passed "12:00" "tank" "there was an error filling the tank"
      failed).0
    ≡ ok tt
unfolding broadcast_notify
passes = refl

tick_starts_example :
    let p = tick 0 ltb 1 cfg passed "12:00" warm ready in
    (p.0 ≡ ok tt) × (p.1.running_fill ≡ running)
tick_starts_example =
    tick_starts 0 ltb 1 cfg passed "12:00" (λ title body. refl) warm ready false refl
      (refl, refl, refl, refl, refl, inl refl)

-- A fill that runs.
abbrev filling : Autofill ℕ
filling = record ready { fill_in_progress = true; running_fill = running }

tick-fill_ends_example :
    let t =
      (tick 0 ltb 1 cfg passed "12:24" warm
        (fill_ends 0 ltb 1 cfg passed "12:24" none filling)).1 in
    (t.dewar_empty ≡ true) × (t.fill_just_done ≡ false)
tick-fill_ends_example =
    tick-fill_ends 0 ltb 1 cfg passed "12:24" (λ title body. refl) none warm filling false refl refl
