-- ===== src/Autofill/Ends.antt =====
-- What a tick makes of a fill that has ended.
use foxtrot.Base.{
  ℕ, ◌≡◌, ◌∙◌, ap, arith, Bool, true, false, String, Option, none, some, ok, text_eq,
}
use foxtrot.Base.Dict.{lookup, lookup-insert}
use foxtrot.Rpc.{Exception, check_repl_err}
use foxtrot.Flags.{boolval, set_server_flag}
use foxtrot.Base.Action.{◌>>=◌, ◌>>◌, bind_ok, then_ok}
use foxtrot.Autofill.{
  Autofill, AutofillConfig, EnvData, set_flag, broadcast_notify, log_event, set_dewar_status,
  set_tank_status, checkin, check_vacuum, check_dewar, warm_tank, check_tank, start_fill,
  collect_fill, tick, fill_ends,
}
use foxtrot.Autofill.Phases.{filled_flag, check_vacuum-Keeps, check_dewar-Keeps}
use foxtrot.Autofill.Fills.{check_vacuum_lem, finish}
use foxtrot.Autofill.Starts.{check_dewar_known}

module _ {D : Type 0} (zero : D) (lt : D → D → Bool) (id : ℕ) (cfg : AutofillConfig D)
    (broadcast : String → String → Option Exception) (now : String)
    (passes : (title body : String) → broadcast title body ≡ none) where
  check_tank_done :
      (env : EnvData D) (s : Autofill D)
      → lt cfg.empty_temp env.tank_temp ≡ true
      → s.fill_just_done ≡ true
      → let p = check_tank zero lt id cfg broadcast now env s in
        (p.0 ≡ ok false) × (p.1.dewar_empty ≡ true)
  unfolding check_tank warm_tank ◌>>=◌ ◌>>◌ set_tank_status set_dewar_status set_flag
      set_server_flag check_repl_err log_event broadcast_notify
  check_tank_done env s warm done =
      ground (
        arith,
        passes "tank" "cryostat tank is empty",
        passes "dewar" "LN2 dewar is probably empty",
      )

  finish_idle :
      (pumpdown : Bool) (s : Autofill D)
      → let t = (finish zero lt id cfg broadcast now false pumpdown s).1 in
        (t.dewar_empty ≡ s.dewar_empty) × (t.fill_just_done ≡ false)
  unfolding ◌>>◌ checkin set_flag set_server_flag check_repl_err start_fill collect_fill
      broadcast_notify
  finish_idle pumpdown s = ground arith

  -- If a fill has ended, however, and the next tick finds the cryostat still warm, then that tick
  -- marks the dewar as empty and takes note of the end of the fill; the notifications pass and the
  -- flag of the filled dewar is a Boolean.
  pub tick-fill_ends :
      (except : Option Exception) (env : EnvData D) (s : Autofill D) (filled : Bool)
      → lt cfg.empty_temp env.tank_temp ≡ true
      → lookup filled_flag s.flags ≡ some (boolval filled)
      → let t =
          (tick zero lt id cfg broadcast now env
            (fill_ends zero lt id cfg broadcast now except s)).1 in
        (t.dewar_empty ≡ true) × (t.fill_just_done ≡ false)
  unfolding tick fill_ends set_flag set_server_flag check_repl_err log_event
  tick-fill_ends except env s filled warm e =
      let s0 = fill_ends zero lt id cfg broadcast now except s in
      let s1 = (check_vacuum zero lt id cfg broadcast now env s0).1 in
      let s2 = (check_dewar zero lt id cfg broadcast now s1).1 in
      let s3 = (check_tank zero lt id cfg broadcast now env s2).1 in
      let pumpdown = lt env.cryostat_pressure cfg.limit_pressure in
      let k1 = check_vacuum-Keeps zero lt id cfg broadcast now env s0 in
      let k2 = check_dewar-Keeps zero lt id cfg broadcast now s1 in
      let (v1, v2, v3) = check_vacuum_lem zero lt id cfg broadcast now env s0 in
      let e0 : lookup filled_flag s0.flags ≡ some (boolval filled) =
        ground
          (arith, e, lookup-insert "autofill/fillactive" filled_flag (boolval false) s.flags) in
      let (d1, d2) = check_dewar_known zero lt id cfg broadcast now passes filled s1 (v3 ∙ e0) in
      let (t1, t2) = check_tank_done env s2 warm (k2.same_just_done ∙ k1.same_just_done) in
      let path =
        bind_ok (check_vacuum zero lt id cfg broadcast now env)
          (λ pumped.
            check_dewar zero lt id cfg broadcast now
            >> (check_tank zero lt id cfg broadcast now env >>= λ needed.
                finish zero lt id cfg broadcast now needed pumped))
          s0 pumpdown v1
        ∙ then_ok (check_dewar zero lt id cfg broadcast now) _ s1 d1
        ∙ bind_ok (check_tank zero lt id cfg broadcast now env)
            (λ needed. finish zero lt id cfg broadcast now needed pumpdown) s2 false t1 in
      let (f1, f2) = finish_idle pumpdown s3 in
      (ap (λ p. p.1.dewar_empty) path ∙ f1 ∙ t2, ap (λ p. p.1.fill_just_done) path ∙ f2)
