-- ===== src/Autofill/Starts.antt =====
-- That a tick starts the fill that is needed.
use foxtrot.Base.{
  ℕ, ◌≡◌, refl, ◌∙◌, ap, arith, Bool, true, false, String, Option, none, some, ok, if◌then◌else◌,
  text_eq,
}
use foxtrot.Base.Dict.{lookup}
use foxtrot.Rpc.{Exception, check_repl_err}
use foxtrot.Flags.{boolval, set_server_flag}
use foxtrot.Flags.Calls.{get_server_flag_lem}
use foxtrot.Base.Action.{◌>>=◌, ◌>>◌, bind_ok, then_ok}
use foxtrot.Autofill.{
  Autofill, AutofillConfig, EnvData, running, set_flag, broadcast_notify, log_event,
  is_autofill_enabled, set_dewar_status, set_tank_status, checkin, check_vacuum, check_dewar,
  warm_tank, check_tank, fill_tank, start_fill, collect_fill, tick, was_dewar_filled,
  clear_dewar_filled,
}
use foxtrot.Autofill.Phases.{
  enable_flag, filled_flag, checkin-Keeps, check_vacuum-Keeps, check_dewar-Keeps, check_tank-Keeps,
}
use foxtrot.Autofill.Fills.{NeedsFill, check_vacuum_lem, finish}

module _ {D : Type 0} (zero : D) (lt : D → D → Bool) (id : ℕ) (cfg : AutofillConfig D)
    (broadcast : String → String → Option Exception) (now : String)
    (passes : (title body : String) → broadcast title body ≡ none) where
  pub broadcast_notify_passes :
      (title body : String) (s : Autofill D)
      → broadcast_notify zero lt id cfg broadcast now title body s ≡ (ok tt, s)
  unfolding broadcast_notify
  broadcast_notify_passes title body s = ground (arith, passes title body)

  was_dewar_filled_known :
      (b : Bool) (s : Autofill D)
      → lookup filled_flag s.flags ≡ some (boolval b)
      → was_dewar_filled zero lt id cfg broadcast now s ≡ (ok b, s)
  unfolding was_dewar_filled
  was_dewar_filled_known b s e = rw (get_server_flag_lem zero s.flags filled_flag id, e) refl

  is_autofill_enabled_known :
      (b : Bool) (s : Autofill D)
      → lookup enable_flag s.flags ≡ some (boolval b)
      → is_autofill_enabled zero lt id cfg broadcast now s ≡ (ok b, s)
  unfolding is_autofill_enabled
  is_autofill_enabled_known b s e = rw (get_server_flag_lem zero s.flags enable_flag id, e) refl

  pub check_dewar_known :
      (b : Bool) (s : Autofill D)
      → lookup filled_flag s.flags ≡ some (boolval b)
      → let p = check_dewar zero lt id cfg broadcast now s in
        (p.0 ≡ ok tt) × (p.1.dewar_empty ≡ (if b then false else s.dewar_empty))
  unfolding check_dewar ◌>>=◌ ◌>>◌ set_dewar_status clear_dewar_filled set_flag set_server_flag
      check_repl_err log_event
  check_dewar_known b s e = ground (
    arith,
    was_dewar_filled_known b s e,
    broadcast_notify_passes "dewar" "LN2 Dewar was filled" s,
  )

  check_tank_warm :
      (env : EnvData D) (s : Autofill D)
      → lt cfg.empty_temp env.tank_temp ≡ true
      → s.fill_in_progress ≡ false
      → s.fill_just_done ≡ false
      → let p = check_tank zero lt id cfg broadcast now env s in
        (p.0 ≡ ok true) × (p.1.dewar_empty ≡ s.dewar_empty)
  unfolding check_tank warm_tank ◌>>=◌ ◌>>◌ set_tank_status set_flag set_server_flag check_repl_err
      log_event
  check_tank_warm env s warm idle before =
      ground (arith, broadcast_notify_passes "tank" "cryostat tank is empty" s)

  start_fill_starts :
      (s : Autofill D)
      → s.fill_just_done ≡ false
      → s.dewar_empty ≡ false
      → lookup enable_flag s.flags ≡ some (boolval true)
      → let p = start_fill zero lt id cfg broadcast now true true s in
        (p.0 ≡ ok tt) × (p.1.running_fill ≡ running)
  unfolding start_fill fill_tank ◌>>=◌ ◌>>◌ set_flag set_server_flag check_repl_err log_event
  start_fill_starts s before dewar enabled = ground (
    arith,
    is_autofill_enabled_known true s enabled,
    broadcast_notify_passes "tank" "a tank autofill is starting" s,
  )

  collect_fill_waits :
      (s : Autofill D)
      → s.running_fill ≡ running
      → collect_fill zero lt id cfg broadcast now s ≡ (ok tt, s)
  unfolding collect_fill
  collect_fill_waits s e = ground arith

  finish_starts :
      (s : Autofill D)
      → s.fill_just_done ≡ false
      → s.dewar_empty ≡ false
      → lookup enable_flag s.flags ≡ some (boolval true)
      → let p = finish zero lt id cfg broadcast now true true s in
        (p.0 ≡ ok tt) × (p.1.running_fill ≡ running)
  unfolding ◌>>◌ checkin set_flag set_server_flag check_repl_err
  finish_starts s before dewar enabled =
      let s1 = (checkin zero lt id cfg broadcast now s).1 in
      let s2 = (start_fill zero lt id cfg broadcast now true true s1).1 in
      let k = checkin-Keeps zero lt id cfg broadcast now s in
      let (o, r) = start_fill_starts s1 before dewar (k.same_enabled ∙ enabled) in
      ground (arith, o, r, collect_fill_waits (record s2 { fill_just_done = false }) r)

  -- If the notifications pass and the flag of the filled dewar is a Boolean, then a tick that finds
  -- a fill needed succeeds and leaves a fill running.
  pub tick_starts :
      (env : EnvData D) (s : Autofill D) (filled : Bool)
      → lookup filled_flag s.flags ≡ some (boolval filled)
      → NeedsFill zero lt id cfg broadcast now env s
      → let p = tick zero lt id cfg broadcast now env s in
        (p.0 ≡ ok tt) × (p.1.running_fill ≡ running)
  unfolding tick
  tick_starts env s filled e (pumped, warm, idle, before, enabled, dewar) =
      let s1 = (check_vacuum zero lt id cfg broadcast now env s).1 in
      let s2 = (check_dewar zero lt id cfg broadcast now s1).1 in
      let s3 = (check_tank zero lt id cfg broadcast now env s2).1 in
      let k1 = check_vacuum-Keeps zero lt id cfg broadcast now env s in
      let k2 = check_dewar-Keeps zero lt id cfg broadcast now s1 in
      let k3 = check_tank-Keeps zero lt id cfg broadcast now env s2 in
      let (v1, v2, v3) = check_vacuum_lem zero lt id cfg broadcast now env s in
      let (d1, d2) = check_dewar_known filled s1 (v3 ∙ e) in
      let (t1, t2) =
        check_tank_warm env s2 warm (k2.same_progress ∙ k1.same_progress ∙ idle)
          (k2.same_just_done ∙ k1.same_just_done ∙ before) in
      let dry : s3.dewar_empty ≡ false = ground (arith, t2, d2, v2, dewar, e) in
      let path =
        bind_ok (check_vacuum zero lt id cfg broadcast now env)
          (λ pumpdown.
            check_dewar zero lt id cfg broadcast now
            >> (check_tank zero lt id cfg broadcast now env >>= λ needed.
                finish zero lt id cfg broadcast now needed pumpdown))
          s true (v1 ∙ ap ok pumped)
        ∙ then_ok (check_dewar zero lt id cfg broadcast now) _ s1 d1
        ∙ bind_ok (check_tank zero lt id cfg broadcast now env)
            (λ needed. finish zero lt id cfg broadcast now needed true) s2 true t1 in
      let (o, r) =
        finish_starts s3 (k3.same_just_done ∙ k2.same_just_done ∙ k1.same_just_done ∙ before) dry
          (k3.same_enabled ∙ k2.same_enabled ∙ k1.same_enabled ∙ enabled) in
      (ap (λ p. p.0) path ∙ o, ap (λ p. p.1.running_fill) path ∙ r)
