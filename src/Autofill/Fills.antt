-- ===== src/Autofill/Fills.antt =====
-- When a tick starts a fill.
use foxtrot.Base.{
  ℕ, ◌≡◌, refl, sym, ◌∙◌, ap, arith, Bool, true, false, String, Option, some, Result, ok, err,
  text_eq, ◌⊎◌, inl, inr,
}
use foxtrot.Base.Dict.{lookup, lookup-insert}
use foxtrot.Rpc.{Exception, check_repl_err}
use foxtrot.Flags.{Variant, boolval, set_server_flag}
use foxtrot.Base.Action.{modify, ◌>>=◌, ◌>>◌}
use foxtrot.Autofill.{
  Act, Autofill, AutofillConfig, EnvData, running, set_flag, broadcast_notify, log_event,
  set_pumpdown_status, set_dewar_status, set_tank_status, checkin, check_vacuum, check_dewar,
  warm_tank, check_tank, fill_tank, start_fill, collect_fill, tick, clear_dewar_filled,
}
use foxtrot.Autofill.Phases.{
  enable_flag, filled_flag, Kept, Keeps, checkin-Keeps, check_vacuum-Keeps, check_dewar-Keeps,
  check_tank-Keeps, is_autofill_enabled_lem, was_dewar_filled_lem,
}

module _ {D : Type 0} (zero : D) (lt : D → D → Bool) (id : ℕ) (cfg : AutofillConfig D)
    (broadcast : String → String → Option Exception) (now : String) where
  check_tank_needed :
      (env : EnvData D) (s : Autofill D)
      → let p = check_tank zero lt id cfg broadcast now env s in
        p.0 ≡ ok true
        → (lt cfg.empty_temp env.tank_temp ≡ true)
          × (s.fill_in_progress ≡ false)
          × (s.fill_just_done ≡ false)
          × (p.1.dewar_empty ≡ s.dewar_empty)
  unfolding check_tank warm_tank ◌>>=◌ ◌>>◌ set_tank_status set_flag set_server_flag check_repl_err
      broadcast_notify log_event
  check_tank_needed env s h = ground arith

  check_dewar_empty :
      (s : Autofill D)
      → (check_dewar zero lt id cfg broadcast now s).1.dewar_empty ≡ false
      → (s.dewar_empty ≡ false) ⊎ (lookup filled_flag s.flags ≡ some (boolval true))
  unfolding check_dewar ◌>>=◌ ◌>>◌ set_dewar_status clear_dewar_filled set_flag set_server_flag
      check_repl_err broadcast_notify log_event
  check_dewar_empty s h = ground (arith, was_dewar_filled_lem zero lt id cfg broadcast now s)

  start_fill_running :
      (fill_needed pumpdown : Bool) (s : Autofill D)
      → (start_fill zero lt id cfg broadcast now fill_needed pumpdown s).1.running_fill ≡ running
      → (s.running_fill ≡ running)
        ⊎ ((fill_needed ≡ true)
            × (pumpdown ≡ true)
            × (s.dewar_empty ≡ false)
            × (lookup enable_flag s.flags ≡ some (boolval true)))
  unfolding start_fill fill_tank ◌>>=◌ ◌>>◌ set_flag set_server_flag check_repl_err broadcast_notify
      log_event
  start_fill_running fill_needed pumpdown s h =
      ground (arith, is_autofill_enabled_lem zero lt id cfg broadcast now s)

  collect_fill_running :
      (s : Autofill D)
      → (collect_fill zero lt id cfg broadcast now s).1.running_fill ≡ running
      → s.running_fill ≡ running
  unfolding collect_fill ◌>>◌ broadcast_notify
  collect_fill_running s h = ground arith

  -- The end of a tick, from the report of the time on.
  abbrev pub finish : Bool → Bool → Act D (Unit {0})
  finish fill_needed pumpdown =
      checkin zero lt id cfg broadcast now
      >> (start_fill zero lt id cfg broadcast now fill_needed pumpdown
          >> (modify (λ s. record s { fill_just_done = false })
              >> collect_fill zero lt id cfg broadcast now))

  finish_running :
      (fill_needed pumpdown : Bool) (s : Autofill D)
      → (finish fill_needed pumpdown s).1.running_fill ≡ running
      → (s.running_fill ≡ running)
        ⊎ ((fill_needed ≡ true)
            × (pumpdown ≡ true)
            × (s.dewar_empty ≡ false)
            × (lookup enable_flag s.flags ≡ some (boolval true)))
  unfolding ◌>>◌ checkin set_flag set_server_flag check_repl_err
  finish_running fill_needed pumpdown s h =
      let s1 = (checkin zero lt id cfg broadcast now s).1 in
      let s2 = (start_fill zero lt id cfg broadcast now fill_needed pumpdown s1).1 in
      ground (
        arith,
        start_fill_running fill_needed pumpdown s1,
        collect_fill_running (record s2 { fill_just_done = false }),
        (checkin-Keeps zero lt id cfg broadcast now s).same_enabled,
      )

  bind_running :
      {A B : Type 0} (act : Act D A) (next : A → Act D B) (s : Autofill D) (X : Type 0)
      → Keeps act
      → ((a : A)
          → (act s).0 ≡ ok a
          → (next a (act s).1).1.running_fill ≡ running
          → ((act s).1.running_fill ≡ running) ⊎ X)
      → ((act >>= next) s).1.running_fill ≡ running
      → (s.running_fill ≡ running) ⊎ X
  unfolding ◌>>=◌
  bind_running {A = A} {B = B} act next s X keeps later h = from (act s) (keeps s) later h
    where
      from :
          (p : Result Exception A × Autofill D)
          → Kept s p.1
          → ((a : A)
              → p.0 ≡ ok a
              → (next a p.1).1.running_fill ≡ running
              → (p.1.running_fill ≡ running) ⊎ X)
          → (((λ (u : Autofill D). p) >>= next) s).1.running_fill ≡ running
          → (s.running_fill ≡ running) ⊎ X
      from (err e, t) k l g = inl (sym k.same_fill ∙ g)
      from (ok a, t) k l g = elim (l a refl g) [ inl r ↦ inl (sym k.same_fill ∙ r) | inr x ↦ inr x ]

  then_running :
      {B : Type 0} (act : Act D (Unit {0})) (next : Act D B) (s : Autofill D) (X : Type 0)
      → Keeps act
      → ((next (act s).1).1.running_fill ≡ running → ((act s).1.running_fill ≡ running) ⊎ X)
      → ((act >> next) s).1.running_fill ≡ running
      → (s.running_fill ≡ running) ⊎ X
  unfolding ◌>>=◌ ◌>>◌
  then_running act next s X keeps later h = bind_running act (λ u. next) s X keeps (λ u e. later) h

  -- What has to hold for a tick to start a fill.
  abbrev pub NeedsFill : EnvData D → Autofill D → Type 0
  NeedsFill env s =
      (lt env.cryostat_pressure cfg.limit_pressure ≡ true)
      × (lt cfg.empty_temp env.tank_temp ≡ true)
      × (s.fill_in_progress ≡ false)
      × (s.fill_just_done ≡ false)
      × (lookup enable_flag s.flags ≡ some (boolval true))
      × ((s.dewar_empty ≡ false) ⊎ (lookup filled_flag s.flags ≡ some (boolval true)))

  pub check_vacuum_lem :
      (env : EnvData D) (s : Autofill D)
      → let p = check_vacuum zero lt id cfg broadcast now env s in
        (p.0 ≡ ok (lt env.cryostat_pressure cfg.limit_pressure))
        × (p.1.dewar_empty ≡ s.dewar_empty)
        × (lookup filled_flag p.1.flags ≡ lookup filled_flag s.flags)
  unfolding check_vacuum set_pumpdown_status set_flag set_server_flag check_repl_err ◌>>◌
  check_vacuum_lem env s =
      let val : Variant D = boolval (lt env.cryostat_pressure cfg.limit_pressure) in
      (refl, refl, ground (arith, lookup-insert "autofill/pumpdown" filled_flag val s.flags))

  conclude :
      (env : EnvData D) (s : Autofill D) (pumpdown fill_needed : Bool)
      → let p1 = check_vacuum zero lt id cfg broadcast now env s in
        let p2 = check_dewar zero lt id cfg broadcast now p1.1 in
        let p3 = check_tank zero lt id cfg broadcast now env p2.1 in
        p1.0 ≡ ok pumpdown
        → p3.0 ≡ ok fill_needed
        → (finish fill_needed pumpdown p3.1).1.running_fill ≡ running
        → (p3.1.running_fill ≡ running) ⊎ NeedsFill env s
  conclude env s pumpdown fill_needed e1 e3 h =
      let p1 = check_vacuum zero lt id cfg broadcast now env s in
      let p2 = check_dewar zero lt id cfg broadcast now p1.1 in
      let p3 = check_tank zero lt id cfg broadcast now env p2.1 in
      let k1 = check_vacuum-Keeps zero lt id cfg broadcast now env s in
      let k2 = check_dewar-Keeps zero lt id cfg broadcast now p1.1 in
      let k3 = check_tank-Keeps zero lt id cfg broadcast now env p2.1 in
      let (v1, v2, v3) = check_vacuum_lem env s in
      elim (finish_running fill_needed pumpdown p3.1 h) [
        | inl r ↦ inl r
        | inr (needed, pumped, dewar, enabled) ↦
            let (warm, idle, before, kept) = check_tank_needed env p2.1 (e3 ∙ ap ok needed) in
            inr (
              ok_inj (sym v1 ∙ e1) ∙ pumped,
              warm,
              sym (k2.same_progress ∙ k1.same_progress) ∙ idle,
              sym (k2.same_just_done ∙ k1.same_just_done) ∙ before,
              sym (k3.same_enabled ∙ k2.same_enabled ∙ k1.same_enabled) ∙ enabled,
              elim (check_dewar_empty p1.1 (sym kept ∙ dewar)) [
                | inl d ↦ inl (sym v2 ∙ d)
                | inr f ↦ inr (sym v3 ∙ f)
              ],
            )
      ]
    where
      ok_inj : {a b : Bool} → ◌≡◌ {A = Result Exception Bool} (ok a) (ok b) → a ≡ b
      ok_inj e = ground arith

  -- A tick, whether it returns or throws, leaves a fill running only if one was running before, or
  -- if the cryostat is pumped down and warm, no fill is in progress or just done, autofill is
  -- enabled by its flag, and the dewar is not known to be empty or was filled by its flag.
  pub tick_running :
      (env : EnvData D) (s : Autofill D)
      → (tick zero lt id cfg broadcast now env s).1.running_fill ≡ running
      → (s.running_fill ≡ running) ⊎ NeedsFill env s
  unfolding tick
  tick_running env s h =
      let s1 = (check_vacuum zero lt id cfg broadcast now env s).1 in
      let k1 = check_vacuum-Keeps zero lt id cfg broadcast now env in
      let k2 = check_dewar-Keeps zero lt id cfg broadcast now in
      let k3 = check_tank-Keeps zero lt id cfg broadcast now env in
      bind_running (check_vacuum zero lt id cfg broadcast now env) _ s _ k1
        (λ pumpdown e1. then_running (check_dewar zero lt id cfg broadcast now) _ s1 _ k2 (
          bind_running (check_tank zero lt id cfg broadcast now env) (λ b. finish b pumpdown) _ _ k3
            (λ fill_needed e3 h3. conclude env s pumpdown fill_needed e1 e3 h3)))
        h
