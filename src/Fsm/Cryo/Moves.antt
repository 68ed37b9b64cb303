-- ===== src/Fsm/Cryo/Moves.antt =====
-- Which moves the cryostat's machine makes, and when it fills.
use foxtrot.Base.{
  ℕ, ◌-◌, ◌<◌, ◌≡◌, ◌≢◌, refl, Bool, true, false, ◌⊎◌, inl, inr, arith, if◌then◌else◌, ltb, ◌∙◌, ap,
}
use foxtrot.Fsm.Event.{DataUpdateEvent}
use foxtrot.Fsm.Cryo.{
  CryoState, initial_cryo_state, cryostat_empty, cryostat_full, cryostat_filling, tank_empty,
  tank_refilled, Cryo, CryoConfig, Transits, entry, should_refill, react, react_tick, react_in,
  react_initial, react_empty, react_full, react_filling, react_tank_empty, react_tank_refilled,
}

-- The moves that the machine is meant to make.
pub data Edge : CryoState → CryoState → Type 0 where
  first_full : Edge initial_cryo_state cryostat_full
  first_fill : Edge initial_cryo_state cryostat_filling
  first_empty : Edge initial_cryo_state cryostat_empty
  runs_empty : Edge cryostat_full cryostat_empty
  refills : Edge cryostat_empty cryostat_filling
  fills : Edge cryostat_filling cryostat_full
  fails : Edge cryostat_filling tank_empty
  tank_filled : Edge tank_empty tank_refilled
  resumes : Edge tank_refilled cryostat_filling

-- A reaction in a state stays, or moves along an edge.
abbrev pub Moved : CryoState → Cryo → Type 0
Moved s c = (c.current ≡ s) ⊎ Edge s c.current

module _ {D : Type 0} (lt : D → D → Bool) (transit : CryoState → ℕ → Cryo → Cryo)
    (transits : Transits transit) (cfg : CryoConfig D) (ev : DataUpdateEvent D) (now : ℕ) where
  entry-current : (s : CryoState) (c : Cryo) → (entry s now c).current ≡ c.current
  unfolding entry
  entry-current cryostat_filling c = refl
  entry-current s c = refl

  entered : (s : CryoState) (c : Cryo) → (transit s now c).current ≡ s
  entered s c =
      ap (λ (d : Cryo). d.current) (transits.enters s now c)
      ∙ entry-current s (record c { current = s })

  along : {s : CryoState} (t : CryoState) (c : Cryo) → Edge s t → Moved s (transit t now c)
  along t c e = inr (rw (entered t c) e)

  -- One of two results by a test.
  choose :
      (b : Bool) {s : CryoState} (x y : Cryo) → Moved s x → Moved s y → Moved s (if b then x else y)
  choose true x y hx hy = hx
  choose false x y hx hy = hy

  react_in-Moved :
      (s : CryoState) (c : Cryo) → c.current ≡ s → Moved s (react_in lt transit cfg s ev now c)
  unfolding react_initial react_empty react_full react_filling react_tank_empty react_tank_refilled
  react_in-Moved initial_cryo_state c e =
      choose _ _ _ (along cryostat_full c first_full)
        (choose _ _ _ (along cryostat_filling c first_fill) (along cryostat_empty c first_empty))
  react_in-Moved cryostat_empty c e = choose _ _ _ (along cryostat_filling c refills) (inl e)
  react_in-Moved cryostat_full c e = choose _ _ _ (along cryostat_empty c runs_empty) (inl e)
  react_in-Moved cryostat_filling c e =
      choose _ _ _ (choose _ _ _ (along cryostat_full c fills) (along tank_empty c fails)) (inl e)
  react_in-Moved tank_empty c e = choose _ _ _ (along tank_refilled c tank_filled) (inl e)
  react_in-Moved tank_refilled c e = choose _ _ _ (along cryostat_filling c resumes) (inl e)

  -- Each data update leaves the machine in its state or moves it along an edge.
  pub react-Moved : (c : Cryo) → Moved c.current (react lt transit cfg ev now c)
  unfolding react
  react-Moved c = react_in-Moved c.current c refl

  should_refill-true :
      should_refill lt transit cfg ev ≡ true
      → (lt ev.tank_temp cfg.cryo_empty_temp_thresh ≡ false)
        × (ev.autofill_enabled ≡ true)
        × (lt ev.cryo_pressure cfg.allowed_pressure_thresh ≡ true)
  unfolding should_refill
  should_refill-true h = ground arith

  starts_filling :
      (s : CryoState) (c : Cryo)
      → s ≢ cryostat_filling
      → c.current ≡ s
      → (react_in lt transit cfg s ev now c).current ≡ cryostat_filling
      → should_refill lt transit cfg ev ≡ true
  unfolding react_initial react_empty react_full react_tank_empty react_tank_refilled
  starts_filling initial_cryo_state c ne e h =
      ground (arith, entered cryostat_full c, entered cryostat_empty c)
  starts_filling cryostat_empty c ne e h = ground arith
  starts_filling cryostat_full c ne e h = ground (arith, entered cryostat_empty c)
  starts_filling cryostat_filling c ne e h = absurd (ne refl)
  starts_filling tank_empty c ne e h = ground (arith, entered tank_refilled c)
  starts_filling tank_refilled c ne e h = ground arith

  -- A data update makes the machine begin to fill only if autofill is enabled, the pressure is below its limit and the
  -- temperature is not below the threshold of an empty tank.
  pub react_starts_filling :
      (c : Cryo)
      → c.current ≢ cryostat_filling
      → (react lt transit cfg ev now c).current ≡ cryostat_filling
      → (lt ev.tank_temp cfg.cryo_empty_temp_thresh ≡ false)
        × (ev.autofill_enabled ≡ true)
        × (lt ev.cryo_pressure cfg.allowed_pressure_thresh ≡ true)
  unfolding react
  react_starts_filling c ne h = should_refill-true (starts_filling c.current c ne refl h)

  -- While it fills, a data update within the preset time of the start, by the last tick, leaves it
  -- filling; one after it ends the fill, as full or as failed by the temperature.
  pub react_filling_lem :
      (c : Cryo) (tick : ℕ)
      → c.current ≡ cryostat_filling
      → let after = react lt transit cfg ev now (react_tick tick c) in
        after.current ≡ (
          if ltb cfg.fill_time_preset (tick - c.start_time)
          then (if lt ev.tank_temp cfg.cryo_empty_temp_thresh then cryostat_full else tank_empty)
          else cryostat_filling)
  unfolding react react_tick react_filling
  react_filling_lem c tick e =
      let ticked : Cryo = record c { filling_time = tick - c.start_time } in
      ground (arith, entered cryostat_full ticked, entered tank_empty ticked)

module _ {D : Type 0} (lt : D → D → Bool) (transit : CryoState → ℕ → Cryo → Cryo)
    (transits : Transits transit) (cfg : CryoConfig D) where
  refill-current :
      (ev : DataUpdateEvent D) (now : ℕ) (c : Cryo)
      → c.current ≡ cryostat_empty
      → should_refill lt transit cfg ev ≡ true
      → react lt transit cfg ev now c ≡ record c { current = cryostat_filling; start_time = now }
  unfolding react react_empty entry
  refill-current ev now c e h = ground (arith, transits.enters cryostat_filling now c)

  leaves_filling :
      (next : DataUpdateEvent D) (soon : ℕ) (d : Cryo)
      → d.current ≡ cryostat_filling
      → cfg.fill_time_preset < d.filling_time
      → (react lt transit cfg next soon d).current
        ≡ (if lt next.tank_temp cfg.cryo_empty_temp_thresh then cryostat_full else tank_empty)
  unfolding react react_filling
  leaves_filling next soon d e h = ground (
    arith,
    entered lt transit transits cfg next soon cryostat_full d,
    entered lt transit transits cfg next soon tank_empty d,
  )

  -- The filling time of an earlier fill is not reset when a new one begins: if it had exceeded the
  -- preset, then the next data update ends the new fill, however soon it comes.
  pub stale_filling_time :
      (ev next : DataUpdateEvent D) (now soon : ℕ) (c : Cryo)
      → c.current ≡ cryostat_empty
      → cfg.fill_time_preset < c.filling_time
      → should_refill lt transit cfg ev ≡ true
      → let begun = react lt transit cfg ev now c in
        (begun.current ≡ cryostat_filling)
        × (begun.start_time ≡ now)
        × ((react lt transit cfg next soon begun).current
            ≡ (if lt next.tank_temp cfg.cryo_empty_temp_thresh then cryostat_full else tank_empty))
  stale_filling_time ev next now soon c e stale h = rw (refill-current ev now c e h) (
    refl,
    refl,
    leaves_filling next soon (record c { current = cryostat_filling; start_time = now }) refl stale,
  )
