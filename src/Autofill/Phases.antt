-- ===== src/Autofill/Phases.antt =====
-- What the parts of `tick` keep and change.
use foxtrot.Base.{
  ℕ, ◌≡◌, refl, ◌↔◌, ◌∙◌, arith, Bool, true, false, String, Option, none, some, Result, ok, err,
  if◌then◌else◌, text_eq, inl, inr, Bool-cases,
}
use foxtrot.Base.Dict.{lookup, lookup-insert}
use foxtrot.Rpc.{Exception, out_of_range, check_repl_err}
use foxtrot.Flags.{Variant, boolval, get_server_flag, set_server_flag}
use foxtrot.Flags.Calls.{get_server_flag_lem}
use foxtrot.Base.Action.{when, ◌>>=◌, ◌>>◌}
use foxtrot.Autofill.{
  Act, EventType, Autofill, AutofillConfig, EnvData, set_flag, broadcast_notify, was_dewar_filled,
  is_autofill_enabled, log_event, bool_or_create, clear_dewar_filled, set_dewar_status,
  set_tank_status, set_pumpdown_status, checkin, check_vacuum, check_dewar, warm_tank, check_tank,
}

abbrev pub enable_flag : String
enable_flag = "autofill/autofill_enable"

abbrev pub filled_flag : String
filled_flag = "autofill/dewar_filled"

-- The members that only a fill and its thread change, and the flag that enables it.
pub record Kept {D : Type 0} (s t : Autofill D) : Type 0 where
  pub same_fill : t.running_fill ≡ s.running_fill
  pub same_progress : t.fill_in_progress ≡ s.fill_in_progress
  pub same_just_done : t.fill_just_done ≡ s.fill_just_done
  pub same_enabled : lookup enable_flag t.flags ≡ lookup enable_flag s.flags

module _ {D : Type 0} where
  abbrev pub Keeps : {A : Type 0} → Act D A → Type 0
  Keeps act = (s : Autofill D) → Kept s (act s).1

  Kept-refl : (s : Autofill D) → Kept s s
  Kept-refl s = record {
    same_fill = refl;
    same_progress = refl;
    same_just_done = refl;
    same_enabled = refl;
  }

  Kept-trans : {s t u : Autofill D} → Kept s t → Kept t u → Kept s u
  Kept-trans h k = record {
    same_fill = k.same_fill ∙ h.same_fill;
    same_progress = k.same_progress ∙ h.same_progress;
    same_just_done = k.same_just_done ∙ h.same_just_done;
    same_enabled = k.same_enabled ∙ h.same_enabled;
  }

  bind-Keeps :
      {A B : Type 0} (act : Act D A) (next : A → Act D B)
      → Keeps act
      → ((a : A) → Keeps (next a))
      → Keeps (act >>= next)
  unfolding ◌>>=◌
  bind-Keeps {A = A} {B = B} act next h k s = from (act s) (h s)
    where
      from :
          (p : Result Exception A × Autofill D)
          → Kept s p.1
          → Kept s (((λ (u : Autofill D). p) >>= next) s).1
      from (err e, t) g = g
      from (ok a, t) g = Kept-trans g (k a t)

  then-Keeps :
      {B : Type 0} (act : Act D (Unit {0})) (next : Act D B)
      → Keeps act
      → Keeps next
      → Keeps (act >> next)
  unfolding ◌>>◌ ◌>>=◌
  then-Keeps act next h k s = bind-Keeps act (λ u. next) h (λ u. k) s

  when-Keeps : (b : Bool) (act : Act D (Unit {0})) → Keeps act → Keeps (when b act)
  when-Keeps true act h s = h s
  when-Keeps false act h s = Kept-refl s

  if-Keeps :
      {A : Type 0} (b : Bool) (x y : Act D A) → Keeps x → Keeps y → Keeps (if b then x else y)
  if-Keeps true x y h k = h
  if-Keeps false x y h k = k

  dewar_empty-Kept : (b : Bool) (s : Autofill D) → Kept s (record s { dewar_empty = b })
  dewar_empty-Kept b s = record {
    same_fill = refl;
    same_progress = refl;
    same_just_done = refl;
    same_enabled = refl;
  }

  logged-Kept : (b : Bool) (s : Autofill D) → Kept s (record s { logged_tank_empty = b })
  logged-Kept b s = record {
    same_fill = refl;
    same_progress = refl;
    same_just_done = refl;
    same_enabled = refl;
  }

module _ {D : Type 0} (zero : D) (lt : D → D → Bool) (id : ℕ) (cfg : AutofillConfig D)
    (broadcast : String → String → Option Exception) (now : String) where
  set_flag-Keeps :
      (name : String) (val : Variant D)
      → text_eq.same name enable_flag ≡ false
      → Keeps (set_flag zero lt id cfg broadcast now name val)
  unfolding set_flag set_server_flag check_repl_err
  set_flag-Keeps name val ne s = record {
    same_fill = refl;
    same_progress = refl;
    same_just_done = refl;
    same_enabled = ground (arith, lookup-insert name enable_flag val s.flags);
  }

  log_event-Keeps : (tp : EventType) → Keeps (log_event zero lt id cfg broadcast now tp)
  unfolding log_event
  log_event-Keeps tp s = record {
    same_fill = refl;
    same_progress = refl;
    same_just_done = refl;
    same_enabled = refl;
  }

  broadcast_notify-Keeps :
      (title body : String) → Keeps (broadcast_notify zero lt id cfg broadcast now title body)
  unfolding broadcast_notify
  broadcast_notify-Keeps title body s = elim (Bool-cases cfg.pb_enable) [
    | inl e ↦ rw e (Kept-refl s)
    | inr e ↦ rw e (Kept-refl s)
  ]

  pub checkin-Keeps : Keeps (checkin zero lt id cfg broadcast now)
  unfolding checkin
  checkin-Keeps = set_flag-Keeps _ _ refl

  pub check_vacuum-Keeps : (env : EnvData D) → Keeps (check_vacuum zero lt id cfg broadcast now env)
  unfolding check_vacuum set_pumpdown_status
  check_vacuum-Keeps env = then-Keeps _ _ (set_flag-Keeps _ _ refl) Kept-refl

  bool_flag-Keeps :
      (name : String) (r : Result Exception (Variant D))
      → text_eq.same name enable_flag ≡ false
      → Keeps (bool_or_create zero lt id cfg broadcast now name r)
  bool_flag-Keeps name (ok (boolval b)) ne = Kept-refl
  bool_flag-Keeps name (ok v) ne = Kept-refl
  bool_flag-Keeps name (err (out_of_range what)) ne =
      then-Keeps _ _ (set_flag-Keeps name _ ne) Kept-refl
  bool_flag-Keeps name (err e) ne = Kept-refl

  was_dewar_filled-Keeps : Keeps (was_dewar_filled zero lt id cfg broadcast now)
  unfolding was_dewar_filled
  was_dewar_filled-Keeps s = bool_flag-Keeps filled_flag _ refl s

  -- A flag that is read as a Boolean: it is true exactly if it is stored so, and the members stay.
  bool_flag_lem :
      (name : String) (s : Autofill D)
      → let p =
          bool_or_create zero lt id cfg broadcast now name
            (get_server_flag zero id s.flags name)
            s in
        ((p.0 ≡ ok true) ↔ (lookup name s.flags ≡ some (boolval true)))
        × (p.1.running_fill ≡ s.running_fill)
        × (p.1.dewar_empty ≡ s.dewar_empty)
  unfolding set_flag set_server_flag check_repl_err ◌>>◌
  bool_flag_lem name s =
      rw (get_server_flag_lem zero s.flags name id) (by_value (lookup name s.flags))
    where
      by_value :
          (v : Option (Variant D))
          → let p =
              bool_or_create zero lt id cfg broadcast now name
                (elim v [ none ↦ err (out_of_range "invalid server flag") | some val ↦ ok val ])
                s in
            ((p.0 ≡ ok true) ↔ (v ≡ some (boolval true)))
            × (p.1.running_fill ≡ s.running_fill)
            × (p.1.dewar_empty ≡ s.dewar_empty)
      by_value none = ((λ h. ground arith, λ h. ground arith), refl, refl)
      by_value (some (boolval b)) = ((λ h. ground arith, λ h. ground arith), refl, refl)
      by_value (some v) = ((λ h. ground arith, λ h. ground arith), refl, refl)

  pub is_autofill_enabled_lem :
      (s : Autofill D)
      → let p = is_autofill_enabled zero lt id cfg broadcast now s in
        ((p.0 ≡ ok true) ↔ (lookup enable_flag s.flags ≡ some (boolval true)))
        × (p.1.running_fill ≡ s.running_fill)
        × (p.1.dewar_empty ≡ s.dewar_empty)
  unfolding is_autofill_enabled
  is_autofill_enabled_lem s = bool_flag_lem enable_flag s

  pub was_dewar_filled_lem :
      (s : Autofill D)
      → let p = was_dewar_filled zero lt id cfg broadcast now s in
        ((p.0 ≡ ok true) ↔ (lookup filled_flag s.flags ≡ some (boolval true)))
        × (p.1.running_fill ≡ s.running_fill)
        × (p.1.dewar_empty ≡ s.dewar_empty)
  unfolding was_dewar_filled
  was_dewar_filled_lem s = bool_flag_lem filled_flag s

  pub check_dewar-Keeps : Keeps (check_dewar zero lt id cfg broadcast now)
  unfolding check_dewar set_dewar_status clear_dewar_filled
  check_dewar-Keeps = bind-Keeps _ _ was_dewar_filled-Keeps (λ filled. when-Keeps filled _ (
      then-Keeps _ _ (broadcast_notify-Keeps _ _) (
        then-Keeps _ _ (set_flag-Keeps _ _ refl) (
          then-Keeps _ _ (dewar_empty-Kept _)
            (then-Keeps _ _ (set_flag-Keeps _ _ refl) (log_event-Keeps _))))))

  warm_tank-Keeps : Keeps (warm_tank zero lt id cfg broadcast now)
  unfolding warm_tank set_tank_status set_dewar_status
  warm_tank-Keeps = bind-Keeps _ _ Kept-refl (λ begun.
      then-Keeps _ _
        (when-Keeps _ _ (
          then-Keeps _ _ (broadcast_notify-Keeps _ _)
            (then-Keeps _ _ (log_event-Keeps _) (logged-Kept _))))
        (then-Keeps _ _ (set_flag-Keeps _ _ refl) (
          if-Keeps begun.fill_just_done _ _
            (then-Keeps _ _ (logged-Kept _) (
              then-Keeps _ _
                (when-Keeps _ _ (
                  then-Keeps _ _ (broadcast_notify-Keeps _ _)
                    (then-Keeps _ _ (set_flag-Keeps _ _ refl) (log_event-Keeps _))))
                (then-Keeps _ _ (dewar_empty-Kept _) Kept-refl)))
            Kept-refl)))

  pub check_tank-Keeps : (env : EnvData D) → Keeps (check_tank zero lt id cfg broadcast now env)
  unfolding check_tank set_tank_status
  check_tank-Keeps env s = elim (Bool-cases (lt cfg.empty_temp env.tank_temp)) [
    | inl e ↦ rw e (warm_tank-Keeps s)
    | inr e ↦ rw e (then-Keeps _ _ (set_flag-Keeps _ _ refl) Kept-refl s)
  ]
