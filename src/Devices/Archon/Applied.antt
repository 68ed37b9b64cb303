-- ===== src/Devices/Archon/Applied.antt =====
-- Settings that are written, applied and read back, and the configuration after it was cleared.
use foxtrot.Base.{
  ℕ, suc, ◌+◌, ◌<◌, ◌≤◌, ◌≡◌, refl, sym, ap, subst, ◌∙◌, arith, true, Option, none, some, List, [],
  ◌∷◌, ok, if◌then◌else◌, length, All, bytes_eq, same_refl,
}
use foxtrot.Base.Int.{ℤ, pos, negsuc}
use foxtrot.Base.Decimal.{decimal}
use foxtrot.Base.Numerals.{IsInt, decimal_negsuc}
use foxtrot.Base.Texts.{Text, bytes}
use foxtrot.Base.Action.{◌>>◌, bind_eq, then_eq, give, modify}
use foxtrot.Devices.Archon.{
  Archon, framed, this_order, cmd, order_cmd, write_key_value, write_int, read_int,
}
use foxtrot.Devices.Archon.Settings.{
  set_int, set_timing_lines, set_states, set_parameters, set_constants,
}
use foxtrot.Devices.Archon.Params.{clear_config, forget, write_counts}
use foxtrot.Devices.Archon.Commands.{IsPrintable, answer, after_cmd, cmd_own_answer, this_order_lt}
use foxtrot.Devices.Archon.Store.{
  Controller, IsKey, is_key, is_key-IsKey, setting, put, Represents, after_write,
  write_key_value_eq,
}
use foxtrot.Devices.Archon.Writes.{after_write-Represents}
use foxtrot.Devices.Archon.Refinement.{read_key_value_eq, read_int_eq}
use foxtrot.Devices.Archon.Sequences.{
  IsEntry, put_all, writes, writes-Represents, decimal-IsPrintable, lines_after_le,
}

negative-IsPrintable : (n : ℤ) → IsPrintable (decimal n)
negative-IsPrintable (pos n) = decimal-IsPrintable n
negative-IsPrintable (negsuc n) =
    subst IsPrintable (sym (decimal_negsuc n)) (refl, decimal-IsPrintable (suc n))

-- The counts of an empty configuration.
abbrev pub empty_counts : List (Text × Text)
empty_counts =
    (bytes "LINES", bytes "0")
    ∷ (bytes "STATES", bytes "0")
    ∷ (bytes "PARAMETERS", bytes "0")
    ∷ (bytes "CONSTANTS", bytes "0")
    ∷ (bytes "TAPLINES", bytes "0")
    ∷ []

module _ {Dev : Type 0} (transact : Text → Dev → Option Text × Dev) where
  -- The controller answers a command with its order number and nothing else.
  abbrev pub Acknowledges : Text → Type 0
  Acknowledges request =
      (order : ℕ) (dev : Dev)
      → order < 256
      → (transact (framed order request) dev).0 ≡ some (answer order [])

  order_cmd_lem :
      (request : Text) (s : Archon Dev)
      → Acknowledges request
      → s.order ≤ 254
      → order_cmd transact request s ≡ (ok tt, after_cmd transact request s)
  unfolding order_cmd
  order_cmd_lem request s acknowledged h =
      bind_eq (cmd transact request) (λ _. give tt) s (after_cmd transact request s) []
        (cmd_own_answer transact request [] s h tt
          (acknowledged (this_order s.order) s.dev (omega (arith, this_order_lt s.order h))))

module _ {Dev : Type 0} (transact : Text → Dev → Option Text × Dev)
    (controller : Controller transact) where
  open controller use {line}

  -- A command that leaves the lines as they are.
  abbrev pub KeepsLines : Text → Type 0
  KeepsLines request =
      (order m : ℕ) (dev : Dev)
      → order < 256
      → line (transact (framed order request) dev).1 m ≡ line dev m

  after_cmd-Represents :
      (request : Text) (s : Archon Dev) (abs : Text → Option Text)
      → Represents transact controller s abs
      → KeepsLines request
      → Represents transact controller (after_cmd transact request s) abs
  after_cmd-Represents request s abs r keeps =
      let lt : this_order s.order < 256 = omega (arith, this_order_lt s.order r.order_le) in
      record {
        order_le = omega (arith, this_order_lt s.order r.order_le);
        lines_le = r.lines_le;
        known = λ k m h.
            let (below, v, held, stored, kj, pv) = r.known k m h in
            (below, v, held, keeps (this_order s.order) m s.dev lt ∙ stored, kj, pv);
        unknown = r.unknown;
        apart = r.apart;
      }

  -- A number that is written and applied is read back, if the controller acknowledges the command that
  -- applies it and keeps its lines, and the line fits. No other key changes.
  pub read_int-set_int :
      (key apply : Text) (n : ℤ) (s : Archon Dev) (abs : Text → Option Text)
      → Represents transact controller s abs
      → Acknowledges transact apply
      → KeepsLines apply
      → IsKey key
      → IsInt n
      → s.config_lines < 2047
      → length (setting key (decimal n)) < 2047
      → let done = set_int transact key apply n s in
        (done.0 ≡ ok tt)
        × ((read_int transact key done.1).0 ≡ ok n)
        × Represents transact controller done.1 (put key (decimal n) abs)
  unfolding set_int write_int
  read_int-set_int key apply n s abs r acknowledged keeps k small room short =
      let p = negative-IsPrintable n in
      let t = after_write transact controller key (decimal n) s in
      let rt = after_write-Represents transact controller key (decimal n) s abs r k p room in
      let u = after_cmd transact apply t in
      let abs' = put key (decimal n) abs in
      let ru = after_cmd-Represents apply t abs' rt keeps in
      let run : set_int transact key apply n s ≡ (ok tt, u) =
        then_eq (write_int transact key n) (order_cmd transact apply) s t
          (write_key_value_eq transact controller key (decimal n) s r k p room short)
        ∙ order_cmd_lem transact apply t acknowledged rt.order_le in
      let has : abs' key ≡ some (decimal n) =
        ap (λ b. if b then some (decimal n) else abs key) (same_refl key) in
      let (m, read, _) = read_key_value_eq transact controller key (decimal n) u abs' ru has in
      rw run (refl, ap (λ p. p.0) (read_int_eq transact controller key n u _ small read), ru)

  abbrev wrote_zero : Text → Archon Dev → Archon Dev
  wrote_zero key s = after_write transact controller key (bytes "0") s

  zero_lem :
      (key : Text) (s : Archon Dev) (abs : Text → Option Text) (n : ℕ)
      → Represents transact controller s abs
      → is_key key ≡ true
      → length (setting key (bytes "0")) < 2047
      → n < 2047
      → s.config_lines ≤ n
      → (write_key_value transact key (bytes "0") s ≡ (ok tt, wrote_zero key s))
        × Represents transact controller (wrote_zero key s) (put key (bytes "0") abs)
        × ((wrote_zero key s).config_lines ≤ n + 1)
  zero_lem key s abs n r k short room at =
      let key' = is_key-IsKey key k in
      let lt : s.config_lines < 2047 = omega arith in
      (
        write_key_value_eq transact controller key (bytes "0") s r key' (refl, tt) lt short,
        after_write-Represents transact controller key (bytes "0") s abs r key' (refl, tt) lt,
        omega (arith, lines_after_le transact controller key (bytes "0") s),
      )

  write_counts_lem :
      (s : Archon Dev) (abs : Text → Option Text)
      → Represents transact controller s abs
      → s.config_lines ≡ 0
      → write_counts transact s ≡ (ok tt, writes transact controller empty_counts s)
  unfolding write_counts decimal
  write_counts_lem s abs r empty =
      let c5 = write_key_value transact (bytes "TAPLINES") (bytes "0") in
      let c4 = set_constants transact (pos 0) >> c5 in
      let c3 = set_parameters transact (pos 0) >> c4 in
      let c2 = set_states transact (pos 0) >> c3 in
      let s1 = wrote_zero (bytes "LINES") s in
      let s2 = wrote_zero (bytes "STATES") s1 in
      let s3 = wrote_zero (bytes "PARAMETERS") s2 in
      let s4 = wrote_zero (bytes "CONSTANTS") s3 in
      let (w1, r1, l1) =
        zero_lem (bytes "LINES") s abs 0 r refl (omega arith) (omega arith) (omega arith) in
      let (w2, r2, l2) = zero_lem (bytes "STATES") s1 _ 1 r1 refl (omega arith) (omega arith) l1 in
      let (w3, r3, l3) =
        zero_lem (bytes "PARAMETERS") s2 _ 2 r2 refl (omega arith) (omega arith) l2 in
      let (w4, r4, l4) =
        zero_lem (bytes "CONSTANTS") s3 _ 3 r3 refl (omega arith) (omega arith) l3 in
      let (w5, r5, l5) =
        zero_lem (bytes "TAPLINES") s4 _ 4 r4 refl (omega arith) (omega arith) l4 in
      then_eq (set_timing_lines transact (pos 0)) c2 s s1 w1
      ∙ then_eq (set_states transact (pos 0)) c3 s1 s2 w2
      ∙ then_eq (set_parameters transact (pos 0)) c4 s2 s3 w3
      ∙ then_eq (set_constants transact (pos 0)) c5 s3 s4 w4
      ∙ w5

  zero-IsEntry :
      (key : Text)
      → is_key key ≡ true
      → length (setting key (bytes "0")) < 2047
      → IsEntry (key, bytes "0")
  zero-IsEntry key k short = (is_key-IsKey key k, (refl, tt), short)

  entries : All IsEntry empty_counts
  entries = (
    zero-IsEntry (bytes "LINES") refl (omega arith),
    (
      zero-IsEntry (bytes "STATES") refl (omega arith),
      (
        zero-IsEntry (bytes "PARAMETERS") refl (omega arith),
        (
          zero-IsEntry (bytes "CONSTANTS") refl (omega arith),
          (zero-IsEntry (bytes "TAPLINES") refl (omega arith), tt),
        ),
      ),
    ),
  )

  pub forget-Represents :
      (s : Archon Dev)
      → s.order ≤ 254
      → Represents transact controller (forget transact s) (λ _. none)
  forget-Represents s h = record {
    order_le = h;
    lines_le = omega arith;
    known = λ k m e. absurd cc;
    unknown = λ k e. refl;
    apart = λ j k m e e'. absurd cc;
  }

  -- Whatever the configuration was, and whatever the controller still holds, clearing it leaves five lines,
  -- the counts, all of which are zero, and no other key has a value.
  pub clear_config-Represents :
      (s : Archon Dev)
      → s.order ≤ 254
      → Acknowledges transact (bytes "CLEARCONFIG")
      → let done = clear_config transact s in
        (done.0 ≡ ok tt)
        × Represents transact controller done.1 (put_all empty_counts (λ _. none))
        × (done.1.config_lines ≡ 5)
        × (done.1.state_names ≡ [])
        × (done.1.parammap ≡ [])
  unfolding clear_config
  clear_config-Represents s h acknowledged =
      let t = after_cmd transact (bytes "CLEARCONFIG") s in
      let u = forget transact t in
      let v = writes transact controller empty_counts u in
      let small : t.order ≤ 254 = omega (arith, this_order_lt s.order h) in
      let r = forget-Represents t small in
      let run : clear_config transact s ≡ (ok tt, v) =
        then_eq (order_cmd transact (bytes "CLEARCONFIG"))
          (modify (forget transact) >> write_counts transact) s t
          (order_cmd_lem transact (bytes "CLEARCONFIG") s acknowledged h)
        ∙ then_eq (modify (forget transact)) (write_counts transact) t u refl
        ∙ write_counts_lem u (λ _. none) r refl in
      rw run (
        refl,
        writes-Represents transact controller empty_counts u (λ _. none) r entries (omega arith),
        refl,
        refl,
        refl,
      )
