-- ===== src/Devices/Archon/Refinement.antt =====
-- Reading and writing values refine a map.
use foxtrot.Base.{
  ℕ, ◌<◌, ◌≡◌, refl, ap, ◌∙◌, arith, true, false, Option, none, some, ok, err, if◌then◌else◌,
  length, Bool-cases, inl, inr, Option-cases, bytes_eq, ◌&&◌, ltb, leb, ◌||◌,
}
use foxtrot.Base.Decimal.{decimal}
use foxtrot.Base.Numerals.{IsInt, stoi-decimal}
use foxtrot.Base.Int.{ℤ, pos, negsuc}
use foxtrot.Base.Texts.{Text}
use foxtrot.Base.Dict.{lookup, insert}
use foxtrot.Base.Action.{bind_eq, bind_err, give, modify}
use foxtrot.Devices.Archon.{
  read_int, to_int, whole, Archon, runtime_error, device_error, this_order, cmd, read_config_line,
  read_known, read_key_value, write_key_value, write_known, write_config_line, value_of,
}
use foxtrot.Devices.Archon.Writes.{after_write-Represents}
use foxtrot.Devices.Archon.Commands.{IsPrintable, answer, after_cmd, cmd_own_answer, this_order_lt}
use foxtrot.Devices.Archon.Store.{
  rconfig, le_not_lt, Controller, IsKey, setting, setting-IsPrintable, split_at-setting, put,
  Represents, write_key_value_eq,
}

module _ {Dev : Type 0} (transact : Text → Dev → Option Text × Dev) where
  write_config_line_full :
      (text : Text) (num : ℤ) (s : Archon Dev)
      → (ltb s.config_lines 2047 && ltb (length text) 2047) ≡ false
      → write_config_line transact text num s ≡ (err device_error, s)
  unfolding write_config_line
  write_config_line_full text num s full = rw (crossed s.config_lines (length text) full)
    where
      crossed : (a b : ℕ) → (ltb a 2047 && ltb b 2047) ≡ false → (leb 2047 a || leb 2047 b) ≡ true
      crossed a b h = ground arith

  write_known_full :
      (o : Option ℕ) (key val : Text) (s : Archon Dev)
      → (ltb s.config_lines 2047 && ltb (length (setting key val)) 2047) ≡ false
      → write_known transact o key val s ≡ (err device_error, s)
  unfolding write_known
  write_known_full none key val s full =
      bind_err (write_config_line transact (setting key val) (negsuc 0))
        (λ linenum.
          modify (λ t. record t { config_line_map = insert key linenum t.config_line_map }))
        s s device_error (write_config_line_full (setting key val) (negsuc 0) s full)
  write_known_full (some n) key val s full =
      bind_err (write_config_line transact (setting key val) (pos n)) (λ _. give tt) s s
        device_error (write_config_line_full (setting key val) (pos n) s full)

  read_config_line_below :
      (n : ℕ) (s : Archon Dev)
      → n < s.config_lines
      → read_config_line transact n false s ≡ cmd transact (rconfig n) s
  unfolding read_config_line
  read_config_line_below n s below = rw (le_not_lt s.config_lines n below)

write_key_value_full :
    {Dev : Type 0} (transact : Text → Dev → Option Text × Dev) (key val : Text) (s : Archon Dev)
    → (ltb s.config_lines 2047 && ltb (length (setting key val)) 2047) ≡ false
    → write_key_value transact key val s ≡ (err device_error, s)
unfolding write_key_value
write_key_value_full transact key val s full =
    write_known_full transact (lookup key s.config_line_map) key val s full

module _ {Dev : Type 0} (transact : Text → Dev → Option Text × Dev)
    (controller : Controller transact) where
  open controller use {line}

  -- While fewer than 2047 lines are in use and the new line is shorter than 2047 bytes, writing a value
  -- puts it into the map that the lines stand for, and no other key changes. Else it throws and nothing
  -- changes.
  pub write_key_value-Represents :
      (key val : Text) (s : Archon Dev) (abs : Text → Option Text)
      → Represents transact controller s abs
      → IsKey key
      → IsPrintable val
      → let done = write_key_value transact key val s in
        let fits = ltb s.config_lines 2047 && ltb (length (setting key val)) 2047 in
        (done.0 ≡ (if fits then ok tt else err device_error))
        × Represents transact controller done.1 (if fits then put key val abs else abs)
  write_key_value-Represents key val s abs r k p =
      elim (Bool-cases (ltb s.config_lines 2047 && ltb (length (setting key val)) 2047)) [
        | inl fits ↦
            let room : s.config_lines < 2047 = ground arith in
            let short : length (setting key val) < 2047 = ground arith in
            rw (fits, write_key_value_eq transact controller key val s r k p room short)
              (refl, after_write-Represents transact controller key val s abs r k p room)
        | inr full ↦ rw (full, write_key_value_full transact key val s full) (refl, r)
      ]

  read_known-some :
      (key val : Text) (n : ℕ) (s : Archon Dev) (abs : Text → Option Text)
      → Represents transact controller s abs
      → n < s.config_lines
      → line s.dev n ≡ setting key val
      → IsKey key
      → IsPrintable val
      → read_known transact (some n) s ≡ (ok val, after_cmd transact (rconfig n) s)
  unfolding read_known
  read_known-some key val n s abs r below stored k p =
      let lt : this_order s.order < 256 = omega (arith, this_order_lt s.order r.order_le) in
      bind_eq (read_config_line transact n false) (value_of transact) s
        (after_cmd transact (rconfig n) s) (setting key val)
        (read_config_line_below transact n s below
          ∙ cmd_own_answer transact (rconfig n) (setting key val) s r.order_le
              (setting-IsPrintable key val k p)
              (controller.rconfig_answer (this_order s.order) n s.dev lt (omega (arith, r.lines_le))
                ∙ ap (λ t. some (answer (this_order s.order) t)) stored))
      ∙ rw (split_at-setting key val k, value_of)

  after_read-Represents :
      (n : ℕ) (s : Archon Dev) (abs : Text → Option Text)
      → Represents transact controller s abs
      → n < s.config_lines
      → Represents transact controller (after_cmd transact (rconfig n) s) abs
  after_read-Represents n s abs r below = record {
    order_le = omega (arith, this_order_lt s.order r.order_le);
    lines_le = r.lines_le;
    known = λ k m h.
        let (lt, v, held, stored, kj, pv) = r.known k m h in
        (lt, v, held, same_line m ∙ stored, kj, pv);
    unknown = r.unknown;
    apart = r.apart;
  }
    where
      same_line : (m : ℕ) → line (after_cmd transact (rconfig n) s).dev m ≡ line s.dev m
      same_line m =
          controller.rconfig_line (this_order s.order) n s.dev m
            (omega (arith, this_order_lt s.order r.order_le)) (omega (arith, r.lines_le))

  -- A key that has a value.
  pub read_key_value_eq :
      (key val : Text) (s : Archon Dev) (abs : Text → Option Text)
      → Represents transact controller s abs
      → abs key ≡ some val
      → (n : ℕ) × (read_key_value transact key s ≡ (ok val, after_cmd transact (rconfig n) s))
        × Represents transact controller (after_cmd transact (rconfig n) s) abs
  unfolding read_key_value
  read_key_value_eq key val s abs r has = elim (Option-cases (lookup key s.config_line_map)) [
    | inl e ↦ absurd (ground (arith, r.unknown key e))
    | inr (n, e) ↦
        let (lt, v, held, stored, kj, pv) = r.known key n e in
        let same : v ≡ val = ground (arith, held, has) in
        (
          n,
          ap (λ o. read_known transact o s) e
              ∙ read_known-some key v n s abs r lt stored kj pv
              ∙ ap (λ t. (ok t, after_cmd transact (rconfig n) s)) same,
          after_read-Represents n s abs r lt,
        )
  ]

  -- Reading a key returns its value in the map that the lines stand for, throws if it has none, and
  -- leaves the map as it is.
  pub read_key_value-Represents :
      (key : Text) (s : Archon Dev) (abs : Text → Option Text)
      → Represents transact controller s abs
      → let done = read_key_value transact key s in
        (done.0 ≡ (elim (abs key) [ none ↦ err runtime_error | some val ↦ ok val ]))
        × Represents transact controller done.1 abs
  unfolding read_key_value
  read_key_value-Represents key s abs r = elim (Option-cases (lookup key s.config_line_map)) [
    | inl e ↦ rw (e, r.unknown key e) (refl, r)
    | inr (n, e) ↦
        let (lt, v, held, stored, kj, pv) = r.known key n e in
        rw (e, held, read_known-some key v n s abs r lt stored kj pv)
          (refl, after_read-Represents n s abs r lt)
  ]

  -- A value that is a number.
  pub read_int_eq :
      (key : Text) (n : ℤ) (s t : Archon Dev)
      → IsInt n
      → read_key_value transact key s ≡ (ok (decimal n), t)
      → read_int transact key s ≡ (ok n, t)
  unfolding read_int
  read_int_eq key n s t small read =
      bind_eq (read_key_value transact key) to_int s t (decimal n) read
      ∙ ap (λ r. (whole r, t)) (stoi-decimal n small)
