-- ===== src/Devices/Archon/States.antt =====
-- Timing states.
use foxtrot.Base.{
  ℕ, suc, ◌+◌, ◌<◌, ◌≤◌, ◌≡◌, refl, sym, ap, subst, ◌∙◌, arith, false, Option, List, [], ◌∷◌, ◌++◌,
  ok, ◌==◌, ==_iff, length, bytes_eq, All, contains,
}
use foxtrot.Base.Int.{pos}
use foxtrot.Base.Decimal.{decimal}
use foxtrot.Base.Numerals.{decimal-length}
use foxtrot.Base.Texts.{Text, bytes, getlines}
use foxtrot.Base.Action.{◌>>◌, then_eq, modify, when}
use foxtrot.Devices.Archon.{Archon, Member, write_key_value}
use foxtrot.Devices.Archon.Params.{
  write_part, add_state, write_state_lines, write_timing_state, position_of,
}
use foxtrot.Devices.Archon.Settings.{set_states}
use foxtrot.Devices.Archon.Commands.{IsPrintable}
use foxtrot.Devices.Archon.Store.{
  Controller, IsKey, is_key-IsKey, setting, setting-IsPrintable, split_at-setting, put, Represents,
  after_write, write_key_value_eq,
}
use foxtrot.Devices.Archon.Writes.{after_write-Represents, names-Represents}
use foxtrot.Devices.Archon.Sequences.{
  IsEntry, put_all, unlines, getlines-unlines, decimal-IsPrintable, writes, writes-lines,
  writes-Represents, writes-state_names, lines_after_le,
}

-- The lines of a state, and the keys that they are written to.
abbrev pub state_lines : List (Text × Text) → List Text
state_lines [] = []
state_lines ((key, val) ∷ kvs) = setting key val ∷ state_lines kvs

abbrev pub keyed : ℕ → List (Text × Text) → List (Text × Text)
keyed state_idx [] = []
keyed state_idx ((key, val) ∷ kvs) =
    (bytes "STATE" ++ (decimal (pos state_idx) ++ b'/' ∷ key), val) ∷ keyed state_idx kvs

position_of-unknown :
    (name : Text) (names : List Text)
    → contains name names ≡ false
    → position_of name names ≡ length names
position_of-unknown name [] h = refl
position_of-unknown name (n ∷ ns) h = ground (arith, position_of-unknown name ns)

length-keyed : (i : ℕ) (kvs : List (Text × Text)) → length (keyed i kvs) ≡ length kvs
length-keyed i [] = refl
length-keyed i (kv ∷ kvs) = ap suc (length-keyed i kvs)

state_lines-IsPrintable :
    (i : ℕ) (kvs : List (Text × Text))
    → All (λ kv. IsKey kv.0) kvs
    → All IsEntry (keyed i kvs)
    → All IsPrintable (state_lines kvs)
state_lines-IsPrintable i [] keys h = tt
state_lines-IsPrintable i ((key, val) ∷ kvs) keys h =
    (setting-IsPrintable key val keys.0 h.0.1, state_lines-IsPrintable i kvs keys.1 h.1)

module _ {Dev : Type 0} (transact : Text → Dev → Option Text × Dev) where
  write_state_lines_cons :
      (i : ℕ) (key val : Text) (more : List Text)
      → IsKey key
      → write_state_lines transact i (setting key val ∷ more) ≡ (
          write_key_value transact (bytes "STATE" ++ (decimal (pos i) ++ b'/' ∷ key)) val
          >> write_state_lines transact i more)
  unfolding write_state_lines
  write_state_lines_cons i key val more k =
      ap (λ o. write_part transact o i (write_state_lines transact i more))
        (split_at-setting key val k)

module _ {Dev : Type 0} (transact : Text → Dev → Option Text × Dev)
    (controller : Controller transact) where
  write_state_lines_lem :
      (i : ℕ) (kvs : List (Text × Text)) (s : Archon Dev) (abs : Text → Option Text)
      → Represents transact controller s abs
      → All (λ kv. IsKey kv.0) kvs
      → All IsEntry (keyed i kvs)
      → s.config_lines + length kvs ≤ 2047
      → write_state_lines transact i (state_lines kvs) s
        ≡ (ok tt, writes transact controller (keyed i kvs) s)
  write_state_lines_lem i [] s abs r keys h room = unfold write_state_lines in refl
  write_state_lines_lem i ((key, val) ∷ kvs) s abs r keys ((k, p, short), h) room =
      let full = bytes "STATE" ++ (decimal (pos i) ++ b'/' ∷ key) in
      let t = after_write transact controller full val s in
      ap (λ (act : Member Dev (Unit {0})). act s)
        (write_state_lines_cons transact i key val (state_lines kvs) keys.0)
      ∙ then_eq (write_key_value transact full val) (write_state_lines transact i (state_lines kvs))
          s t (write_key_value_eq transact controller full val s r k p (omega arith) short)
      ∙ write_state_lines_lem i kvs t (put full val abs)
          (after_write-Represents transact controller full val s abs r k p (omega arith)) keys.1 h
          (omega (arith, lines_after_le transact controller full val s))

  -- The state that `add_state` leaves.
  abbrev added : Text → Archon Dev → Archon Dev
  added name t =
      record (after_write transact controller (bytes "STATES")
        (decimal (pos (length t.state_names))) t) { state_names = t.state_names ++ name ∷ [] }

  add_state_lem :
      (name : Text) (t : Archon Dev) (abs : Text → Option Text)
      → Represents transact controller t abs
      → t.config_lines < 2047
      → length t.state_names < 2048
      → add_state transact name t ≡ (ok tt, added name t)
  unfolding add_state
  add_state_lem name t abs r room few =
      let n = length t.state_names in
      then_eq (set_states transact (pos n))
        (modify (λ u. record u { state_names = u.state_names ++ name ∷ [] })) t
        (after_write transact controller (bytes "STATES") (decimal (pos n)) t)
        (write_key_value_eq transact controller (bytes "STATES") (decimal (pos n)) t r
          (is_key-IsKey (bytes "STATES") refl) (decimal-IsPrintable n) room
          (omega (arith, decimal-length n)))

  added-Represents :
      (name : Text) (t : Archon Dev) (abs : Text → Option Text)
      → Represents transact controller t abs
      → t.config_lines < 2047
      → Represents transact controller
          (added name t)
          (put (bytes "STATES") (decimal (pos (length t.state_names))) abs)
  added-Represents name t abs r room =
      let n = length t.state_names in
      names-Represents transact controller (t.state_names ++ name ∷ []) t.parammap
        (after_write transact controller (bytes "STATES") (decimal (pos n)) t)
        (put (bytes "STATES") (decimal (pos n)) abs)
        (after_write-Represents transact controller (bytes "STATES") (decimal (pos n)) t abs r
          (is_key-IsKey (bytes "STATES") refl) (decimal-IsPrintable n) room)

  -- A new state whose lines fit is written under the next number, and its name is remembered. STATES is
  -- then the number of the states before it, one less than there are now. All other keys keep their
  -- values.
  pub write_timing_state_new :
      (name : Text) (kvs : List (Text × Text)) (s : Archon Dev) (abs : Text → Option Text)
      → Represents transact controller s abs
      → contains name s.state_names ≡ false
      → All (λ kv. IsKey kv.0) kvs
      → All IsEntry (keyed (length s.state_names) kvs)
      → s.config_lines + length kvs < 2047
      → length s.state_names < 2048
      → let done = write_timing_state transact name (unlines (state_lines kvs)) s in
        (done.0 ≡ ok tt)
        × (done.1.state_names ≡ s.state_names ++ name ∷ [])
        × Represents transact controller done.1 (
            put
              (bytes "STATES")
              (decimal (pos (length s.state_names)))
              (put_all (keyed (length s.state_names) kvs) abs))
  unfolding write_timing_state
  write_timing_state_new name kvs s abs r new keys h room few =
      let n = length s.state_names in
      let text = unlines (state_lines kvs) in
      let t = writes transact controller (keyed n kvs) s in
      let names = writes-state_names transact controller (keyed n kvs) s in
      let rt =
        writes-Represents transact controller (keyed n kvs) s abs r h
          (omega (arith, length-keyed n kvs)) in
      let lt : t.config_lines < 2047 =
        omega (arith, writes-lines transact controller (keyed n kvs) s, length-keyed n kvs) in
      let written =
        ap (λ l. write_state_lines transact n l s)
          (getlines-unlines (state_lines kvs) (state_lines-IsPrintable n kvs keys h))
        ∙ write_state_lines_lem n kvs s abs r keys h (omega arith) in
      let run : write_timing_state transact name text s ≡ (ok tt, added name t) =
        ap
          (λ i.
            (write_state_lines transact i (getlines 10 text)
                >> when (i == n) (add_state transact name))
              s)
          (position_of-unknown name s.state_names new)
        ∙ then_eq (write_state_lines transact n (getlines 10 text))
            (when (n == n) (add_state transact name)) s t written
        ∙ ap (λ b. when b (add_state transact name) t) ((==_iff n n).1 refl)
        ∙ add_state_lem name t (put_all (keyed n kvs) abs) rt lt
            (subst (λ l. length l < 2048) (sym names) few) in
      rw run (
        refl,
        ap (λ l. l ++ name ∷ []) names,
        subst
            (λ m.
              Represents transact controller (added name t)
                (put (bytes "STATES") (decimal (pos (length m))) (put_all (keyed n kvs) abs)))
            names (added-Represents name t (put_all (keyed n kvs) abs) rt lt),
      )
