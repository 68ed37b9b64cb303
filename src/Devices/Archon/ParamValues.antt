-- ===== src/Devices/Archon/ParamValues.antt =====
-- Parameters that are set and read.
use foxtrot.Base.{
  ℕ, ◌+◌, ◌<◌, ◌≡◌, refl, ap, ◌∙◌, arith, false, Option, none, some, [], ◌∷◌, ◌++◌, ok, ◌==◌,
  if◌then◌else◌, length, bytes_eq, same_refl, ◌⊎◌, inl, inr,
}
use foxtrot.Base.Int.{ℤ, pos}
use foxtrot.Base.Decimal.{decimal}
use foxtrot.Base.Numerals.{AreDigits, decimal-AreDigits, decimal-length, stoul-decimal}
use foxtrot.Base.Texts.{Text, bytes, up_to}
use foxtrot.Base.Dict.{lookup, insert, lookup-insert_self}
use foxtrot.Base.Action.{◌>>◌, bind_eq, then_eq, give, modify}
use foxtrot.Devices.Archon.{Archon, Member, read_key_value}
use foxtrot.Devices.Archon.Params.{
  before_quote, narrow, converted, value_in, get_numbered, set_numbered, get_param, set_param,
  new_param, write_param, param_value, to_unsigned, successor,
}
use foxtrot.Devices.Archon.Settings.{get_parameters, set_parameters}
use foxtrot.Devices.Archon.Commands.{after_cmd}
use foxtrot.Devices.Archon.Store.{
  Controller, IsKey, is_key-IsKey, setting, setting-IsPrintable, split_at-setting, put, Represents,
  after_write, write_key_value_eq, rconfig,
}
use foxtrot.Devices.Archon.Writes.{after_write-Represents, names-Represents}
use foxtrot.Devices.Archon.Refinement.{read_key_value_eq, read_int_eq}
use foxtrot.Devices.Archon.Sequences.{
  append-IsKey, decimal-IsPrintable, decimal-IsKey, lines_after_le,
}

abbrev pub param_key : ℕ → Text
param_key i = bytes "PARAMETER" ++ decimal (pos i)

param_key-IsKey : (i : ℕ) → IsKey (param_key i)
param_key-IsKey i =
    append-IsKey (bytes "PARAMETER") (decimal (pos i)) (is_key-IsKey (bytes "PARAMETER") refl)
      (decimal-IsKey i)

up_to_digits : (cs : Text) → AreDigits cs → up_to b'"' cs ≡ cs
unfolding up_to
up_to_digits [] h = refl
up_to_digits (c ∷ cs) h =
    let other : (c == b'"') ≡ false = ground (arith, h.0) in rw (other, up_to_digits cs h.1)

param_value_lem :
    (name : Text) (val : ℕ)
    → IsKey name
    → param_value (setting name (decimal (pos val))) ≡ ok (decimal (pos val))
unfolding param_value
param_value_lem name val k =
    ap before_quote (split_at-setting name (decimal (pos val)) k)
    ∙ ap ok (up_to_digits (decimal (pos val)) (decimal-AreDigits val))

to_unsigned-decimal : (val : ℕ) → val < 4294967296 → to_unsigned (decimal (pos val)) ≡ ok val
to_unsigned-decimal val h = ap narrow (stoul-decimal val (omega arith)) ∙ ap ok (omega arith)

module _ {Dev : Type 0} (transact : Text → Dev → Option Text × Dev)
    (controller : Controller transact) where
  abbrev after_param : Text → ℕ → ℕ → Archon Dev → Archon Dev
  after_param name val i s =
      after_write transact controller (param_key i) (setting name (decimal (pos val))) s

  value_in_lem :
      (name : Text) (val : ℕ) (t : Archon Dev)
      → IsKey name
      → val < 4294967296
      → (value_in transact to_unsigned (setting name (decimal (pos val))) t).0 ≡ ok val
  value_in_lem name val t k small =
      ap (λ r. (converted transact to_unsigned r t).0) (param_value_lem name val k)
      ∙ to_unsigned-decimal val small

  get_param_lem :
      (name : Text) (val i : ℕ) (s : Archon Dev) (abs : Text → Option Text)
      → Represents transact controller s abs
      → IsKey name
      → val < 4294967296
      → lookup name s.parammap ≡ some (pos i)
      → abs (param_key i) ≡ some (setting name (decimal (pos val)))
      → (get_param transact name s).0 ≡ ok val
  unfolding get_param
  get_param_lem name val i s abs r k small here has =
      let line = setting name (decimal (pos val)) in
      let (n, read, after) = read_key_value_eq transact controller (param_key i) line s abs r has in
      let t = after_cmd transact (rconfig n) s in
      ap (λ o. (get_numbered transact to_unsigned (bytes "PARAMETER") o s).0) here
      ∙ ap (λ p. p.0)
          (bind_eq (read_key_value transact (param_key i)) (value_in transact to_unsigned) s t line
            read)
      ∙ value_in_lem name val t k small

  write_param_lem :
      (name : Text) (val i : ℕ) (s : Archon Dev) (abs : Text → Option Text)
      → Represents transact controller s abs
      → IsKey name
      → s.config_lines < 2047
      → length (setting (param_key i) (setting name (decimal (pos val)))) < 2047
      → write_param transact name val (pos i) s ≡ (ok tt, after_param name val i s)
  unfolding write_param
  write_param_lem name val i s abs r k room short =
      write_key_value_eq transact controller (param_key i) (setting name (decimal (pos val))) s r
        (param_key-IsKey i)
        (setting-IsPrintable name (decimal (pos val)) k (decimal-IsPrintable val)) room short

  set_param_known :
      (name : Text) (val i : ℕ) (s : Archon Dev) (abs : Text → Option Text)
      → Represents transact controller s abs
      → IsKey name
      → lookup name s.parammap ≡ some (pos i)
      → s.config_lines < 2047
      → length (setting (param_key i) (setting name (decimal (pos val)))) < 2047
      → set_param transact name val s ≡ (ok tt, after_param name val i s)
  unfolding set_param
  set_param_known name val i s abs r k here room short =
      ap (λ o. set_numbered transact name val o s) here
      ∙ write_param_lem name val i s abs r k room short

  abbrev count_key : Text
  count_key = bytes "PARAMETERS"

  -- The state in which a new name has its number, and the count is not written yet.
  abbrev numbered_name : Text → ℕ → ℕ → Archon Dev → Archon Dev
  numbered_name name i n s =
      let t = after_cmd transact (rconfig n) s in
      record t { parammap = insert name (pos i) t.parammap }

  -- What `new_param` does with the count.
  abbrev next_param : Text → ℤ → Member Dev ℤ
  next_param name confnum =
      modify (λ v. record v { parammap = insert name confnum v.parammap })
      >> (set_parameters transact (successor confnum) >> give confnum)

  new_param_lem :
      (name : Text) (i : ℕ) (s : Archon Dev) (abs : Text → Option Text)
      → Represents transact controller s abs
      → abs count_key ≡ some (decimal (pos i))
      → i < 2147483647
      → s.config_lines < 2047
      → (n : ℕ) × (new_param transact name s ≡ (
        ok (pos i),
        after_write transact controller count_key
            (decimal (pos (i + 1)))
            (numbered_name name i n s),
      ))
        × Represents transact controller
            (after_write transact controller count_key
              (decimal (pos (i + 1)))
              (numbered_name name i n s))
            (put count_key (decimal (pos (i + 1))) abs)
  unfolding new_param get_parameters
  new_param_lem name i s abs r has small room =
      let key = is_key-IsKey count_key refl in
      let (n, read, rt) =
        read_key_value_eq transact controller count_key (decimal (pos i)) s abs r has in
      let t = after_cmd transact (rconfig n) s in
      let u = numbered_name name i n s in
      let ru =
        names-Represents transact controller t.state_names (insert name (pos i) t.parammap) t abs
          rt in
      let got : get_parameters transact s ≡ (ok (pos i), t) =
        read_int_eq transact controller count_key (pos i) s t (omega arith) read in
      let written =
        write_key_value_eq transact controller count_key (decimal (pos (i + 1))) u ru key
          (decimal-IsPrintable (i + 1)) room (omega (arith, decimal-length (i + 1))) in
      (
        n,
        bind_eq (get_parameters transact) (next_param name) s t (pos i) got
            ∙ then_eq (modify (λ v. record v { parammap = insert name (pos i) v.parammap }))
                (set_parameters transact (pos (i + 1)) >> give (pos i)) t u refl
            ∙ then_eq (set_parameters transact (pos (i + 1))) (give (pos i)) u
                (after_write transact controller count_key (decimal (pos (i + 1))) u) written,
        after_write-Represents transact controller count_key (decimal (pos (i + 1))) u abs ru key
            (decimal-IsPrintable (i + 1)) room,
      )

  -- The number that a parameter has, or takes if it is new.
  abbrev pub HasNumber : Text → ℕ → Archon Dev → (Text → Option Text) → Type 0
  HasNumber name i s abs =
      (lookup name s.parammap ≡ some (pos i))
      ⊎ ((lookup name s.parammap ≡ none)
          × (abs count_key ≡ some (decimal (pos i)))
          × (i < 2147483647))

  read_after :
      (name : Text) (val i : ℕ) (t : Archon Dev) (abs : Text → Option Text)
      → Represents transact controller t abs
      → IsKey name
      → val < 4294967296
      → lookup name t.parammap ≡ some (pos i)
      → t.config_lines < 2047
      → (get_param transact name (after_param name val i t)).0 ≡ ok val
  read_after name val i t abs r k small here room =
      let line = setting name (decimal (pos val)) in
      get_param_lem name val i (after_param name val i t) (put (param_key i) line abs)
        (after_write-Represents transact controller (param_key i) line t abs r (param_key-IsKey i)
          (setting-IsPrintable name (decimal (pos val)) k (decimal-IsPrintable val)) room)
        k small here
        (ap (λ b. if b then some line else abs (param_key i)) (same_refl (param_key i)))

  -- A parameter that is set, whether it is new or not, is read back as the value that was set, if it is of 32
  -- bits, its name is printable without a sign of equality, and its line and a line for the count fit. It
  -- keeps the number that it has, or takes the count.
  pub get_param-set_param :
      (name : Text) (val i : ℕ) (s : Archon Dev) (abs : Text → Option Text)
      → Represents transact controller s abs
      → IsKey name
      → val < 4294967296
      → HasNumber name i s abs
      → s.config_lines + 1 < 2047
      → length (setting (param_key i) (setting name (decimal (pos val)))) < 2047
      → let done = set_param transact name val s in
        (done.0 ≡ ok tt)
        × ((get_param transact name done.1).0 ≡ ok val)
        × (lookup name done.1.parammap ≡ some (pos i))
  get_param-set_param name val i s abs r k small (inl here) room short =
      rw (set_param_known name val i s abs r k here (omega arith) short)
        (refl, read_after name val i s abs r k small here (omega arith), here)
  get_param-set_param name val i s abs r k small (inr (new, has, few)) room short =
      let (n, run, rv) = new_param_lem name i s abs r has few (omega arith) in
      let u = numbered_name name i n s in
      let v = after_write transact controller count_key (decimal (pos (i + 1))) u in
      let lt : v.config_lines < 2047 =
        omega (arith, lines_after_le transact controller count_key (decimal (pos (i + 1))) u) in
      let here = lookup-insert_self name (pos i) s.parammap in
      let abs' = put count_key (decimal (pos (i + 1))) abs in
      let set : set_param transact name val s ≡ (ok tt, after_param name val i v) =
        unfold set_param in
        ap (λ o. set_numbered transact name val o s) new
        ∙ bind_eq (new_param transact name) (write_param transact name val) s v (pos i) run
        ∙ write_param_lem name val i v abs' rv k lt short in
      rw set (refl, read_after name val i v abs' rv k small here lt, here)
