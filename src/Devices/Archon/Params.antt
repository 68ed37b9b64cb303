-- ===== src/Devices/Archon/Params.antt =====
-- Parameters, constants, timing scripts, states and taps of the controller: devices/archon/archon.cpp.
use foxtrot.Base.{
  ℕ, zero, suc, ◌+◌, ◌%◌, Bool, false, Option, none, some, List, [], ◌∷◌, ◌++◌, Result, ok, err,
  ltb, ◌==◌, if◌then◌else◌, length, bytes_eq, number_eq,
}
use foxtrot.Base.Int.{ℤ, pos, negsuc}
use foxtrot.Base.Decimal.{decimal, StoiError}
use foxtrot.Base.Texts.{Text, bytes, getlines, split_at, up_to, stoul}
use foxtrot.Base.Dict.{lookup, insert}
use foxtrot.Base.Action.{◌>>=◌, ◌>>◌, give, throw, modify, when}
use foxtrot.Devices.Archon.{
  Archon, Error, device_error, runtime_error, out_of_range, undefined, from_stoi, Member, lift,
  order_cmd, read_key_value, write_key_value,
}
use foxtrot.Devices.Archon.Settings.{
  get_parameters, set_parameters, get_constants, set_constants, set_states, set_timing_lines,
}

abbrev pub successor : ℤ → ℤ
successor (pos n) = pos (n + 1)
successor (negsuc zero) = pos 0
successor (negsuc (suc n)) = negsuc n

abbrev pub before_quote : Option (Text × Text) → Result Error Text
before_quote none = err undefined
before_quote (some (_, val)) = ok (up_to b'"' val)

-- The value in `name=value`, or `"name=value"`.
unfoldable pub param_value : Text → Result Error Text
unfolding split_at up_to
param_value paramline = before_quote (split_at b'=' paramline)

-- What is left of an `unsigned long`.
abbrev pub narrow : Result StoiError ℕ → Result Error ℕ
narrow (err e) = err (from_stoi e)
narrow (ok n) = ok (n % 4294967296)

-- `std::stoul` into an `unsigned`.
abbrev pub to_unsigned : Text → Result Error ℕ
to_unsigned text = narrow (stoul 10 text)

abbrev pub position_of : Text → List Text → ℕ
position_of name [] = 0
position_of name (n ∷ ns) =
    let rest = position_of name ns in if bytes_eq.same n name then 0 else rest + 1

module _ {Dev : Type 0} (transact : Text → Dev → Option Text × Dev) where
  -- The conversion of the value is an argument, for parameters and constants.
  abbrev pub converted : {A : Type 0} → (Text → Result Error A) → Result Error Text → Member Dev A
  converted convert (err e) = throw e
  converted convert (ok val) = lift (convert val)

  abbrev pub value_in : {A : Type 0} → (Text → Result Error A) → Text → Member Dev A
  value_in convert paramline = converted convert (param_value paramline)

  unfoldable pub get_numbered :
      {A : Type 0} → (Text → Result Error A) → Text → Option ℤ → Member Dev A
  unfolding read_key_value param_value ◌>>=◌
  get_numbered convert prefix none = throw device_error
  get_numbered convert prefix (some confnum) =
      read_key_value transact (prefix ++ decimal confnum) >>= value_in convert

  unfoldable pub get_param : Text → Member Dev ℕ
  unfolding get_numbered
  get_param name s = get_numbered to_unsigned (bytes "PARAMETER") (lookup name s.parammap) s

  -- A name that is not known yet takes the next number.
  unfoldable pub new_param : Text → Member Dev ℤ
  unfolding get_parameters set_parameters ◌>>=◌ ◌>>◌
  new_param name = do
    confnum ← get_parameters transact
    modify (λ s. record s { parammap = insert name confnum s.parammap })
    set_parameters transact (successor confnum)
    give confnum

  unfoldable pub write_param : Text → ℕ → ℤ → Member Dev (Unit {0})
  unfolding write_key_value
  write_param name val confnum =
      write_key_value transact (bytes "PARAMETER" ++ decimal confnum)
        (name ++ b'=' ∷ decimal (pos val))

  unfoldable pub set_numbered : Text → ℕ → Option ℤ → Member Dev (Unit {0})
  unfolding new_param write_param ◌>>=◌
  set_numbered name val (some confnum) = write_param name val confnum
  set_numbered name val none = new_param name >>= write_param name val

  unfoldable pub set_param : Text → ℕ → Member Dev (Unit {0})
  unfolding set_numbered
  set_param name val s = set_numbered name val (lookup name s.parammap) s

  module _ {R : Type 0} (print : R → Text) (stod : Text → Result Error R) where
    unfoldable pub get_constant : Text → Member Dev R
    unfolding get_numbered
    get_constant name s = get_numbered stod (bytes "CONSTANT") (lookup name s.constantmap) s

    unfoldable pub new_constant : Text → Member Dev ℤ
    unfolding get_constants set_constants ◌>>=◌ ◌>>◌
    new_constant name = do
      confnum ← get_constants transact
      modify (λ s. record s { constantmap = insert name confnum s.constantmap })
      set_constants transact (successor confnum)
      give confnum

    unfoldable pub write_constant : Text → R → ℤ → Member Dev (Unit {0})
    unfolding write_key_value
    write_constant name val confnum =
        write_key_value transact (bytes "CONSTANT" ++ decimal confnum) (name ++ b'=' ∷ print val)

    unfoldable pub set_constant : Text → R → Member Dev (Unit {0})
    unfolding new_constant write_constant ◌>>=◌
    set_constant name val s = elim (lookup name s.constantmap) [
      | some confnum ↦ write_constant name val confnum s
      | none ↦ (new_constant name >>= write_constant name val) s
    ]

  unfoldable pub apply_param : Text → Member Dev (Unit {0})
  unfolding order_cmd
  apply_param name = order_cmd transact (bytes "LOADPARAM " ++ name)

  -- Each line as LINE0, LINE1 and so on, from a number on.
  unfoldable pub load_lines : ℕ → List Text → Member Dev ℕ
  unfolding write_key_value ◌>>=◌ ◌>>◌
  load_lines i [] = give i
  load_lines i (to ∷ more) =
      write_key_value transact (bytes "LINE" ++ decimal (pos i)) to >> load_lines (i + 1) more

  unfoldable pub load_timing_script : Text → Member Dev (Unit {0})
  unfolding load_lines set_timing_lines ◌>>=◌
  load_timing_script script =
      load_lines 0 (getlines 10 script) >>= (λ i. set_timing_lines transact (pos i))

  -- A line of a state, split at its sign, and what is written after it.
  unfoldable pub write_part :
      Option (Text × Text) → ℕ → Member Dev (Unit {0}) → Member Dev (Unit {0})
  unfolding write_key_value ◌>>◌
  write_part none state_idx more = throw runtime_error
  write_part (some (configkey, val)) state_idx more =
      write_key_value transact (bytes "STATE" ++ (decimal (pos state_idx) ++ b'/' ∷ configkey)) val
      >> more

  unfoldable pub write_state_lines : ℕ → List Text → Member Dev (Unit {0})
  unfolding write_part
  write_state_lines state_idx [] = give tt
  write_state_lines state_idx (to ∷ more) =
      write_part (split_at b'=' to) state_idx (write_state_lines state_idx more)

  unfoldable pub add_state : Text → Member Dev (Unit {0})
  unfolding set_states ◌>>◌
  add_state name s =
      (set_states transact (pos (length s.state_names))
          >> modify (λ t. record t { state_names = t.state_names ++ name ∷ [] }))
        s

  unfoldable pub write_timing_state : Text → Text → Member Dev (Unit {0})
  unfolding write_state_lines add_state ◌>>◌
  write_timing_state name state s =
      let state_idx = position_of name s.state_names in
      (write_state_lines state_idx (getlines 10 state)
          >> when (state_idx == length s.state_names) (add_state name))
        s

  abbrev above : ℤ → ℕ → Bool
  above (pos n) m = ltb m n
  above (negsuc n) m = false

  abbrev is_number : ℤ → ℕ → Bool
  is_number (pos n) m = n == m
  is_number (negsuc n) m = false

  unfoldable pub settapline : ℤ → Text → Member Dev (Unit {0})
  unfolding write_key_value ◌>>◌
  settapline n tapline s =
      if above n s.taplines
      then (err device_error, s)
      else (write_key_value transact (bytes "TAPLINE" ++ decimal n) tapline
            >> when (is_number n s.taplines) (
                modify (λ t. record t { taplines = t.taplines + 1 })
                >> write_key_value transact (bytes "TAPLINES") (decimal (pos (s.taplines + 1)))))
          s

  -- The handler of `settap`: an unknown channel takes the next line. Channels and lines are kept as
  -- `unsigned char`.
  unfoldable pub new_tap : ℕ → Text → Member Dev (Unit {0})
  unfolding settapline
  new_tap ad tap s =
      settapline (pos s.taplines) tap
        (record s { ad_tap_line_map = insert ad (s.taplines % 256) s.ad_tap_line_map })

  -- `catch(std::out_of_range&)`
  abbrev catch_out_of_range : Member Dev (Unit {0}) → Member Dev (Unit {0}) → Member Dev (Unit {0})
  catch_out_of_range act handler s =
      let (r, t) = act s in
      elim r [ err out_of_range ↦ handler t | ok a ↦ (ok a, t) | err e ↦ (err e, t) ]

  -- The gain is printed by an argument.
  unfoldable pub settap : {R : Type 0} → (R → Text) → ℕ → Bool → R → ℕ → Member Dev (Unit {0})
  unfolding new_tap
  settap print ad lr gain offset s =
      let tap =
        bytes "AD"
        ++ (decimal (pos ad)
            ++ ((if lr then b'R' else b'L')
                ∷ b','
                ∷ (print gain ++ b',' ∷ decimal (pos offset)))) in
      elim (lookup ad s.ad_tap_line_map) [
        | none ↦ new_tap ad tap s
        | some tline ↦ catch_out_of_range (settapline (pos tline) tap) (new_tap ad tap) s
      ]

  abbrev pub forget : Archon Dev → Archon Dev
  forget s = record s {
    config_lines = 0;
    config_line_map = [];
    state_names = [];
    parammap = [];
    constantmap = [];
    ad_tap_line_map = [];
    taplines = 0;
  }

  unfoldable pub write_counts : Member Dev (Unit {0})
  unfolding set_timing_lines set_states set_parameters set_constants write_key_value ◌>>◌
  write_counts = do
    set_timing_lines transact (pos 0)
    set_states transact (pos 0)
    set_parameters transact (pos 0)
    set_constants transact (pos 0)
    write_key_value transact (bytes "TAPLINES") (bytes "0")

  unfoldable pub clear_config : Member Dev (Unit {0})
  unfolding order_cmd write_counts ◌>>◌
  clear_config = do order_cmd transact (bytes "CLEARCONFIG"); modify forget; write_counts
