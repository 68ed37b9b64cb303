-- ===== src/Flags/Calls.antt =====
-- What a client's call does to the flags, through the messages and back.
use foxtrot.Base.{ℕ, ◌≡◌, refl, String, none, some, ok, err, text_eq, arith, if◌then◌else◌}
use foxtrot.Base.Dict.{lookup, lookup-insert, lookup-erase}
use foxtrot.Rpc.{out_of_range, check_repl_err, rpc_error_handling}
use foxtrot.Flags.{Variant, FlagMap, get_server_flag, set_server_flag, drop_server_flag}

module _ {D : Type 0} (zero_double : D) (vars : FlagMap D) (name : String) where
  -- Reading a flag over the wire gives its value, or throws the `out_of_range` that the server
  -- threw.
  pub get_server_flag_lem :
      (id : ℕ)
      → get_server_flag zero_double id vars name ≡ (elim (lookup name vars) [
        | none ↦ err (out_of_range "invalid server flag")
        | some val ↦ ok val
      ])
  unfolding get_server_flag check_repl_err rpc_error_handling
  get_server_flag_lem id = ground arith

  -- Writing a flag succeeds, and is read back as it was written; every other flag reads as before.
  pub get-set_server_flag :
      (val : Variant D) (other : String) (id next : ℕ)
      → let (r, vars') = set_server_flag id vars name val in
        (r ≡ ok tt)
        × (get_server_flag zero_double next vars' other ≡ (
            if text_eq.same name other
            then ok val
            else get_server_flag zero_double next vars other))
  unfolding set_server_flag get_server_flag check_repl_err rpc_error_handling
  get-set_server_flag val other id next = (refl, ground (arith, lookup-insert name other val vars))

  -- Dropping a flag that is there succeeds, and afterwards reading it throws `out_of_range`, while
  -- every other flag reads as before.
  pub drop_server_flag_known :
      (val : Variant D) (other : String) (id next : ℕ)
      → lookup name vars ≡ some val
      → let (r, vars') = drop_server_flag id vars name in
        (r ≡ ok tt)
        × (get_server_flag zero_double next vars' other ≡ (
            if text_eq.same name other
            then err (out_of_range "invalid server flag")
            else get_server_flag zero_double next vars other))
  unfolding drop_server_flag get_server_flag check_repl_err rpc_error_handling
  drop_server_flag_known val other id next e =
      (ground arith, ground (arith, lookup-erase name other vars))

  -- Dropping a flag that is not there throws `out_of_range` and changes nothing.
  pub drop_server_flag_missing :
      (id : ℕ)
      → lookup name vars ≡ none
      → drop_server_flag id vars name ≡ (err (out_of_range "no such flag"), vars)
  unfolding drop_server_flag check_repl_err rpc_error_handling
  drop_server_flag_missing id e = ground arith
