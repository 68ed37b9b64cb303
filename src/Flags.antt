-- ===== src/Flags.antt =====
-- The server's flags: server/src/FlagMap.cpp, the handlers of server/src/ServerFlagsImpl.cpp and the
-- client's side of the same calls in client/src/client.cpp. `D` is the type of doubles, of which
-- nothing is used but the value `zero` that a fresh variant holds. The protocol's messages are
-- records; the transport is reliable or fails as a whole.
pub mod Calls
mod Tests
use foxtrot.Base.{
  ℕ, ◌+◌, ◌%◌, Bool, String, Option, none, some, List, [], ◌∷◌, map, Result, ok, err, ◌>>=◌, ◌>>◌,
  text_eq,
}
use foxtrot.Base.Dict.{Dict, lookup, insert, erase}
use foxtrot.Rpc.{
  Exception, out_of_range, logic_error, runtime_error, ErrStatus, rpc_error_handling,
  check_repl_err,
}

-- An `int` is carried as it is: its numeral is the 32-bit pattern.
pub data Variant (D : Type 0) : Type 0 where
  dblval : D → Variant D
  intval : ℕ → Variant D
  boolval : Bool → Variant D
  stringval : String → Variant D

abbrev pub FlagMap : Type 0 → Type 0
FlagMap D = Dict String (Variant D)

module _ {D : Type 0} where
  unfoldable pub set : FlagMap D → String → Variant D → FlagMap D
  set vars flagname val = insert flagname val vars

  unfoldable pub drop : FlagMap D → String → Result Exception (FlagMap D)
  drop vars flagname = elim (lookup flagname vars) [
    | none ↦ err (out_of_range "no such flag")
    | some _ ↦ ok (erase flagname vars)
  ]

  unfoldable pub get : FlagMap D → String → Result Exception (Variant D)
  get vars flagname = elim (lookup flagname vars) [
    | none ↦ err (out_of_range "invalid server flag")
    | some val ↦ ok val
  ]

-- The message `serverflag`; an argument that is not set is `none`.
pub record ServerFlag (D : Type 0) : Type 0 where
  pub status : Option ErrStatus
  pub msgid : ℕ
  pub flagname : String
  pub arg : Option (Variant D)

module _ {D : Type 0} where
  abbrev empty_flag : ServerFlag D
  empty_flag = record { status = none; msgid = 0; flagname = ""; arg = none }

  -- A reply with the error in it.
  abbrev refused : ServerFlag D → Exception → ServerFlag D
  refused repl e = record repl { status = some (rpc_error_handling e) }

  -- `SetServerFlagsLogic::HandleRequest`
  unfoldable pub handle_set : FlagMap D → ServerFlag D → FlagMap D × ServerFlag D
  unfolding set
  handle_set vars req =
      let repl : ServerFlag D = record empty_flag { msgid = req.msgid } in
      elim req.arg [
        | none ↦ (vars, refused repl (logic_error "invalid flag value type!"))
        | some var ↦ (set vars req.flagname var, repl)
      ]

  -- `GetServerFlagsLogic::HandleRequest`
  unfoldable pub handle_get : FlagMap D → ServerFlag D → ServerFlag D
  unfolding get
  handle_get vars req =
      let repl : ServerFlag D = record empty_flag { msgid = req.msgid } in
      elim (get vars req.flagname) [
        | err e ↦ refused repl e
        | ok val ↦ record repl { flagname = req.flagname; arg = some val }
      ]

  -- `ListServerFlagsLogic::HandleRequest`
  abbrev listed : String × Variant D → ServerFlag D
  listed (name, val) = record { status = none; msgid = 0; flagname = name; arg = some val }

  unfoldable pub handle_list : FlagMap D → List (ServerFlag D)
  handle_list vars = map listed vars

  -- `DropServerFlagLogic::HandleRequest`
  unfoldable pub handle_drop : FlagMap D → ServerFlag D → FlagMap D × ServerFlag D
  unfolding drop
  handle_drop vars req =
      let repl : ServerFlag D = record empty_flag { msgid = req.msgid } in
      elim (drop vars req.flagname) [
        | err e ↦ (vars, refused repl e)
        | ok vars' ↦ (vars', record repl { flagname = req.flagname })
      ]

  -- The request that the client sends under the number `id`; `var` is what a visitor puts in.
  abbrev pub request : ℕ → String → Option (Variant D) → ServerFlag D
  request id name var = record { status = none; msgid = id; flagname = name; arg = var }

  -- `ft_variant_from_response(serverflag)`
  unfoldable pub variant_from_response : D → ServerFlag D → Result Exception (Variant D)
  variant_from_response zero repl =
      check_repl_err repl.status >> ok (elim repl.arg [ none ↦ dblval zero | some var ↦ var ])

  -- What the client makes of a reply, `none` if the status of the call is not OK.
  unfoldable pub received_value : D → Option (ServerFlag D) → Result Exception (Variant D)
  unfolding variant_from_response
  received_value zero none = err (runtime_error "GRPC Error")
  received_value zero (some repl) = check_repl_err repl.status >> variant_from_response zero repl

  unfoldable pub received : Option (ServerFlag D) → Result Exception (Unit {0})
  received none = err (runtime_error "GRPC Error")
  received (some repl) = check_repl_err repl.status

  -- `Client::get_server_flag`, `set_server_flag` and `drop_server_flag` against the server's flags,
  -- over a transport that delivers.
  unfoldable pub get_server_flag : D → ℕ → FlagMap D → String → Result Exception (Variant D)
  unfolding handle_get received_value
  get_server_flag zero id vars name =
      received_value zero (some (handle_get vars (request id name none)))

  unfoldable pub set_server_flag :
      ℕ → FlagMap D → String → Variant D → Result Exception (Unit {0}) × FlagMap D
  unfolding handle_set received
  set_server_flag id vars name val =
      let (vars', repl) = handle_set vars (request id name (some val)) in
      (received (some repl), vars')

  unfoldable pub drop_server_flag : ℕ → FlagMap D → String → Result Exception (Unit {0}) × FlagMap D
  unfolding handle_drop received
  drop_server_flag id vars name =
      let (vars', repl) = handle_drop vars (request id name none) in (received (some repl), vars')
