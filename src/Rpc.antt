-- ===== src/Rpc.antt =====
-- Exceptions on their way from a handler of the server to the client: `foxtrot_rpc_error_handling`
-- of server/include/foxtrot/server/ServerUtil.h and `check_repl_err` of
-- client/include/foxtrot/client/client.h.
mod Tests
use foxtrot.Base.{
  ◌≡◌, refl, ◌↔◌, Bool, true, false, String, Option, none, some, Result, ok, err, arith,
}

-- The classes of exceptions that the code throws or tells apart, with what `what()` returns.
-- `other_exception` is any other `std::exception`, `foreign` what is thrown and is none.
pub data Exception : Type 0 where
  error device_error protocol_error contention_error server_error : String → Exception
  out_of_range runtime_error logic_error other_exception : String → Exception
  foreign : Exception

-- `error_types` of the protocol.
pub data ErrorType : Type 0 where
  ft_error ft_device_error ft_protocol_error range_error unknown_error : ErrorType
  contention_timeout ft_server_error ft_auth_error : ErrorType

pub record ErrStatus : Type 0 where
  pub tp : ErrorType
  pub msg : String

-- `foxtrot_rpc_error_handling`: the status that the reply gets.
unfoldable pub rpc_error_handling : Exception → ErrStatus
rpc_error_handling (device_error what) = record { tp = ft_device_error; msg = what }
rpc_error_handling (protocol_error what) = record { tp = ft_protocol_error; msg = what }
rpc_error_handling (contention_error what) = record { tp = contention_timeout; msg = what }
rpc_error_handling (server_error what) = record { tp = ft_server_error; msg = what }
rpc_error_handling (out_of_range what) = record { tp = range_error; msg = what }
rpc_error_handling (error what) = record { tp = ft_error; msg = what }
rpc_error_handling (runtime_error what) = record { tp = ft_error; msg = what }
rpc_error_handling (logic_error what) = record { tp = ft_error; msg = what }
rpc_error_handling (other_exception what) = record { tp = ft_error; msg = what }
rpc_error_handling foreign = record { tp = unknown_error; msg = "unknown error" }

-- The exception that the client makes of a status.
rebuilt : ErrorType → String → Exception
rebuilt ft_error msg = error msg
rebuilt ft_device_error msg = device_error msg
rebuilt ft_protocol_error msg = protocol_error msg
rebuilt range_error msg = out_of_range msg
rebuilt _ msg = runtime_error msg

unfoldable pub check_repl_err : Option ErrStatus → Result Exception (Unit {0})
unfolding rebuilt
check_repl_err none = ok tt
check_repl_err (some status) = err (rebuilt status.tp status.msg)

-- The classes that the client gets back as they were.
abbrev pub survives : Exception → Bool
survives (error _) = true
survives (device_error _) = true
survives (protocol_error _) = true
survives (out_of_range _) = true
survives _ = false

-- An exception of the server reaches the client as the same class with the same message exactly if
-- it is an `Error`, a `DeviceError`, a `ProtocolError` or an `out_of_range`.
pub check_repl_err_iff :
    (e : Exception) → (check_repl_err (some (rpc_error_handling e)) ≡ err e) ↔ (survives e ≡ true)
unfolding check_repl_err rpc_error_handling
check_repl_err_iff (error what) = (λ h. refl, λ h. refl)
check_repl_err_iff (device_error what) = (λ h. refl, λ h. refl)
check_repl_err_iff (protocol_error what) = (λ h. refl, λ h. refl)
check_repl_err_iff (out_of_range what) = (λ h. refl, λ h. refl)
check_repl_err_iff e = (λ h. ground arith, λ h. ground arith)
