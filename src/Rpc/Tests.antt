-- ===== src/Rpc/Tests.antt =====
-- The way of exceptions at concrete exceptions.
use foxtrot.Base.{◌≡◌, ◌↔◌, true, some, err}
use foxtrot.Rpc.{device_error, rpc_error_handling, check_repl_err, survives, check_repl_err_iff}

check_repl_err_iff_example :
    (check_repl_err (some (rpc_error_handling (device_error "no answer")))
      ≡ err (device_error "no answer"))
    ↔ (survives (device_error "no answer") ≡ true)
check_repl_err_iff_example = check_repl_err_iff (device_error "no answer")
