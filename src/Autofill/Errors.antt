-- ===== src/Autofill/Errors.antt =====
-- What becomes of the errors of fills and of notifications.
use foxtrot.Base.{
  ℕ, ◌≡◌, arith, Bool, true, false, String, Option, none, some, [], ◌∷◌, ok, err, text_eq, ◌↔◌,
}
use foxtrot.Rpc.{
  Exception, server_error, runtime_error, other_exception, check_repl_err, rpc_error_handling,
}
use foxtrot.Base.Action.{◌>>◌}
use foxtrot.Autofill.{
  Autofill, AutofillConfig, no_fill, finished, broadcast_notify, collect_fill, execute_fill,
}

-- A dry run switches nothing and throws nothing. Else the relay is switched on, and then off unless
-- switching it on threw; the fill throws nothing exactly if neither of the two calls does.
pub execute_fill_lem :
    (invoke : Bool → Option Exception)
    → (execute_fill invoke true ≡ ([], none))
      × (((execute_fill invoke false).1 ≡ none) ↔ ((invoke true ≡ none) × (invoke false ≡ none)))
      × (((execute_fill invoke false).0 ≡ true ∷ false ∷ []) ↔ (invoke true ≡ none))
unfolding execute_fill
execute_fill_lem invoke = ground arith

module _ {D : Type 0} (zero : D) (lt : D → D → Bool) (id : ℕ) (cfg : AutofillConfig D)
    (broadcast : String → String → Option Exception) (now : String) where
  -- If the server's handler of a notification throws a `ServerError`, then the client's call throws
  -- what it makes of it, which `broadcast_notify` does not catch, although it has a handler for
  -- `ServerError`.
  pub broadcast_notify_server_error :
      (title body what : String) (e : Exception) (s : Autofill D)
      → cfg.pb_enable ≡ true
      → check_repl_err (some (rpc_error_handling (server_error what))) ≡ err e
      → broadcast title body ≡ some e
      → broadcast_notify zero lt id cfg broadcast now title body s ≡ (err (runtime_error what), s)
  unfolding broadcast_notify check_repl_err rpc_error_handling
  broadcast_notify_server_error title body what e s hp hc hb = ground arith

  -- A fill that failed with an exception makes the end of a tick throw, if the notification passes,
  -- the error of a future without a state, the same for every exception of the fill.
  pub collect_fill_failed :
      (e : Exception) (s : Autofill D)
      → s.running_fill ≡ finished (some e)
      → (broadcast_notify zero lt id cfg broadcast now "tank" "there was an error filling the tank"
          s).0
        ≡ ok tt
      → collect_fill zero lt id cfg broadcast now s ≡ (
        err (other_exception "std::future_error: No associated state"),
        record s { running_fill = no_fill },
      )
  unfolding collect_fill broadcast_notify ◌>>◌
  collect_fill_failed e s hf hb = ground arith
