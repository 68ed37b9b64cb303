-- ===== src/Devices/Rly8/Tests.antt =====
-- The relay board at address 1, which answers every request alike.
use foxtrot.Base.{ℕ, ◌≡◌, refl, List, [], ◌∷◌, arith, Result, ok, err, ◌>>=◌}
use foxtrot.Devices.Rly8.{Error, query_relay_state, set_relay, assemble_cmd, extract_response}
use foxtrot.Devices.Rly8.Frames.{extract_response-assemble_cmd}

abbrev bytes_of : Result Error (List ℕ) → List ℕ
bytes_of (ok cs) = cs
bytes_of (err _) = []

extract_response-assemble_cmd_example :
    (assemble_cmd 1 set_relay (3 ∷ 1 ∷ []) >>= extract_response 1) ≡ ok (3 ∷ 1 ∷ [])
extract_response-assemble_cmd_example =
    extract_response-assemble_cmd 1 set_relay (3 ∷ 1 ∷ []) (omega arith)

abbrev set_request : List ℕ
set_request = 85 ∷ 170 ∷ 1 ∷ 2 ∷ 0 ∷ 3 ∷ 1 ∷ 6 ∷ []

set_request_lem : assemble_cmd 1 set_relay (3 ∷ 1 ∷ []) ≡ ok set_request
unfolding assemble_cmd
set_request_lem = refl

abbrev status_answer : List ℕ
status_answer = 85 ∷ 170 ∷ 1 ∷ 1 ∷ 0 ∷ 0 ∷ 1 ∷ []

status_answer_lem : assemble_cmd 1 set_relay (0 ∷ []) ≡ ok status_answer
unfolding assemble_cmd
status_answer_lem = refl

abbrev state_request : List ℕ
state_request = 85 ∷ 170 ∷ 1 ∷ 0 ∷ 1 ∷ 1 ∷ []

state_request_lem : assemble_cmd 1 query_relay_state [] ≡ ok state_request
unfolding assemble_cmd
state_request_lem = refl

abbrev state_answer : List ℕ
state_answer = 85 ∷ 170 ∷ 1 ∷ 1 ∷ 1 ∷ 5 ∷ 7 ∷ []

state_answer_lem : assemble_cmd 1 query_relay_state (5 ∷ []) ≡ ok state_answer
unfolding assemble_cmd
state_answer_lem = refl
