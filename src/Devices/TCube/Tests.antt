-- ===== src/Devices/TCube/Tests.antt =====
-- A thread wakes five milliseconds late.
use foxtrot.Base.{ℕ, ◌+◌, ◌≤◌, ◌≡◌, arith, List, [], ◌∷◌, ◌++◌, none}
use foxtrot.Devices.TCube.{eol, terminated, response}
use foxtrot.Devices.TCube.Lines.{up_to_eol, IsPlain, terminated-response}
use foxtrot.Devices.TCube.Spacing.{IsSpaced, Request, requests, requests-IsSpaced}

abbrev late : ℕ → ℕ → ℕ
late now until = until + 5

late_lem : (now until : ℕ) → until ≤ late now until
late_lem now until = omega arith

-- "RUN", at once and after 100 ms, with an empty request between.
abbrev three : List Request
three =
    record { idle = 10; line = 82 ∷ 85 ∷ 78 ∷ [] }
    ∷ record { idle = 0; line = [] }
    ∷ record { idle = 100; line = 82 ∷ 85 ∷ 78 ∷ [] }
    ∷ []

terminated-response_example :
    (terminated (82 ∷ 13 ∷ 85 ∷ []) ≡ up_to_eol (82 ∷ 13 ∷ 85 ∷ []) ++ (eol ∷ []))
    × (response (73 ∷ 68 ∷ 13 ∷ []) ≡ up_to_eol (73 ∷ 68 ∷ 13 ∷ []))
    × (response (terminated (82 ∷ 13 ∷ 85 ∷ [])) ≡ up_to_eol (82 ∷ 13 ∷ 85 ∷ []))
    × IsPlain (up_to_eol (82 ∷ 13 ∷ 85 ∷ []))
terminated-response_example = terminated-response (82 ∷ 13 ∷ 85 ∷ []) (73 ∷ 68 ∷ 13 ∷ [])

requests-IsSpaced_example :
    IsSpaced
      (requests late late_lem three
        (record { now = 1000; last_command_sent = none; written = [] })).written
requests-IsSpaced_example = requests-IsSpaced late late_lem three 1000
