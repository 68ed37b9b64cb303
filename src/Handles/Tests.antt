-- ===== src/Handles/Tests.antt =====
-- An object is added, found and popped; variants are numbers here.
use foxtrot.Base.{ℕ, ◌+◌, ◌*◌, ◌≡◌, [], ◌∷◌, ok, err, ◌==◌, if◌then◌else◌}
use foxtrot.Rpc.{out_of_range}
use foxtrot.Handles.{Handles, find, pop, add, pop-add}

abbrev pair : ℕ → ℕ → ℕ
pair handle var = handle * 1000 + var

abbrev kept : Handles ℕ
kept = (5, 50) ∷ []

pop-add_example :
    let (handle, added) = add pair kept 42 7 in
    let (popped, left) = pop pair added handle in
    (find pair added handle ≡ ok 42)
    × (popped ≡ ok (pair handle 42))
    × (find pair left 5
        ≡ (if handle == 5 then err (out_of_range "_Map_base::at") else find pair kept 5))
pop-add_example = pop-add pair kept 42 7 5
