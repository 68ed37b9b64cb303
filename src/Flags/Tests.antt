-- ===== src/Flags/Tests.antt =====
-- Flags of a small map, with numbers in the place of doubles.
use foxtrot.Base.{ℕ, ◌≡◌, true, [], ◌∷◌, ok, text_eq, if◌then◌else◌}
use foxtrot.Flags.{FlagMap, boolval, intval, get_server_flag, set_server_flag}
use foxtrot.Flags.Calls.{get-set_server_flag}

abbrev flags : FlagMap ℕ
flags = ("autofill", boolval true) ∷ ("devid", intval 4) ∷ []

get-set_server_flag_example :
    let (r, vars') = set_server_flag 1 flags "devid" (intval 5) in
    (r ≡ ok tt)
    × (get_server_flag 0 2 vars' "devid" ≡ (
        if text_eq.same "devid" "devid" then ok (intval 5) else get_server_flag 0 2 flags "devid"))
get-set_server_flag_example = get-set_server_flag 0 flags "devid" (intval 5) "devid" 1 2
