-- ===== src/Devices/Archon/Responses.antt =====
-- What the status commands report, printed and parsed.
use foxtrot.Base.{◌≡◌, false, List, [], ◌∷◌, ◌++◌, ◌==◌, All, bytes_eq}
use foxtrot.Base.Texts.{Text}
use foxtrot.Base.Dict.{Dict, insert}
use foxtrot.Devices.Archon.Store.{IsKey, setting}

-- Text without blanks.
abbrev pub HasNoBlank : Text → Type 0
HasNoBlank = All (λ c. (c == 32) ≡ false)

abbrev pub IsItem : Text × Text → Type 0
IsItem (key, val) = IsKey key × HasNoBlank key × HasNoBlank val

-- Items `key=value`, with a blank after each.
abbrev pub status_text : List (Text × Text) → Text
status_text [] = []
status_text ((key, val) ∷ kvs) = setting key val ++ (32 ∷ status_text kvs)

abbrev pub insert_items : List (Text × Text) → Dict Text Text → Dict Text Text
insert_items [] out = out
insert_items ((key, val) ∷ kvs) out = insert_items kvs (insert key val out)
