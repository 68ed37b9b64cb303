-- ===== src/Devices/Archon/Frame.antt =====
-- What the controller reports of its state: devices/archon/archon.cpp. What the modules make of a new
-- status is an argument, and so is the clock.
use foxtrot.Base.{
  ℕ, zero, suc, ◌+◌, Bool, true, false, Option, none, some, List, [], ◌∷◌, ◌++◌, Result, ok, err,
  ltb, leb, ◌==◌, if◌then◌else◌, length, bytes_eq, ◌||◌, ◌&&◌,
}
use foxtrot.Base.Int.{ℤ, pos, negsuc}
use foxtrot.Base.Decimal.{decimal, stoi}
use foxtrot.Base.Texts.{Text, bytes, getlines, split_at, stoul}
use foxtrot.Base.Dict.{Dict, lookup, insert}
use foxtrot.Base.Action.{◌>>=◌, ◌>>◌, give, throw, modify}
use foxtrot.Devices.Archon.{
  Error, protocol_error, device_error, logic_error, out_of_range, undefined, from_stoi, whole,
  Member, printable, cmd, order_cmd, read_config_line, write_key_value,
}
use foxtrot.Devices.Archon.Settings.{int_bool}

-- `key` loses what is not printable. The `erase` of the value is given an empty range of the key and
-- does nothing.
abbrev pub parse_item : Option (Text × Text) → Dict Text Text → Dict Text Text
parse_item none out = out
parse_item (some (key, val)) out = insert (printable key) val out

abbrev pub parse_items : List Text → Dict Text Text → Dict Text Text
parse_items [] out = out
parse_items (item ∷ more) out = parse_items more (parse_item (split_at b'=' item) out)

unfoldable pub parse_parameter_response : Text → Dict Text Text
unfolding getlines split_at
parse_parameter_response response = parse_items (getlines 32 response) []

-- `response[0]` and `response[3]` of a string that ends there are zero.
abbrev pub binary_body : Text → Result Error Text
binary_body (_ ∷ _ ∷ _ ∷ []) = err protocol_error
binary_body (_ ∷ _ ∷ _ ∷ c ∷ body) = if c == b':' then ok body else err protocol_error
binary_body _ = err undefined

unfoldable pub parse_binary_response : Text → Result Error Text
parse_binary_response [] = err protocol_error
parse_binary_response (c ∷ cs) =
    if c == b'<'
    then binary_body (c ∷ cs)
    else err (if c == b'?' then device_error else protocol_error)

-- `map.at(key)`
abbrev pub at : Text → Dict Text Text → Result Error Text
at key m = elim (lookup key m) [ none ↦ err out_of_range | some val ↦ ok val ]

abbrev pub int_at : Text → Dict Text Text → Result Error ℤ
int_at key m = elim (at key m) [ err e ↦ err e | ok val ↦ whole (stoi val) ]

abbrev pub power_of : ℤ → Result Error Bool
power_of (negsuc _) = err logic_error
power_of (pos power) =
    if power == 2 || power == 5
    then ok false
    else if power == 4
    then ok true
    else err (if ltb power 4 then device_error else logic_error)

-- A value of a buffer in the frame status.
abbrev pub buffer_key : ℤ → Text → Text
buffer_key buf name = bytes "BUF" ++ (decimal buf ++ name)

module _ {Dev : Type 0} where
  abbrev pub frame_int : Text → ℤ → Member Dev ℤ
  frame_int name buf s = (int_at (buffer_key buf name) s.frame, s)

  unfoldable pub get_frameno : ℤ → Member Dev ℤ
  get_frameno = frame_int (bytes "FRAME")

  unfoldable pub get_height : ℤ → Member Dev ℤ
  get_height = frame_int (bytes "HEIGHT")

  unfoldable pub get_pixels : ℤ → Member Dev ℤ
  get_pixels = frame_int (bytes "PIXELS")

  unfoldable pub get_rawlines : ℤ → Member Dev ℤ
  get_rawlines = frame_int (bytes "RAWLINES")

  unfoldable pub get_rawblocks : ℤ → Member Dev ℤ
  get_rawblocks = frame_int (bytes "RAWBLOCKS")

  unfoldable pub get_width : ℤ → Member Dev ℤ
  get_width = frame_int (bytes "WIDTH")

  unfoldable pub get_mode : ℤ → Member Dev ℤ
  get_mode = frame_int (bytes "MODE")

  unfoldable pub isbuffercomplete : ℤ → Member Dev Bool
  unfolding ◌>>=◌
  isbuffercomplete buf = frame_int (bytes "COMPLETE") buf >>= (λ n. give (int_bool n))

  unfoldable pub get_32bit : ℤ → Member Dev Bool
  unfolding ◌>>=◌
  get_32bit buf = frame_int (bytes "SAMPLE") buf >>= (λ n. give (int_bool n))

  -- The time of the frame is computed and dropped; the time of the last synchronisation is printed.
  unfoldable pub get_tstamp : (ℕ → Text) → ℤ → Member Dev Text
  get_tstamp to_iso_extended_string buf s = (
    elim (at (buffer_key buf (bytes "TIEMSTAMP")) s.frame) [
      | err e ↦ err e
      | ok text ↦ elim (stoul 16 text) [
        | err e ↦ err (from_stoi e)
        | ok _ ↦ ok (to_iso_extended_string s.sys_tmr)
      ]
    ],
    s,
  )

  unfoldable pub get_power : Member Dev Bool
  get_power s =
      (elim (int_at (bytes "POWER") s.status) [ err e ↦ err e | ok power ↦ power_of power ], s)

module _ {Dev : Type 0} (transact : Text → Dev → Option Text × Dev) where
  unfoldable pub set_power : Bool → Member Dev (Unit {0})
  unfolding order_cmd
  set_power onoff = order_cmd transact (if onoff then bytes "POWERON" else bytes "POWEROFF")

  abbrev pub is_buffer : ℤ → Bool
  is_buffer (pos buf) = leb 1 buf && leb buf 3
  is_buffer (negsuc _) = false

  unfoldable pub lockbuffer : ℤ → Member Dev (Unit {0})
  unfolding order_cmd
  lockbuffer buf =
      if is_buffer buf then order_cmd transact (bytes "LOCK" ++ decimal buf) else throw out_of_range

  unfoldable pub fetch_log : Member Dev Text
  unfolding cmd
  fetch_log = cmd transact (bytes "FETCHLOG")

  unfoldable pub sync_archon_timer : ℕ → Member Dev (Unit {0})
  unfolding cmd ◌>>=◌
  sync_archon_timer now = cmd transact (bytes "TIMER") >>= (λ str. elim (split_at b'=' str) [
    | none ↦ throw undefined
    | some (_, count) ↦ elim (stoul 10 count) [
      | err e ↦ throw (from_stoi e)
      | ok n ↦ modify (λ s. record s { arch_tmr = n; sys_tmr = now })
    ]
  ])

  -- The lines from a number on, for as many rounds; `insert` keeps the number of a key that is there.
  unfoldable pub parse_config_from : ℕ → ℕ → Member Dev (Unit {0})
  unfolding read_config_line ◌>>=◌ ◌>>◌
  parse_config_from zero i = modify (λ s. record s { config_lines = i })
  parse_config_from (suc rounds) i = read_config_line transact i true >>= (λ confline.
      if length confline == 0
      then modify (λ s. record s { config_lines = i })
      else (elim (split_at b'=' confline) [
        | none ↦ throw device_error
        | some (key, val) ↦
            modify (λ s. record s {
              config_line_map = elim (lookup key s.config_line_map) [
                | none ↦ insert key i s.config_line_map
                | some _ ↦ s.config_line_map
              ];
            })
            >> parse_config_from rounds (i + 1)
      ]))

  unfoldable pub read_parse_existing_config : Member Dev (Unit {0})
  unfolding parse_config_from write_key_value ◌>>◌
  read_parse_existing_config =
      write_key_value transact (bytes "RAWSTARTPIXEL") (bytes "0") >> parse_config_from 2048 0

  module _ (update_variables : Member Dev (Unit {0})) where
    unfoldable pub update_state : Member Dev (Unit {0})
    unfolding cmd parse_parameter_response ◌>>=◌ ◌>>◌
    update_state = do
      system ← cmd transact (bytes "SYSTEM")
      modify (λ s. record s { system = parse_parameter_response system })
      status ← cmd transact (bytes "STATUS")
      modify (λ s. record s { status = parse_parameter_response status })
      frame ← cmd transact (bytes "FRAME")
      modify (λ s. record s { frame = parse_parameter_response frame })
      update_variables

    unfoldable pub fetch_logs : ℕ → Member Dev (List Text)
    unfolding fetch_log ◌>>=◌
    fetch_logs zero = give []
    fetch_logs (suc n) = do log ← fetch_log; logs ← fetch_logs n; give (log ∷ logs)

    -- `reserve` throws on a negative number.
    unfoldable pub fetch_all_logs : Member Dev (List Text)
    unfolding update_state fetch_logs ◌>>=◌ ◌>>◌
    fetch_all_logs =
        update_state
        >> ((λ s. (int_at (bytes "LOG") s.status, s))
            >>= (λ n. elim n [ pos count ↦ fetch_logs count | negsuc _ ↦ throw logic_error ]))
