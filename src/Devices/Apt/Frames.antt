-- ===== src/Devices/Apt/Frames.antt =====
-- What `receive_sync_common` makes of the bytes that a controller sends.
use foxtrot.Base.{
  ◌&&◌, ℕ, ◌+◌, ◌*◌, ◌/◌, ◌%◌, ◌<◌, ◌≤◌, ◌≡◌, refl, ◌∙◌, arith, Bool, true, false, none, some, List,
  [], ◌∷◌, ◌++◌, ok, err, ◌==◌, length, take, length-append, take-append, drop-append,
}
use foxtrot.Base.Action.{give, bind_eq, bind_err}
use foxtrot.Devices.Apt.{
  Destination, host, rack, generic_usb, bay1, bay2, bay3, destination_code, Port, AptReply,
  short_message, data_message, data_length, timed_out, read_definite, receive_header,
  receive_sync_common,
}

-- A message to the host.
pub data Message : Type 0 where
  short : ℕ → ℕ → ℕ → Message
  long : ℕ → List ℕ → Message

abbrev pub IsMessage : Message → Type 0
IsMessage (short op p1 p2) = op < 65536
IsMessage (long op dat) = (op < 65536) × (length dat < 65536) × (length dat % 256 < 128)

abbrev pub frame : Destination → Message → List ℕ
frame source (short op p1 p2) = short_message op p1 p2 host source
frame source (long op dat) = data_message op dat host source

-- What `receive_sync_common` is to return for it.
abbrev pub reply_of : Message → AptReply × ℕ
reply_of (short op p1 p2) = (record { p1 = p1; p2 = p2; payload = none }, op)
reply_of (long op dat) =
    (record { p1 = length dat % 256; p2 = length dat / 256 % 256; payload = some dat }, op)

read_definite-append :
    (n : ℕ) (xs rest w : List ℕ)
    → length xs ≡ n
    → read_definite n (record { incoming = xs ++ rest; written = w })
      ≡ (ok xs, record { incoming = rest; written = w })
read_definite-append n xs rest w e =
    ground (arith, e, length-append xs rest, take-append xs rest, drop-append xs rest)

read_definite_short :
    (n : ℕ) (xs w : List ℕ)
    → length xs < n
    → read_definite n (record { incoming = xs; written = w })
      ≡ (err timed_out, record { incoming = []; written = w })
read_definite_short n xs w few = ground (arith, few)

code_eq : (source : Destination) → (destination_code source == destination_code source) ≡ true
code_eq host = refl
code_eq rack = refl
code_eq generic_usb = refl
code_eq bay1 = refl
code_eq bay2 = refl
code_eq bay3 = refl

opcode_lem : (op : ℕ) → op < 65536 → op / 256 % 256 * 256 + op % 256 ≡ op
opcode_lem op h = omega arith

data_length_lem : (n : ℕ) → n < 65536 → n % 256 < 128 → n ≡ data_length (n % 256) (n / 256 % 256)
data_length_lem n h low = ground arith

-- A header whose destination is not zero is not all zeros.
some_set : (a b c d f : Bool) → (a && b && c && d && false && f) ≡ false
some_set false b c d f = refl
some_set true false c d f = refl
some_set true true false d f = refl
some_set true true true false f = refl
some_set true true true true f = refl

module _ (flushed : List ℕ → List ℕ) (source : Destination) where
  receive_header_short :
      (op p1 p2 : ℕ) (port : Port)
      → op < 65536
      → receive_header flushed source (short_message op p1 p2 host source) port
        ≡ (ok (reply_of (short op p1 p2)), port)
  unfolding receive_header
  receive_header_short op p1 p2 port h = rw (
    some_set (op % 256 == 0) (op / 256 % 256 == 0) (p1 == 0) (p2 == 0)
        (destination_code source == 0),
    code_eq source,
    opcode_lem op h,
  )

  receive_header_long :
      (op n b3 : ℕ) (dat rest w : List ℕ)
      → op < 65536
      → length dat ≡ data_length n b3
      → receive_header flushed source
          (op % 256 ∷ op / 256 % 256 ∷ n ∷ b3 ∷ 129 ∷ destination_code source ∷ [])
          (record { incoming = dat ++ rest; written = w })
        ≡ (
          ok (record { p1 = n; p2 = b3; payload = some dat }, op),
          record { incoming = rest; written = w },
        )
  unfolding receive_header
  receive_header_long op n b3 dat rest w h e =
      rw
        (
          some_set (op % 256 == 0) (op / 256 % 256 == 0) (n == 0) (b3 == 0)
              (destination_code source == 0),
          code_eq source,
          opcode_lem op h,
        )
        (bind_eq (read_definite (data_length n b3))
          (λ dat'. give (record { p1 = n; p2 = b3; payload = some dat' }, op)) _ _ dat
          (read_definite-append (data_length n b3) dat rest w e))

  -- The host reads the two kinds of message back as they were sent, and no byte more.
  pub receive_sync_common-frame :
      (m : Message) (rest w : List ℕ)
      → IsMessage m
      → receive_sync_common flushed source
          (record { incoming = frame source m ++ rest; written = w })
        ≡ (ok (reply_of m), record { incoming = rest; written = w })
  unfolding receive_sync_common
  receive_sync_common-frame (short op p1 p2) rest w h =
      bind_eq (read_definite 6) (receive_header flushed source) _ _ _
        (read_definite-append 6 (short_message op p1 p2 host source) rest w refl)
      ∙ receive_header_short op p1 p2 (record { incoming = rest; written = w }) h
  receive_sync_common-frame (long op dat) rest w (h, lt, low) =
      bind_eq (read_definite 6) (receive_header flushed source) _ _ _
        (read_definite-append 6 (take 6 (data_message op dat host source)) (dat ++ rest) w refl)
      ∙ receive_header_long op (length dat % 256) (length dat / 256 % 256) dat rest w h
          (data_length_lem (length dat) lt low)

  -- A message to the host that carries data whose length has the bit of value 128 set is not read: the
  -- code waits for at least 65408 bytes, and if fewer come it throws a timeout and has lost them all.
  pub receive_sync_common_long_data :
      (op : ℕ) (dat rest w : List ℕ)
      → 128 ≤ length dat % 256
      → length (dat ++ rest) < 65408
      → receive_sync_common flushed source
          (record { incoming = data_message op dat host source ++ rest; written = w })
        ≡ (err timed_out, record { incoming = []; written = w })
  unfolding receive_sync_common receive_header
  receive_sync_common_long_data op dat rest w high few =
      bind_eq (read_definite 6) (receive_header flushed source) _ _ _
        (read_definite-append 6 (take 6 (data_message op dat host source)) (dat ++ rest) w refl)
      ∙ rw
          (
            some_set (op % 256 == 0) (op / 256 % 256 == 0) (length dat % 256 == 0)
                (length dat / 256 % 256 == 0) (destination_code source == 0),
            code_eq source,
          )
          (bind_err (read_definite (data_length (length dat % 256) (length dat / 256 % 256)))
            (λ dat'. give _) _ _ _ (read_definite_short _ (dat ++ rest) w (ground arith)))
