-- ===== src/Devices/Apt/Takes.antt =====
-- That receiving a message takes bytes off the port, or throws.
use foxtrot.Base.{
  if◌then◌else◌, ℕ, zero, suc, ◌+◌, ◌*◌, ◌-◌, ◌≤◌, ◌≡◌, ◌==◌, refl, arith, Bool, true, false, not,
  ◌&&◌, List, [], ◌∷◌, Option, none, some, Result, ok, err, length, drop,
}
use Prim.Native.Nat.{bit_and}
use foxtrot.Base.Action.{◌>>=◌, ◌>>◌, throw, give}
use foxtrot.Devices.Apt.{
  Error, out_of_fuel, null_destination, timed_out, all_zeros, unexpected_source, Destination, Port,
  Apt, AptReply, read_definite, receive_header, receive_sync_common, flush, data_length,
  destination_code,
}

abbrev pub is_out_of_fuel : Error → Bool
is_out_of_fuel out_of_fuel = true
is_out_of_fuel _ = false

-- What returned and took `k` bytes at least of the `n` that were to come, or threw, but not for want of
-- fuel.
unfoldable pub Takes : {A : Type 0} → ℕ → ℕ → Result Error A × Port → Type 0
Takes k n (err e, port) = is_out_of_fuel e ≡ false
Takes k n (ok a, port) = length port.incoming + k ≤ n

pub throw-Takes :
    (A : Type 0) (k n : ℕ) (e : Error) (port : Port)
    → is_out_of_fuel e ≡ false
    → Takes {A = A} k n (err e, port)
unfolding Takes
throw-Takes A k n e port h = h

pub give-Takes :
    {A : Type 0} (k n : ℕ) (a : A) (port : Port)
    → length port.incoming + k ≤ n
    → Takes k n (ok a, port)
unfolding Takes
give-Takes k n a port h = h

pub bind-Takes :
    {A B : Type 0} (act : Apt A) (next : A → Apt B) (port : Port) (j k n : ℕ)
    → Takes j n (act port)
    → ((a : A) (p : Port) → length p.incoming + j ≤ n → Takes k n (next a p))
    → Takes k n ((act >>= next) port)
unfolding ◌>>=◌ Takes
bind-Takes {A = A} act next port j k n first rest = from (act port) first
  where
    from : (r : Result Error A × Port) → Takes j n r → Takes k n (((λ (u : Port). r) >>= next) port)
    from (err e, p) h = h
    from (ok a, p) h = rest a p h

pub Takes-weaken :
    {A : Type 0} (j k m n : ℕ) (r : Result Error A × Port)
    → Takes j m r
    → m + k ≤ n + j
    → Takes k n r
unfolding Takes
Takes-weaken j k m n (err e, p) h le = h
Takes-weaken j k m n (ok a, p) h le = omega (arith, h, le)

pub length-drop : (n : ℕ) (xs : List ℕ) → length (drop n xs) ≡ length xs - n
length-drop zero xs = omega arith
length-drop (suc n) [] = omega arith
length-drop (suc n) (x ∷ xs) = omega (arith, length-drop n xs)

pub read_definite-Takes :
    (n : ℕ) (port : Port) → Takes n (length port.incoming) (read_definite n port)
unfolding Takes
read_definite-Takes n port = ground (arith, length-drop n port.incoming)

pub if-Takes :
    {A : Type 0} (b : Bool) (act other : Apt A) (port : Port) (k n : ℕ)
    → Takes k n (act port)
    → Takes k n (other port)
    → Takes k n ((if b then act else other) port)
if-Takes true act other port k n h h' = h
if-Takes false act other port k n h h' = h'

module _ (flushed : List ℕ → List ℕ) where
  pub receive_header-Takes :
      (source : Destination) (header : List ℕ) (port : Port)
      → Takes 0 (length port.incoming) (receive_header flushed source header port)
  unfolding receive_header flush ◌>>◌ ◌>>=◌
  receive_header-Takes source [] port = throw-Takes _ 0 (length port.incoming) timed_out port refl
  receive_header-Takes source (b0 ∷ []) port =
      throw-Takes _ 0 (length port.incoming) timed_out port refl
  receive_header-Takes source (b0 ∷ b1 ∷ []) port =
      throw-Takes _ 0 (length port.incoming) timed_out port refl
  receive_header-Takes source (b0 ∷ b1 ∷ b2 ∷ []) port =
      throw-Takes _ 0 (length port.incoming) timed_out port refl
  receive_header-Takes source (b0 ∷ b1 ∷ b2 ∷ b3 ∷ []) port =
      throw-Takes _ 0 (length port.incoming) timed_out port refl
  receive_header-Takes source (b0 ∷ b1 ∷ b2 ∷ b3 ∷ b4 ∷ []) port =
      throw-Takes _ 0 (length port.incoming) timed_out port refl
  receive_header-Takes source (b0 ∷ b1 ∷ b2 ∷ b3 ∷ b4 ∷ b5 ∷ b6 ∷ bs) port =
      throw-Takes _ 0 (length port.incoming) timed_out port refl
  receive_header-Takes source (b0 ∷ b1 ∷ b2 ∷ b3 ∷ b4 ∷ b5 ∷ []) port =
      let n = length port.incoming in
      let thrown : (e : Error)
          → is_out_of_fuel e ≡ false
          → Takes {A = AptReply × ℕ} 0 n (err e, record port { incoming = flushed port.incoming }) =
        λ e h. throw-Takes _ 0 n e (record port { incoming = flushed port.incoming }) h in
      let fail : Error → Apt (AptReply × ℕ) = λ e. flush flushed >> throw e in
      let reply : Option (List ℕ) → AptReply × ℕ =
        λ payload. (record { p1 = b2; p2 = b3; payload = payload }, b1 * 256 + b0) in
      let with_data : Apt (AptReply × ℕ) =
        read_definite (data_length b2 b3) >>= (λ dat. give (reply (some dat))) in
      let all : Apt (AptReply × ℕ) =
        if bit_and b4 0x80 == 0x80 then with_data else give (reply none) in
      let from_source : Apt (AptReply × ℕ) =
        if not (b5 == destination_code source) then fail unexpected_source else all in
      let zeros = b0 == 0 && b1 == 0 && b2 == 0 && b3 == 0 && b4 == 0 && b5 == 0 in
      if-Takes (b4 == 0) (fail null_destination) (if zeros then fail all_zeros else from_source)
        port 0 n (thrown null_destination refl)
        (if-Takes zeros (fail all_zeros) from_source port 0 n (thrown all_zeros refl) (
          if-Takes (not (b5 == destination_code source)) (fail unexpected_source) all port 0 n
            (thrown unexpected_source refl)
            (if-Takes (bit_and b4 0x80 == 0x80) with_data (give (reply none)) port 0 n
              (bind-Takes (read_definite (data_length b2 b3)) (λ dat. give (reply (some dat))) port
                (data_length b2 b3) 0 n (read_definite-Takes (data_length b2 b3) port)
                (λ dat p h. give-Takes 0 n (reply (some dat)) p (omega (arith, h))))
              (give-Takes 0 n (reply none) port (omega arith)))))

  -- A message takes six bytes at least.
  pub receive_sync_common-Takes :
      (source : Destination) (port : Port)
      → Takes 6 (length port.incoming) (receive_sync_common flushed source port)
  unfolding receive_sync_common
  receive_sync_common-Takes source port =
      bind-Takes (read_definite 6) (receive_header flushed source) port 6 6 (length port.incoming)
        (read_definite-Takes 6 port)
        (λ header p h.
          Takes-weaken 0 6 (length p.incoming) (length port.incoming) _
            (receive_header-Takes source header p) (omega (arith, h)))
