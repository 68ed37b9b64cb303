-- ===== src/Devices/Pfeiffer/Telegram.antt =====
-- A device's answer, through the checksum to its fields.
use mathlib.Core.List.{append_assoc}
use foxtrot.Base.{
  ℕ, sym, ◌<◌, ◌≡◌, refl, ◌∙◌, ap, Bool, some, List, [], ◌∷◌, ◌++◌, arith, ok, length,
  length-append, take-append, drop-append, bytes_eq,
}
use foxtrot.Base.Int.{pos}
use foxtrot.Base.Decimal.{decimal, set_width, set_width-three, set_width-two}
use foxtrot.Devices.Pfeiffer.{
  describe, calculate_checksum, semantic_message, telegram, fields, interpret_response_telegram,
}

module _ (signed : Bool) where
  interpret-frame :
      (body : List ℕ) (a b c : ℕ)
      → calculate_checksum signed body ≡ a ∷ b ∷ c ∷ []
      → interpret_response_telegram signed (body ++ a ∷ b ∷ c ∷ b'\r' ∷ [])
        ≡ fields (body ++ a ∷ b ∷ c ∷ b'\r' ∷ [])
  unfolding interpret_response_telegram
  interpret-frame body a b c e = ground (
    arith,
    length-append body (a ∷ b ∷ c ∷ b'\r' ∷ []),
    take-append body (a ∷ b ∷ c ∷ b'\r' ∷ []),
    drop-append body (a ∷ b ∷ c ∷ b'\r' ∷ []),
    bytes_eq.same_iff (a ∷ b ∷ c ∷ []) (a ∷ b ∷ c ∷ []),
  )

  -- A `describe` message.
  abbrev described : ℕ → ℕ → List ℕ → List ℕ
  described address parameter d =
      set_width 3 b'0' (decimal (pos address))
      ++ (b'1' ∷ b'0' ∷ [])
      ++ set_width 3 b'0' (decimal (pos parameter))
      ++ set_width 2 b'0' (decimal (pos (length d)))
      ++ d

  ten : set_width 2 b'0' (decimal (pos 10)) ≡ b'1' ∷ b'0' ∷ []
  unfolding set_width decimal
  ten = refl

  semantic_message_describe :
      (address parameter : ℕ) (d : List ℕ)
      → semantic_message address parameter describe (some d) ≡ ok (described address parameter d)
  unfolding semantic_message
  semantic_message_describe address parameter d = rw ten refl

  -- The fields of a reply with the action `describe`.
  fields-described :
      (address parameter : ℕ) (d tail : List ℕ)
      → address < 1000
      → parameter < 1000
      → length d < 100
      → fields (described address parameter d ++ tail)
        ≡ ok (record { address = pos address; parameter = pos parameter; payload = d })
  fields-described address parameter d tail ha hp hd =
      let (a, b, c, ea, sa) = set_width-three address ha in
      let (p, q, r, ep, sp) = set_width-three parameter hp in
      let (l, m, el, sl) = set_width-two (length d) hd in
      rw (ea, ep, el) ground (arith, sa, sp, sl, take-append d tail)

  interpret-described :
      (address parameter : ℕ) (d check : List ℕ)
      → address < 1000
      → parameter < 1000
      → length d < 100
      → calculate_checksum signed (described address parameter d) ≡ check
      → length check ≡ 3
      → interpret_response_telegram signed (described address parameter d ++ check ++ b'\r' ∷ [])
        ≡ ok (record { address = pos address; parameter = pos parameter; payload = d })
  interpret-described address parameter d (a ∷ b ∷ c ∷ []) ha hp hd e h =
      ap (interpret_response_telegram signed)
        (append_assoc (described address parameter d) (a ∷ b ∷ c ∷ []) (b'\r' ∷ []))
      ∙ interpret-frame (described address parameter d) a b c e
      ∙ fields-described address parameter d (a ∷ b ∷ c ∷ b'\r' ∷ []) ha hp hd
  interpret-described address parameter d [] ha hp hd e h = absurd (omega (arith, h))
  interpret-described address parameter d (a ∷ []) ha hp hd e h = absurd (omega (arith, h))
  interpret-described address parameter d (a ∷ b ∷ []) ha hp hd e h = absurd (omega (arith, h))
  interpret-described address parameter d (a ∷ b ∷ c ∷ x ∷ xs) ha hp hd e h =
      absurd (omega (arith, h))

  -- The telegram of a `describe` message whose checksum takes three characters is taken apart to
  -- its address, its parameter and its data; addresses and parameters have up to three digits, and
  -- the length of the data up to two.
  pub interpret_response_telegram-telegram :
      (address parameter : ℕ) (d message : List ℕ)
      → address < 1000
      → parameter < 1000
      → length d < 100
      → semantic_message address parameter describe (some d) ≡ ok message
      → length (calculate_checksum signed message) ≡ 3
      → interpret_response_telegram signed (telegram signed message)
        ≡ ok (record { address = pos address; parameter = pos parameter; payload = d })
  interpret_response_telegram-telegram address parameter d message ha hp hd hm hc =
      let e : described address parameter d ≡ message =
        ground (arith, semantic_message_describe address parameter d) in
      ap (λ m. interpret_response_telegram signed (telegram signed m)) (sym e)
      ∙ interpret-described address parameter d
          (calculate_checksum signed (described address parameter d)) ha hp hd refl (rw e hc)
