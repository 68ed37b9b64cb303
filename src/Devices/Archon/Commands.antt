-- ===== src/Devices/Archon/Commands.antt =====
-- What `cmd` makes of the answers.
use foxtrot.Base.{
  ℕ, ◌+◌, ◌%◌, ◌<◌, ◌≤◌, ◌≡◌, refl, ap, ◌∙◌, arith, Bool, true, false, ◌&&◌, Option, some, [], ◌∷◌,
  ◌++◌, Result, ok, err, ◌==◌, ==_iff, if◌then◌else◌, All,
}
use foxtrot.Base.Decimal.{set_width, StoiError, passes_from, passes_from_at}
use foxtrot.Base.Texts.{Text, hex, stoul}
use foxtrot.Devices.Archon.{
  Archon, protocol_error, is_print, printable, parse_reply, framed, this_order, cmd,
}

abbrev pub order_text : ℕ → Text
order_text n = set_width 2 48 (hex n)

abbrev is_value : ℕ → Result StoiError ℕ → Bool
is_value n (ok k) = k == n
is_value n (err _) = false

abbrev is_order_text : ℕ → Text → Bool
is_order_text n (a ∷ b ∷ []) = is_print a && is_print b && is_value n (stoul 16 (a ∷ b ∷ []))
is_order_text n _ = false

order_table : passes_from (λ n. is_order_text n (order_text n)) 0 256 ≡ true
unfolding passes_from stoul set_width hex
order_table = refl

-- A number of a byte takes two digits, which are read back.
pub order_text_lem :
    (n : ℕ)
    → n < 256
    → (a b : ℕ) × (order_text n ≡ a ∷ b ∷ [])
      × (is_print a ≡ true)
      × (is_print b ≡ true)
      × (stoul 16 (a ∷ b ∷ []) ≡ ok n)
order_text_lem n h =
    from (order_text n)
      (passes_from_at (λ k. is_order_text k (order_text k)) 0 256 n (omega arith) h order_table)
  where
    from :
        (s : Text)
        → is_order_text n s ≡ true
        → (a b : ℕ) × (s ≡ a ∷ b ∷ [])
          × (is_print a ≡ true)
          × (is_print b ≡ true)
          × (stoul 16 (a ∷ b ∷ []) ≡ ok n)
    from [] e = absurd (ground arith)
    from (a ∷ []) e = absurd (ground arith)
    from (a ∷ b ∷ []) e = (a, b, refl, ground arith, ground arith, ground arith)
    from (a ∷ b ∷ c ∷ s) e = absurd (ground arith)

abbrev pub IsPrintable : Text → Type 0
IsPrintable = All (λ c. is_print c ≡ true)

pub printable_line : (text : Text) → IsPrintable text → printable (text ++ (10 ∷ [])) ≡ text
printable_line [] h = refl
printable_line (c ∷ cs) h = rw (h.0, printable_line cs h.1)

-- An answer with an order number and a printable text.
abbrev pub answer : ℕ → Text → Text
answer order text = b'<' ∷ order_text order ++ (text ++ (10 ∷ []))

printable_reply :
    (a b : ℕ) (text : Text)
    → is_print a ≡ true
    → is_print b ≡ true
    → IsPrintable text
    → printable (b'<' ∷ a ∷ b ∷ (text ++ (10 ∷ []))) ≡ b'<' ∷ a ∷ b ∷ text
printable_reply a b text pa pb p = ap (λ t. b'<' ∷ t) (printable_line (a ∷ b ∷ text) (pa, (pb, p)))

parse_reply_digits :
    (a b n order : ℕ) (text : Text)
    → stoul 16 (a ∷ b ∷ []) ≡ ok n
    → parse_reply order (b'<' ∷ a ∷ b ∷ text) ≡ (if n == order then ok text else err protocol_error)
unfolding parse_reply
parse_reply_digits a b n order text value = rw value

parse_reply-answer :
    (n order : ℕ) (text : Text)
    → n < 256
    → IsPrintable text
    → parse_reply order (printable (answer n text))
      ≡ (if n == order then ok text else err protocol_error)
parse_reply-answer n order text h p =
    let (a, b, e, pa, pb, value) = order_text_lem n h in
    ap (λ t. parse_reply order (printable (b'<' ∷ t ++ (text ++ (10 ∷ []))))) e
    ∙ ap (parse_reply order) (printable_reply a b text pa pb p)
    ∙ parse_reply_digits a b n order text value

pub this_order_lt : (order : ℕ) → order ≤ 254 → this_order order < 254
this_order_lt order h = ground arith

module _ {Dev : Type 0} (transact : Text → Dev → Option Text × Dev) where
  -- The state that a command leaves.
  abbrev pub after_cmd : Text → Archon Dev → Archon Dev
  after_cmd request s = record s {
    order = this_order s.order + 1;
    dev = (transact (framed (this_order s.order) request) s.dev).1;
  }

  -- The controller answers a command with an order number and a printable text. If it is the number of
  -- the command, `cmd` returns the text, else it throws a protocol error. The next number is from 1 to
  -- 254 again, so that two digits are enough for it.
  pub cmd-answer :
      (request text : Text) (n : ℕ) (s : Archon Dev)
      → s.order ≤ 254
      → n < 256
      → IsPrintable text
      → (transact (framed (this_order s.order) request) s.dev).0 ≡ some (answer n text)
      → (cmd transact request s ≡ (
        (if n == this_order s.order then ok text else err protocol_error),
        after_cmd request s,
      ))
        × (1 ≤ (cmd transact request s).1.order)
        × ((cmd transact request s).1.order ≤ 254)
  unfolding cmd
  cmd-answer request text n s h hn p e = (
    (rw e (λ i. (
      parse_reply-answer n (this_order s.order) text hn p i,
      record s {
        order = small (this_order s.order) (this_order_lt s.order h) i;
        dev = (transact (framed (this_order s.order) request) s.dev).1;
      },
    ))),
    ground arith,
    ground arith,
  )
    where
      small : (k : ℕ) → k < 254 → (k + 1) % 65536 ≡ k + 1
      small k lt = omega arith

  pub cmd_own_answer :
      (request text : Text) (s : Archon Dev)
      → s.order ≤ 254
      → IsPrintable text
      → (transact (framed (this_order s.order) request) s.dev).0
        ≡ some (answer (this_order s.order) text)
      → cmd transact request s ≡ (ok text, after_cmd request s)
  cmd_own_answer request text s h p e =
      (cmd-answer request text (this_order s.order) s h (ground (arith, this_order_lt s.order h)) p
        e).0
      ∙ ap (λ r. ((if r then ok text else err protocol_error), after_cmd request s))
          ((==_iff (this_order s.order) (this_order s.order)).1 refl)
