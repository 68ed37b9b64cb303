-- ===== src/Devices/Archon/Tests/Memory.antt =====
-- A controller that keeps lines: what the tests run against.
use foxtrot.Base.{
  ℕ, ◌<◌, ◌≡◌, refl, sym, ap, ◌∙◌, arith, Bool, true, false, Option, none, some, [], ◌∷◌, ◌++◌,
  Result, ok, err, ◌==◌, if◌then◌else◌,
}
use foxtrot.Base.Decimal.{set_width, StoiError, passes_from, passes_from_at}
use foxtrot.Base.Texts.{Text, bytes, hex, stoul}
use foxtrot.Devices.Archon.{framed, hex4}
use foxtrot.Devices.Archon.Commands.{answer, order_text_lem}
use foxtrot.Devices.Archon.Store.{wconfig, rconfig, Controller}

abbrev pub Lines : Type 0
Lines = ℕ → Text

abbrev number : Result StoiError ℕ → ℕ
number (ok n) = n
number (err _) = 0

abbrev without_last : Text → Text
without_last [] = []
without_last (c ∷ []) = []
without_last (c ∷ d ∷ cs) = c ∷ without_last (d ∷ cs)

abbrev store : ℕ → Text → Lines → Lines
store n text lines m = if n == m then text else lines m

-- A WCONFIG, an RCONFIG, or another command, by its first letter.
abbrev reply : ℕ → ℕ → ℕ → ℕ → Text → Lines → Option Text × Lines
reply letter a b n text lines =
    if letter == b'W'
    then (some (b'<' ∷ a ∷ b ∷ 10 ∷ []), store n text lines)
    else if letter == b'R'
    then (some (b'<' ∷ a ∷ b ∷ (lines n ++ (10 ∷ []))), lines)
    else (some (b'<' ∷ a ∷ b ∷ 10 ∷ []), lines)

abbrev pub memory : Text → Lines → Option Text × Lines
memory (_ ∷ a ∷ b ∷ w ∷ _ ∷ _ ∷ _ ∷ _ ∷ _ ∷ _ ∷ d0 ∷ d1 ∷ d2 ∷ d3 ∷ rest) lines =
    reply w a b (number (stoul 16 (d0 ∷ d1 ∷ d2 ∷ d3 ∷ []))) (without_last rest) lines
memory (_ ∷ a ∷ b ∷ _) lines = (some (b'<' ∷ a ∷ b ∷ 10 ∷ []), lines)
memory _ lines = (none, lines)

without_last_lem : (text : Text) → without_last (text ++ (10 ∷ [])) ≡ text
without_last_lem [] = refl
without_last_lem (c ∷ []) = refl
without_last_lem (c ∷ d ∷ cs) = ap (◌∷◌ c) (without_last_lem (d ∷ cs))

abbrev is_number : ℕ → Text → Bool
is_number n (a ∷ b ∷ c ∷ d ∷ []) = number (stoul 16 (a ∷ b ∷ c ∷ d ∷ [])) == n
is_number n _ = false

number_table : passes_from (λ n. is_number n (hex4 n)) 0 2048 ≡ true
unfolding passes_from stoul set_width hex
number_table = refl

hex4_lem :
    (n : ℕ)
    → n < 2048
    → (a b c d : ℕ) × (hex4 n ≡ a ∷ b ∷ c ∷ d ∷ []) × (number (stoul 16 (a ∷ b ∷ c ∷ d ∷ [])) ≡ n)
hex4_lem n h =
    from (hex4 n) (passes_from_at (λ k. is_number k (hex4 k)) 0 2048 n (omega arith) h number_table)
  where
    from :
        (s : Text)
        → is_number n s ≡ true
        → (a b c d : ℕ) × (s ≡ a ∷ b ∷ c ∷ d ∷ []) × (number (stoul 16 (a ∷ b ∷ c ∷ d ∷ [])) ≡ n)
    from [] e = absurd (ground arith)
    from (a ∷ []) e = absurd (ground arith)
    from (a ∷ b ∷ []) e = absurd (ground arith)
    from (a ∷ b ∷ c ∷ []) e = absurd (ground arith)
    from (a ∷ b ∷ c ∷ d ∷ []) e = (a, b, c, d, refl, ground arith)
    from (a ∷ b ∷ c ∷ d ∷ f ∷ s) e = absurd (ground arith)

-- Its answers as the commands have them.
pub memory-wconfig :
    (order n : ℕ) (text : Text) (lines : Lines)
    → order < 256
    → n < 2048
    → memory (framed order (wconfig n text)) lines ≡ (some (answer order []), store n text lines)
unfolding framed
memory-wconfig order n text lines ho hn =
    let (a, b, e, _, _, _) = order_text_lem order ho in
    let (d0, d1, d2, d3, e4, value) = hex4_lem n hn in
    (λ i. memory (b'>' ∷ e i ++ ((bytes "WCONFIG" ++ (e4 i ++ text)) ++ (10 ∷ []))) lines)
    ∙ ap (λ k. (some (b'<' ∷ a ∷ b ∷ 10 ∷ []), store k (without_last (text ++ (10 ∷ []))) lines))
        value
    ∙ ap (λ t. (some (b'<' ∷ a ∷ b ∷ 10 ∷ []), store n t lines)) (without_last_lem text)
    ∙ ap (λ t. (some (b'<' ∷ t ++ (10 ∷ [])), store n text lines)) (sym e)

pub memory-rconfig :
    (order n : ℕ) (lines : Lines)
    → order < 256
    → n < 2048
    → memory (framed order (rconfig n)) lines ≡ (some (answer order (lines n)), lines)
unfolding framed
memory-rconfig order n lines ho hn =
    let (a, b, e, _, _, _) = order_text_lem order ho in
    let (d0, d1, d2, d3, e4, value) = hex4_lem n hn in
    (λ i. memory (b'>' ∷ e i ++ ((bytes "RCONFIG" ++ e4 i) ++ (10 ∷ []))) lines)
    ∙ ap (λ k. (some (b'<' ∷ a ∷ b ∷ (lines k ++ (10 ∷ []))), lines)) value
    ∙ ap (λ t. (some (b'<' ∷ t ++ (lines n ++ (10 ∷ []))), lines)) (sym e)

unfoldable pub memory_controller : Controller memory
memory_controller = record {
  line = λ lines. lines;
  wconfig_answer =
      λ order n text lines ho hn p. ap (λ r. r.0) (memory-wconfig order n text lines ho hn);
  wconfig_line =
      λ order n text lines m ho hn p. ap (λ r. r.1 m) (memory-wconfig order n text lines ho hn);
  rconfig_answer = λ order n lines ho hn. ap (λ r. r.0) (memory-rconfig order n lines ho hn);
  rconfig_line = λ order n lines m ho hn. ap (λ r. r.1 m) (memory-rconfig order n lines ho hn);
}

-- The commands that apply and clear a configuration.
memory_short :
    (order : ℕ) (lines : Lines) (c0 c1 c2 c3 c4 c5 c6 c7 : ℕ)
    → order < 256
    → memory (framed order (c0 ∷ c1 ∷ c2 ∷ c3 ∷ c4 ∷ c5 ∷ c6 ∷ c7 ∷ [])) lines
      ≡ (some (answer order []), lines)
unfolding framed
memory_short order lines c0 c1 c2 c3 c4 c5 c6 c7 ho =
    let (a, b, e, _, _, _) = order_text_lem order ho in
    (λ i. memory (b'>' ∷ e i ++ (c0 ∷ c1 ∷ c2 ∷ c3 ∷ c4 ∷ c5 ∷ c6 ∷ c7 ∷ 10 ∷ [])) lines)
    ∙ ap (λ t. (some (b'<' ∷ t ++ (10 ∷ [])), lines)) (sym e)

pub memory_applycds :
    (order : ℕ) (lines : Lines)
    → order < 256
    → memory (framed order (bytes "APPLYCDS")) lines ≡ (some (answer order []), lines)
memory_applycds order lines ho = memory_short order lines b'A' b'P' b'P' b'L' b'Y' b'C' b'D' b'S' ho

pub memory_clearconfig :
    (order : ℕ) (lines : Lines)
    → order < 256
    → (memory (framed order (bytes "CLEARCONFIG")) lines).0 ≡ some (answer order [])
unfolding framed
memory_clearconfig order lines ho =
    let (a, b, e, _, _, _) = order_text_lem order ho in
    (λ i. (memory (b'>' ∷ e i ++ (bytes "CLEARCONFIG" ++ (10 ∷ []))) lines).0)
    ∙ ap (λ t. some (b'<' ∷ t ++ (10 ∷ []))) (sym e)
