-- ===== src/Devices/Archon/Store.antt =====
-- The configuration lines as a map from keys to values. The controller's memory is a hypothesis: it
-- stores the line of a WCONFIG under its number and sends it back for a RCONFIG.
use foxtrot.Base.{
  Bool, true, ◌&&◌, not, ℕ, ◌+◌, ◌<◌, ◌≤◌, ◌≡◌, refl, sym, ap, ◌∙◌, arith, true, false, Option,
  none, some, [], ◌∷◌, ◌++◌, ok, ◌==◌, if◌then◌else◌, All, length, inl, inr, Option-cases, bytes_eq,
  ltb,
}
use foxtrot.Base.Int.{ℤ, pos, negsuc}
use foxtrot.Base.Texts.{Text, bytes, split_at}
use foxtrot.Base.Dict.{lookup, insert, insert-lookup}
use foxtrot.Base.Action.{bind_eq, give, modify}
use foxtrot.Devices.Archon.{
  Archon, is_print, framed, this_order, hex4, cmd, write_line, write_numbered, write_config_line,
  write_known, write_key_value,
}
use foxtrot.Devices.Archon.Commands.{IsPrintable, answer, after_cmd, cmd_own_answer, this_order_lt}

pub le_not_lt : (a b : ℕ) → b < a → ltb a b ≡ false
le_not_lt a b h = ground arith

abbrev pub wconfig : ℕ → Text → Text
wconfig n text = bytes "WCONFIG" ++ (hex4 n ++ text)

abbrev pub rconfig : ℕ → Text
rconfig n = bytes "RCONFIG" ++ hex4 n

-- What the controller does with the two commands, for lines of printable text.
pub record Controller {Dev : Type 0} (transact : Text → Dev → Option Text × Dev) : Type 0 where
  pub line : Dev → ℕ → Text
  pub wconfig_answer :
      (order n : ℕ) (text : Text) (dev : Dev)
      → order < 256
      → n < 2048
      → IsPrintable text
      → (transact (framed order (wconfig n text)) dev).0 ≡ some (answer order [])
  pub wconfig_line :
      (order n : ℕ) (text : Text) (dev : Dev) (m : ℕ)
      → order < 256
      → n < 2048
      → IsPrintable text
      → line (transact (framed order (wconfig n text)) dev).1 m
        ≡ (if n == m then text else line dev m)
  pub rconfig_answer :
      (order n : ℕ) (dev : Dev)
      → order < 256
      → n < 2048
      → (transact (framed order (rconfig n)) dev).0 ≡ some (answer order (line dev n))
  pub rconfig_line :
      (order n : ℕ) (dev : Dev) (m : ℕ)
      → order < 256
      → n < 2048
      → line (transact (framed order (rconfig n)) dev).1 m ≡ line dev m

-- Printable text without the sign that ends a key.
abbrev pub IsKey : Text → Type 0
IsKey = All (λ c. (is_print c ≡ true) × ((c == b'=') ≡ false))

-- The same as a test.
abbrev pub is_key : Text → Bool
is_key [] = true
is_key (c ∷ cs) = (is_print c && not (c == b'=')) && is_key cs

pub is_key-IsKey : (cs : Text) → is_key cs ≡ true → IsKey cs
is_key-IsKey [] h = tt
is_key-IsKey (c ∷ cs) h = ((ground arith, ground arith), is_key-IsKey cs (ground arith))

abbrev pub setting : Text → Text → Text
setting key val = key ++ b'=' ∷ val

pub setting-IsPrintable :
    (key val : Text) → IsKey key → IsPrintable val → IsPrintable (setting key val)
setting-IsPrintable [] val h p = (refl, p)
setting-IsPrintable (c ∷ cs) val h p = (h.0.0, setting-IsPrintable cs val h.1 p)

pub split_at-setting :
    (key val : Text) → IsKey key → split_at b'=' (setting key val) ≡ some (key, val)
unfolding split_at
split_at-setting [] val h = refl
split_at-setting (c ∷ cs) val h = rw (h.0.1, split_at-setting cs val h.1)

abbrev pub put : Text → Text → (Text → Option Text) → Text → Option Text
put key val abs k = if bytes_eq.same key k then some val else abs k

module _ {Dev : Type 0} (transact : Text → Dev → Option Text × Dev)
    (controller : Controller transact) where
  open controller use {line}

  -- What the controller holds for a key that is known.
  abbrev pub Holds : Archon Dev → (Text → Option Text) → Text → ℕ → Type 0
  Holds s abs k n =
      (n < s.config_lines)
      × (v : Text) × (abs k ≡ some v)
      × (line s.dev n ≡ setting k v)
      × IsKey k
      × IsPrintable v

  -- The lines of the controller and the numbers that the object keeps stand for a map.
  pub record Represents (s : Archon Dev) (abs : Text → Option Text) : Type 0 where
    pub order_le : s.order ≤ 254
    pub lines_le : s.config_lines ≤ 2047
    pub known : (k : Text) (n : ℕ) → lookup k s.config_line_map ≡ some n → Holds s abs k n
    pub unknown : (k : Text) → lookup k s.config_line_map ≡ none → abs k ≡ none
    pub apart :
        (j k : Text) (n : ℕ)
        → lookup j s.config_line_map ≡ some n
        → lookup k s.config_line_map ≡ some n
        → j ≡ k

  abbrev pub line_of : Text → Archon Dev → ℕ
  line_of key s = elim (lookup key s.config_line_map) [ none ↦ s.config_lines | some n ↦ n ]

  abbrev pub lines_after : Text → Archon Dev → ℕ
  lines_after key s = elim (lookup key s.config_line_map) [
    | none ↦ s.config_lines + 1
    | some _ ↦ s.config_lines
  ]

  -- The state after a value was written as a line.
  abbrev pub wrote : Text → Text → ℕ → ℕ → Archon Dev → Archon Dev
  wrote key val n lines s = record s {
    order = this_order s.order + 1;
    dev = (transact (framed (this_order s.order) (wconfig n (setting key val))) s.dev).1;
    config_lines = lines;
    config_line_map = insert key n s.config_line_map;
  }

  abbrev pub after_write : Text → Text → Archon Dev → Archon Dev
  after_write key val s = wrote key val (line_of key s) (lines_after key s) s

  write_line_lem :
      (text : Text) (n : ℕ) (s : Archon Dev)
      → s.order ≤ 254
      → n < 2048
      → IsPrintable text
      → write_line transact text n s ≡ (ok n, after_cmd transact (wconfig n text) s)
  unfolding write_line
  write_line_lem text n s h hn p =
      let lt : this_order s.order < 256 = omega (arith, this_order_lt s.order h) in
      bind_eq (cmd transact (wconfig n text)) (λ _. give n) s
        (after_cmd transact (wconfig n text) s) []
        (cmd_own_answer transact (wconfig n text) [] s h tt
          (controller.wconfig_answer (this_order s.order) n text s.dev lt hn p))

  write_config_line_free :
      (text : Text) (num : ℤ) (s : Archon Dev)
      → s.config_lines < 2047
      → length text < 2047
      → write_config_line transact text num s ≡ write_numbered transact text num s
  unfolding write_config_line
  write_config_line_free text num s room short = ground arith

  write_numbered_pos :
      (text : Text) (n : ℕ) (s : Archon Dev)
      → n < s.config_lines
      → write_numbered transact text (pos n) s ≡ write_line transact text n s
  unfolding write_numbered
  write_numbered_pos text n s below = rw (le_not_lt s.config_lines n below)

  -- A known key, and a new one.
  write_some :
      (key val : Text) (n : ℕ) (s : Archon Dev)
      → s.order ≤ 254
      → IsPrintable (setting key val)
      → s.config_lines < 2047
      → length (setting key val) < 2047
      → n < s.config_lines
      → lookup key s.config_line_map ≡ some n
      → write_known transact (some n) key val s ≡ (ok tt, wrote key val n s.config_lines s)
  unfolding write_known write_numbered
  write_some key val n s h p room short below e =
      bind_eq (write_config_line transact (setting key val) (pos n)) (λ _. give tt) s
        (after_cmd transact (wconfig n (setting key val)) s) n
        (write_config_line_free (setting key val) (pos n) s room short
          ∙ write_numbered_pos (setting key val) n s below
          ∙ write_line_lem (setting key val) n s h (omega arith) p)
      ∙ ap
          (λ m. (
            ok tt,
            record (after_cmd transact (wconfig n (setting key val)) s) { config_line_map = m },
          ))
          (sym (insert-lookup key n s.config_line_map e))

  write_none :
      (key val : Text) (s : Archon Dev)
      → s.order ≤ 254
      → IsPrintable (setting key val)
      → s.config_lines < 2047
      → length (setting key val) < 2047
      → write_known transact none key val s
        ≡ (ok tt, wrote key val s.config_lines (s.config_lines + 1) s)
  unfolding write_known write_numbered
  write_none key val s h p room short =
      bind_eq (write_config_line transact (setting key val) (negsuc 0))
        (λ linenum.
          modify (λ t. record t { config_line_map = insert key linenum t.config_line_map }))
        s
        (after_cmd transact (wconfig s.config_lines (setting key val))
          (record s { config_lines = s.config_lines + 1 }))
        s.config_lines
        (write_config_line_free (setting key val) (negsuc 0) s room short
          ∙ write_line_lem (setting key val) s.config_lines
              (record s { config_lines = s.config_lines + 1 }) h (omega arith) p)

  pub write_key_value_eq :
      (key val : Text) (s : Archon Dev) {abs : Text → Option Text}
      → Represents s abs
      → IsKey key
      → IsPrintable val
      → s.config_lines < 2047
      → length (setting key val) < 2047
      → write_key_value transact key val s ≡ (ok tt, after_write key val s)
  unfolding write_key_value
  write_key_value_eq key val s r k p room short =
      let printed = setting-IsPrintable key val k p in
      elim (Option-cases (lookup key s.config_line_map)) [
        | inl e ↦
            ap (λ o. write_known transact o key val s) e
            ∙ write_none key val s r.order_le printed room short
            ∙ ap
                (λ o. (
                  ok tt,
                  wrote key val (elim o [ none ↦ s.config_lines | some n ↦ n ])
                      (elim o [ none ↦ s.config_lines + 1 | some _ ↦ s.config_lines ]) s,
                ))
                (sym e)
        | inr (n, e) ↦
            ap (λ o. write_known transact o key val s) e
            ∙ write_some key val n s r.order_le printed room short (r.known key n e).0 e
            ∙ ap
                (λ o. (
                  ok tt,
                  wrote key val (elim o [ none ↦ s.config_lines | some n ↦ n ])
                      (elim o [ none ↦ s.config_lines + 1 | some _ ↦ s.config_lines ]) s,
                ))
                (sym e)
      ]
