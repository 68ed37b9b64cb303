-- ===== src/Devices/Archon/Sequences.antt =====
-- Values that are written one after the other: timing scripts and states.
use foxtrot.Base.{
  ℕ, suc, ◌+◌, ◌<◌, ◌≤◌, ◌≡◌, refl, ap, ◌∙◌, arith, false, Option, List, [], ◌∷◌, ◌++◌, ok, ◌==◌,
  length, bytes_eq, All,
}
use foxtrot.Base.Int.{pos}
use foxtrot.Base.Decimal.{decimal}
use foxtrot.Base.Numerals.{AreDigits, decimal-AreDigits, decimal-length}
use foxtrot.Base.Texts.{Text, bytes, getlines}
use foxtrot.Base.Action.{bind_eq, then_eq}
use foxtrot.Devices.Archon.{Archon, write_key_value}
use foxtrot.Devices.Archon.Params.{load_lines, load_timing_script}
use foxtrot.Devices.Archon.Settings.{set_timing_lines}
use foxtrot.Devices.Archon.Commands.{IsPrintable}
use foxtrot.Devices.Archon.Store.{
  Controller, IsKey, is_key-IsKey, setting, put, Represents, after_write, write_key_value_eq,
}
use foxtrot.Devices.Archon.Writes.{after_write-Represents}

-- A key and a value that make a line.
abbrev pub IsEntry : Text × Text → Type 0
IsEntry (key, val) = IsKey key × IsPrintable val × (length (setting key val) < 2047)

abbrev pub put_all : List (Text × Text) → (Text → Option Text) → Text → Option Text
put_all [] abs = abs
put_all ((key, val) ∷ kvs) abs = put_all kvs (put key val abs)

-- Keys LINE0, LINE1 and so on.
abbrev pub numbered : ℕ → List Text → List (Text × Text)
numbered i [] = []
numbered i (to ∷ more) = (bytes "LINE" ++ decimal (pos i), to) ∷ numbered (i + 1) more

digits-IsPrintable : (cs : Text) → AreDigits cs → IsPrintable cs
digits-IsPrintable [] h = tt
digits-IsPrintable (c ∷ cs) h = (ground arith, digits-IsPrintable cs h.1)

pub decimal-IsPrintable : (n : ℕ) → IsPrintable (decimal (pos n))
decimal-IsPrintable n = digits-IsPrintable (decimal (pos n)) (decimal-AreDigits n)

digits-IsKey : (cs : Text) → AreDigits cs → IsKey cs
digits-IsKey [] h = tt
digits-IsKey (c ∷ cs) h = ((ground arith, ground arith), digits-IsKey cs h.1)

pub decimal-IsKey : (n : ℕ) → IsKey (decimal (pos n))
decimal-IsKey n = digits-IsKey (decimal (pos n)) (decimal-AreDigits n)

pub append-IsKey : (a b : Text) → IsKey a → IsKey b → IsKey (a ++ b)
append-IsKey [] b h k = k
append-IsKey (c ∷ cs) b h k = (h.0, append-IsKey cs b h.1 k)

-- Lines with an end of line each.
abbrev pub unlines : List Text → Text
unlines [] = []
unlines (l ∷ ls) = l ++ (10 ∷ unlines ls)

getlines_line :
    (l rest : Text) → IsPrintable l → getlines 10 (l ++ (10 ∷ rest)) ≡ l ∷ getlines 10 rest
unfolding getlines
getlines_line [] rest h = refl
getlines_line (c ∷ cs) rest h =
    let other : (c == 10) ≡ false = ground (arith, h.0) in rw (other, getlines_line cs rest h.1)

pub getlines-unlines : (ls : List Text) → All IsPrintable ls → getlines 10 (unlines ls) ≡ ls
unfolding getlines
getlines-unlines [] h = refl
getlines-unlines (l ∷ ls) h =
    getlines_line l (unlines ls) h.0 ∙ ap (◌∷◌ l) (getlines-unlines ls h.1)

length-numbered : (i : ℕ) (ls : List Text) → length (numbered i ls) ≡ length ls
length-numbered i [] = refl
length-numbered i (l ∷ ls) = ap suc (length-numbered (i + 1) ls)

numbered-IsPrintable : (i : ℕ) (ls : List Text) → All IsEntry (numbered i ls) → All IsPrintable ls
numbered-IsPrintable i [] h = tt
numbered-IsPrintable i (l ∷ ls) h = (h.0.1, numbered-IsPrintable (i + 1) ls h.1)

module _ {Dev : Type 0} (transact : Text → Dev → Option Text × Dev)
    (controller : Controller transact) where
  abbrev pub writes : List (Text × Text) → Archon Dev → Archon Dev
  writes [] s = s
  writes ((key, val) ∷ kvs) s = writes kvs (after_write transact controller key val s)

  -- At most one line more for each value.
  pub lines_after_le :
      (key val : Text) (s : Archon Dev)
      → (after_write transact controller key val s).config_lines ≤ s.config_lines + 1
  lines_after_le key val s = ground arith

  pub writes-lines :
      (kvs : List (Text × Text)) (s : Archon Dev)
      → (writes kvs s).config_lines ≤ s.config_lines + length kvs
  writes-lines [] s = omega arith
  writes-lines ((key, val) ∷ kvs) s = omega (
    arith,
    writes-lines kvs (after_write transact controller key val s),
    lines_after_le key val s,
  )

  pub writes-Represents :
      (kvs : List (Text × Text)) (s : Archon Dev) (abs : Text → Option Text)
      → Represents transact controller s abs
      → All IsEntry kvs
      → s.config_lines + length kvs ≤ 2047
      → Represents transact controller (writes kvs s) (put_all kvs abs)
  writes-Represents [] s abs r h room = r
  writes-Represents ((key, val) ∷ kvs) s abs r ((k, p, short), h) room =
      writes-Represents kvs (after_write transact controller key val s) (put key val abs)
        (after_write-Represents transact controller key val s abs r k p (omega arith)) h
        (omega (arith, lines_after_le key val s))

  pub writes-state_names :
      (kvs : List (Text × Text)) (s : Archon Dev) → (writes kvs s).state_names ≡ s.state_names
  writes-state_names [] s = refl
  writes-state_names ((key, val) ∷ kvs) s =
      writes-state_names kvs (after_write transact controller key val s)

  load_lines_lem :
      (i : ℕ) (ls : List Text) (s : Archon Dev) (abs : Text → Option Text)
      → Represents transact controller s abs
      → All IsEntry (numbered i ls)
      → s.config_lines + length ls ≤ 2047
      → load_lines transact i ls s ≡ (ok (i + length ls), writes (numbered i ls) s)
  unfolding load_lines
  load_lines_lem i [] s abs r h room = ap (λ n. (ok n, s)) (omega arith)
  load_lines_lem i (to ∷ more) s abs r ((k, p, short), h) room =
      let key = bytes "LINE" ++ decimal (pos i) in
      let t = after_write transact controller key to s in
      then_eq (write_key_value transact key to) (load_lines transact (i + 1) more) s t
        (write_key_value_eq transact controller key to s r k p (omega arith) short)
      ∙ load_lines_lem (i + 1) more t (put key to abs)
          (after_write-Represents transact controller key to s abs r k p (omega arith)) h
          (omega (arith, lines_after_le key to s))
      ∙ ap (λ n. (ok n, writes (numbered (i + 1) more) t)) (omega arith)

  set_lines_lem :
      (n : ℕ) (s : Archon Dev) (abs : Text → Option Text)
      → Represents transact controller s abs
      → s.config_lines < 2047
      → n < 2048
      → set_timing_lines transact (pos n) s
        ≡ (ok tt, after_write transact controller (bytes "LINES") (decimal (pos n)) s)
  unfolding set_timing_lines
  set_lines_lem n s abs r room small =
      write_key_value_eq transact controller (bytes "LINES") (decimal (pos n)) s r
        (is_key-IsKey (bytes "LINES") refl) (decimal-IsPrintable n) room
        (omega (arith, decimal-length n))

  -- A timing script of lines that fit becomes LINE0, LINE1 and so on, and LINES is how many they are. All
  -- other keys keep their values.
  pub load_timing_script_lem :
      (ls : List Text) (s : Archon Dev) (abs : Text → Option Text)
      → Represents transact controller s abs
      → All IsEntry (numbered 0 ls)
      → s.config_lines + length ls < 2047
      → let done = load_timing_script transact (unlines ls) s in
        (done.0 ≡ ok tt)
        × Represents transact controller done.1
            (put (bytes "LINES") (decimal (pos (length ls))) (put_all (numbered 0 ls) abs))
  unfolding load_timing_script
  load_timing_script_lem ls s abs r h room =
      let t = writes (numbered 0 ls) s in
      let rt = writes-Represents (numbered 0 ls) s abs r h (omega (arith, length-numbered 0 ls)) in
      let lt : t.config_lines < 2047 =
        omega (arith, writes-lines (numbered 0 ls) s, length-numbered 0 ls) in
      let loaded : load_lines transact 0 (getlines 10 (unlines ls)) s ≡ (ok (length ls), t) =
        ap (λ l. load_lines transact 0 l s) (getlines-unlines ls (numbered-IsPrintable 0 ls h))
        ∙ load_lines_lem 0 ls s abs r h (omega arith)
        ∙ ap (λ n. (ok n, t)) (omega arith) in
      let run =
        bind_eq (load_lines transact 0 (getlines 10 (unlines ls)))
          (λ i. set_timing_lines transact (pos i)) s t (length ls) loaded
        ∙ set_lines_lem (length ls) t (put_all (numbered 0 ls) abs) rt lt (omega arith) in
      rw run (
        refl,
        after_write-Represents transact controller (bytes "LINES") (decimal (pos (length ls))) t
            (put_all (numbered 0 ls) abs) rt (is_key-IsKey (bytes "LINES") refl)
            (decimal-IsPrintable (length ls)) lt,
      )
