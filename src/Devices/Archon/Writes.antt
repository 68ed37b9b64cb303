-- ===== src/Devices/Archon/Writes.antt =====
-- The state after a value was written stands for the changed map.
use foxtrot.Base.{
  List, ℕ, ◌+◌, ◌<◌, ◌≤◌, ◌≡◌, sym, ap, ◌∙◌, subst, arith, false, Option, none, some, ◌==◌, ==_iff,
  if◌then◌else◌, Bool-cases, inl, inr, Option-cases, bytes_eq, same_refl,
}
use foxtrot.Base.Texts.{Text}
use foxtrot.Base.Int.{ℤ}
use foxtrot.Base.Dict.{Dict, lookup, lookup-insert}
use foxtrot.Devices.Archon.{Archon, this_order}
use foxtrot.Devices.Archon.Commands.{IsPrintable, this_order_lt}
use foxtrot.Devices.Archon.Store.{
  Controller, IsKey, setting, setting-IsPrintable, put, Holds, Represents, wrote, after_write,
}

module _ {Dev : Type 0} (transact : Text → Dev → Option Text × Dev)
    (controller : Controller transact) where
  open controller use {line}

  module _ (key val : Text) (n lines : ℕ) (s : Archon Dev) (abs : Text → Option Text)
      (r : Represents transact controller s abs) (k : IsKey key) (p : IsPrintable val)
      (below : n < lines) (more : s.config_lines ≤ lines) (room : lines ≤ 2047)
      (own : (j : Text) (m : ℕ) → lookup j s.config_line_map ≡ some m → m ≡ n → j ≡ key) where
    abbrev after : Archon Dev
    after = wrote transact controller key val n lines s

    line_after : (m : ℕ) → line after.dev m ≡ (if n == m then setting key val else line s.dev m)
    line_after m =
        controller.wconfig_line (this_order s.order) n (setting key val) s.dev m
          (omega (arith, this_order_lt s.order r.order_le)) (omega arith)
          (setting-IsPrintable key val k p)

    -- A key of the map is the key that was written, on its line, or one that was there.
    data Found (j : Text) (m : ℕ) : Type 0 where
      new : key ≡ j → n ≡ m → Found j m
      old :
          bytes_eq.same key j ≡ false
          → lookup j s.config_line_map ≡ some m
          → (n == m) ≡ false
          → Found j m

    found : (j : Text) (m : ℕ) → lookup j after.config_line_map ≡ some m → Found j m
    found j m h = elim (Bool-cases (bytes_eq.same key j)) [
      | inl same ↦
          Found.new ((bytes_eq.same_iff key j).0 same)
            (ground (arith, lookup-insert key j n s.config_line_map))
      | inr other ↦
          let here : lookup j s.config_line_map ≡ some m =
            ground (arith, lookup-insert key j n s.config_line_map) in
          Found.old other here
            (ground (arith, own j m here, same_refl key, bytes_eq.same_iff key j))
    ]

    known_after :
        (j : Text) (m : ℕ)
        → lookup j after.config_line_map ≡ some m
        → Holds transact controller after (put key val abs) j m
    known_after j m h = held (found j m h)
      where
        held : Found j m → Holds transact controller after (put key val abs) j m
        held (Found.new e e') = (
          omega arith,
          val,
          rw (← e, same_refl key),
          line_after m ∙ rw ((==_iff n m).1 e', e),
          subst IsKey e k,
          p,
        )
        held (Found.old other here apart) =
            let (lt, v, held, stored, kj, pv) = r.known j m here in
            (omega arith, v, rw other held, line_after m ∙ rw apart stored, kj, pv)

    unknown_after : (j : Text) → lookup j after.config_line_map ≡ none → put key val abs j ≡ none
    unknown_after j h = ground (arith, lookup-insert key j n s.config_line_map, r.unknown j)

    apart_after :
        (i j : Text) (m : ℕ)
        → lookup i after.config_line_map ≡ some m
        → lookup j after.config_line_map ≡ some m
        → i ≡ j
    apart_after i j m hi hj = same (found i m hi) (found j m hj)
      where
        same : Found i m → Found j m → i ≡ j
        same (Found.new e e') (Found.new f f') = sym e ∙ f
        same (Found.new e e') (Found.old o here apart) = absurd (ground (arith, e', apart))
        same (Found.old o here apart) (Found.new f f') = absurd (ground (arith, f', apart))
        same (Found.old o here apart) (Found.old o' here' apart') = r.apart i j m here here'

    wrote-Represents : Represents transact controller after (put key val abs)
    wrote-Represents = record {
      order_le = omega (arith, this_order_lt s.order r.order_le);
      lines_le = room;
      known = known_after;
      unknown = unknown_after;
      apart = apart_after;
    }

  pub after_write-Represents :
      (key val : Text) (s : Archon Dev) (abs : Text → Option Text)
      → Represents transact controller s abs
      → IsKey key
      → IsPrintable val
      → s.config_lines < 2047
      → Represents transact controller (after_write transact controller key val s) (put key val abs)
  after_write-Represents key val s abs r k p room =
      elim (Option-cases (lookup key s.config_line_map)) [
        | inl e ↦ subst At (sym e) (
            wrote-Represents key val s.config_lines (s.config_lines + 1) s abs r k p (omega arith)
              (omega arith) (omega arith)
              (λ j m h eq. absurd (omega (arith, (r.known j m h).0, eq))))
        | inr (n, e) ↦ subst At (sym e) (
            wrote-Represents key val n s.config_lines s abs r k p (r.known key n e).0 (omega arith)
              r.lines_le (λ j m h eq. r.apart j key n (h ∙ ap some eq) e))
      ]
    where
      At : Option ℕ → Type 0
      At o =
          Represents transact controller
            (wrote transact controller key val (elim o [ none ↦ s.config_lines | some n ↦ n ])
              (elim o [ none ↦ s.config_lines + 1 | some _ ↦ s.config_lines ]) s)
            (put key val abs)

  -- The names of states and parameters do not matter.
  pub names-Represents :
      (names : List Text) (params : Dict Text ℤ) (s : Archon Dev) (abs : Text → Option Text)
      → Represents transact controller s abs
      → Represents transact controller (record s { state_names = names; parammap = params }) abs
  names-Represents names params s abs r = record {
    order_le = r.order_le;
    lines_le = r.lines_le;
    known = r.known;
    unknown = r.unknown;
    apart = r.apart;
  }
