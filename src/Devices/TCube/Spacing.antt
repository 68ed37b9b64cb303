-- ===== src/Devices/TCube/Spacing.antt =====
-- That the chiller is left in peace between two requests.
use foxtrot.Base.{
  ℕ, ◌+◌, ◌≤◌, ◌≡◌, refl, sym, subst, arith, Option, none, some, List, [], ◌∷◌, ◌++◌, ok, ltb,
  Bool-cases, inl, inr,
}
use foxtrot.Base.Action.{throw, then_eq}
use foxtrot.Devices.TCube.{
  TCubeEdge, empty_request, wait_until, wait_for_turn, terminated, write, cmd_no_response,
}

-- Each line at least 200 ms after the one before it.
abbrev pub IsSpaced : List (ℕ × List ℕ) → Type 0
IsSpaced [] = Unit
IsSpaced ((t, line) ∷ []) = Unit
IsSpaced ((t, line) ∷ (u, line') ∷ lines) = (t + 200 ≤ u) × IsSpaced ((u, line') ∷ lines)

abbrev pub last_time : List (ℕ × List ℕ) → Option ℕ
last_time [] = none
last_time ((t, line) ∷ []) = some t
last_time ((t, line) ∷ next ∷ lines) = last_time (next ∷ lines)

-- From `sent` on, that is the time of the last line, the chiller's turn is over at `now`.
abbrev pub IsOver : Option ℕ → ℕ → Type 0
IsOver none now = Unit
IsOver (some sent) now = sent + 200 ≤ now

IsSpaced-append :
    (lines : List (ℕ × List ℕ)) (now : ℕ) (line : List ℕ)
    → IsSpaced lines
    → IsOver (last_time lines) now
    → IsSpaced (lines ++ ((now, line) ∷ []))
IsSpaced-append [] now line h over = tt
IsSpaced-append ((t, l) ∷ []) now line h over = (over, tt)
IsSpaced-append ((t, l) ∷ (u, l') ∷ lines) now line (h, hs) over =
    (h, IsSpaced-append ((u, l') ∷ lines) now line hs over)

last_time-append :
    (lines : List (ℕ × List ℕ)) (now : ℕ) (line : List ℕ)
    → last_time (lines ++ ((now, line) ∷ [])) ≡ some now
last_time-append [] now line = refl
last_time-append ((t, l) ∷ []) now line = refl
last_time-append ((t, l) ∷ (u, l') ∷ lines) now line = last_time-append ((u, l') ∷ lines) now line

pub record IsValid (chiller : TCubeEdge) : Type 0 where
  pub spaced : IsSpaced chiller.written
  pub last : chiller.last_command_sent ≡ last_time chiller.written

-- A call of the driver, after some time.
pub record Request : Type 0 where
  pub idle : ℕ
  pub line : List ℕ

module _ (wake : ℕ → ℕ → ℕ) (wakes : (now until : ℕ) → until ≤ wake now until) where
  wait_for_turn-IsOver :
      (chiller : TCubeEdge)
      → (now : ℕ) × (wait_for_turn wake chiller ≡ (ok tt, record chiller { now = now }))
        × IsOver chiller.last_command_sent now
  unfolding wait_for_turn wait_until
  wait_for_turn-IsOver chiller = from chiller.last_command_sent
    where
      from :
          (last : Option ℕ)
          → let waiting = record chiller { last_command_sent = last } in
            (now : ℕ) × (wait_for_turn wake waiting ≡ (ok tt, record waiting { now = now }))
            × IsOver last now
      from none = (chiller.now, refl, tt)
      from (some sent) = elim (Bool-cases (ltb chiller.now (sent + 200))) [
        | inl early ↦ (
          wake chiller.now (sent + 200),
          ground (arith, early, wakes chiller.now (sent + 200)),
          wakes chiller.now (sent + 200),
        )
        | inr late ↦ (chiller.now, ground (arith, late), ground (arith, late))
      ]

  -- The time that passes between two calls; a call that throws leaves what it has done.
  unfoldable pub request : Request → TCubeEdge → TCubeEdge
  unfolding cmd_no_response
  request r chiller =
      (cmd_no_response wake r.line (record chiller { now = chiller.now + r.idle })).1

  unfoldable pub requests : List Request → TCubeEdge → TCubeEdge
  unfolding request
  requests [] chiller = chiller
  requests (r ∷ rs) chiller = requests rs (request r chiller)

  cmd_no_response-IsValid :
      (line : List ℕ) (chiller : TCubeEdge)
      → IsValid chiller
      → IsValid (cmd_no_response wake line chiller).1
  unfolding cmd_no_response
  cmd_no_response-IsValid [] chiller v =
      let (now, waited, over) = wait_for_turn-IsOver chiller in
      subst (λ p. IsValid p.1)
        (sym (then_eq (wait_for_turn wake) (throw empty_request) chiller _ waited))
        (record { spaced = v.spaced; last = v.last })
  cmd_no_response-IsValid (c ∷ cs) chiller v =
      let (now, waited, over) = wait_for_turn-IsOver chiller in
      let line = terminated (c ∷ cs) in
      subst (λ p. IsValid p.1)
        (sym (then_eq (wait_for_turn wake) (write wake line) chiller _ waited))
        (record {
          spaced =
              IsSpaced-append chiller.written now line v.spaced
                (subst (λ o. IsOver o now) v.last over);
          last = sym (last_time-append chiller.written now line);
        })

  requests-IsValid :
      (rs : List Request) (chiller : TCubeEdge) → IsValid chiller → IsValid (requests rs chiller)
  unfolding requests
  requests-IsValid [] chiller v = v
  requests-IsValid (r ∷ rs) chiller v = requests-IsValid rs (request r chiller) (
      cmd_no_response-IsValid r.line (record chiller { now = chiller.now + r.idle })
        (record { spaced = v.spaced; last = v.last }))

  -- If a thread that sleeps until a time does not wake before it, then whatever is requested, with
  -- whatever time in between, the lines that a driver writes from its start on are at least 200 ms apart.
  pub requests-IsSpaced :
      (rs : List Request) (now : ℕ)
      → IsSpaced
          (requests rs (record { now = now; last_command_sent = none; written = [] })).written
  requests-IsSpaced rs now =
      (requests-IsValid rs (record { now = now; last_command_sent = none; written = [] })
        (record { spaced = tt; last = refl })).spaced
