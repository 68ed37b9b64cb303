-- ===== src/Devices/TCube/Lines.antt =====
-- The lines that are written to the chiller and read from it.
use foxtrot.Base.{
  ℕ, zero, suc, ◌+◌, ◌-◌, ◌<◌, ◌≤◌, ◌≡◌, refl, sym, ◌∙◌, ap, arith, Bool, true, false, Option, none,
  some, List, [], ◌∷◌, ◌++◌, ◌==◌, if◌then◌else◌, length, take, All, ==_iff,
}
use foxtrot.Devices.TCube.{eol, find_eol, terminated, response}

-- The text up to the first end of line, without it.
abbrev pub up_to_eol : List ℕ → List ℕ
up_to_eol [] = []
up_to_eol (c ∷ cs) = let rest = up_to_eol cs in if c == eol then [] else c ∷ rest

-- What a position says of a text `s` whose part before the first end of line is `u`.
abbrev IsFound : List ℕ → List ℕ → Option ℕ → Type 0
IsFound s u none = u ≡ s
IsFound s u (some pos) = (take pos s ≡ u) × (take (pos + 1) s ≡ u ++ (eol ∷ [])) × (pos < length s)

take_one : (n : ℕ) (c : ℕ) (cs : List ℕ) → take (n + 1) (c ∷ cs) ≡ c ∷ take n cs
take_one n c cs = ap (λ m. take m (c ∷ cs)) (add_one n)
  where
    add_one : (m : ℕ) → m + 1 ≡ suc m
    add_one m = omega arith

find_eol-IsFound : (s : List ℕ) → IsFound s (up_to_eol s) (find_eol s)
find_eol-IsFound [] = refl
find_eol-IsFound (c ∷ cs) = from (c == eol) (find_eol cs) ((==_iff c eol).0) (find_eol-IsFound cs)
  where
    from :
        (b : Bool) (o : Option ℕ)
        → (b ≡ true → c ≡ eol)
        → IsFound cs (up_to_eol cs) o
        → IsFound
            (c ∷ cs)
            (if b then [] else c ∷ up_to_eol cs)
            (if b then some 0 else (elim o [ none ↦ none | some pos ↦ some (pos + 1) ]))
    from true o same h = (refl, take_one 0 c cs ∙ ap (λ x. x ∷ []) (same refl), omega arith)
    from false none same h = ap (◌∷◌ c) h
    from false (some pos) same (h, h', lt) = (
      take_one pos c cs ∙ ap (◌∷◌ c) h,
      take_one (pos + 1) c cs ∙ ap (◌∷◌ c) h',
      omega (arith, lt),
    )

take_all : (n : ℕ) (s : List ℕ) → length s ≤ n → take n s ≡ s
take_all zero [] h = refl
take_all zero (c ∷ cs) h = absurd (omega (arith, h))
take_all (suc n) [] h = refl
take_all (suc n) (c ∷ cs) h = ap (◌∷◌ c) (take_all n cs (omega (arith, h)))

abbrev pub IsPlain : List ℕ → Type 0
IsPlain = All (λ c. (c == eol) ≡ false)

up_to_eol-IsPlain : (s : List ℕ) → IsPlain (up_to_eol s)
up_to_eol-IsPlain [] = tt
up_to_eol-IsPlain (c ∷ cs) = from (c == eol) refl (up_to_eol-IsPlain cs)
  where
    from :
        (b : Bool)
        → (c == eol) ≡ b
        → IsPlain (up_to_eol cs)
        → IsPlain (if b then [] else c ∷ up_to_eol cs)
    from true h rest = tt
    from false h rest = (h, rest)

up_to_eol-append : (u rest : List ℕ) → IsPlain u → up_to_eol (u ++ (eol ∷ rest)) ≡ u
up_to_eol-append [] rest h = refl
up_to_eol-append (c ∷ u) rest (h, hs) = rw (h, up_to_eol-append u rest hs)

terminated_eq : (request : List ℕ) → terminated request ≡ up_to_eol request ++ (eol ∷ [])
unfolding terminated
terminated_eq request = from (find_eol request) (find_eol-IsFound request)
  where
    from :
        (o : Option ℕ)
        → IsFound request (up_to_eol request) o
        → (elim o [
          | none ↦ request ++ (eol ∷ [])
          | some pos ↦ if pos == length request - 1 then request else take (pos + 1) request
        ])
          ≡ up_to_eol request ++ (eol ∷ [])
    from none h = ap (λ u. u ++ (eol ∷ [])) (sym h)
    from (some pos) (h, h', lt) = ground (arith, h', take_all (pos + 1) request)

response_eq : (resp : List ℕ) → response resp ≡ up_to_eol resp
unfolding response
response_eq resp = from (find_eol resp) (find_eol-IsFound resp)
  where
    from :
        (o : Option ℕ)
        → IsFound resp (up_to_eol resp) o
        → (elim o [ none ↦ resp | some pos ↦ take pos resp ]) ≡ up_to_eol resp
    from none h = sym h
    from (some pos) h = h.0

-- The line that is written is the request up to its first end of line, with one end of line, whether
-- the request has none, has one at its end or has more behind it. What is read is cut at its first end
-- of line, so that a line comes back from the one that is written without its end. No end of line is in
-- it.
pub terminated-response :
    (request resp : List ℕ)
    → (terminated request ≡ up_to_eol request ++ (eol ∷ []))
      × (response resp ≡ up_to_eol resp)
      × (response (terminated request) ≡ up_to_eol request)
      × IsPlain (up_to_eol request)
terminated-response request resp = (
  terminated_eq request,
  response_eq resp,
  response_eq (terminated request)
      ∙ ap up_to_eol (terminated_eq request)
      ∙ up_to_eol-append (up_to_eol request) [] (up_to_eol-IsPlain request),
  up_to_eol-IsPlain request,
)
