-- ===== src/Base/Action.antt =====
-- What a member function does: it returns or throws, and leaves a state. The notation of `do` blocks.
use mathlib.Core.Path.{◌≡◌, ap}
use mathlib.Core.Bool.{Bool, true, false}
use foxtrot.Base.Outcome.{Result, ok, err}

-- Of errors `E`, a state `S` and values `A`.
abbrev pub Action : Type 0 → Type 0 → Type 0 → Type 0
Action E S A = S → Result E A × S

module _ {E S : Type 0} where
  infixl 5 ◌>>=◌
  unfoldable pub ◌>>=◌ : {A B : Type 0} → Action E S A → (A → Action E S B) → Action E S B
  (act >>= next) s = let (r, s') = act s in elim r [ err e ↦ (err e, s') | ok a ↦ next a s' ]

  infixl 5 ◌>>◌
  unfoldable pub ◌>>◌ : {B : Type 0} → Action E S (Unit {0}) → Action E S B → Action E S B
  (act >> next) s = let (r, s') = act s in elim r [ err e ↦ (err e, s') | ok _ ↦ next s' ]

  abbrev pub give : {A : Type 0} → A → Action E S A
  give a s = (ok a, s)

  abbrev pub throw : {A : Type 0} → E → Action E S A
  throw e s = (err e, s)

  abbrev pub modify : (S → S) → Action E S (Unit {0})
  modify f s = (ok tt, f s)

  abbrev pub when : Bool → Action E S (Unit {0}) → Action E S (Unit {0})
  when true act s = act s
  when false act s = (ok tt, s)

  -- `act`, and after it `last`, also if it throws: a destructor of the block.
  abbrev pub finally : {A : Type 0} → Action E S A → (S → S) → Action E S A
  finally act last s = let (r, s') = act s in (r, last s')

  pub bind_ok :
      {A B : Type 0} (act : Action E S A) (next : A → Action E S B) (s : S) (a : A)
      → (act s).0 ≡ ok a
      → (act >>= next) s ≡ next a (act s).1
  unfolding ◌>>=◌
  bind_ok {A = A} act next s a = from (act s)
    where
      from : (p : Result E A × S) → p.0 ≡ ok a → ((λ (u : S). p) >>= next) s ≡ next a p.1
      from (err e, t) h = absurd cc
      from (ok b, t) h = ap (λ r. next (elim r [ err e ↦ a | ok c ↦ c ]) t) h

  pub then_ok :
      {B : Type 0} (act : Action E S (Unit {0})) (next : Action E S B) (s : S)
      → (act s).0 ≡ ok tt
      → (act >> next) s ≡ next (act s).1
  unfolding ◌>>=◌ ◌>>◌
  then_ok act next s h = bind_ok act (λ u. next) s tt h

  -- From the whole result of the first part.
  pub bind_eq :
      {A B : Type 0} (act : Action E S A) (next : A → Action E S B) (s t : S) (a : A)
      → act s ≡ (ok a, t)
      → (act >>= next) s ≡ next a t
  unfolding ◌>>=◌
  bind_eq act next s t a h =
      ap (λ p. let (r, s') = p in elim r [ err e ↦ (err e, s') | ok b ↦ next b s' ]) h

  pub bind_err :
      {A B : Type 0} (act : Action E S A) (next : A → Action E S B) (s t : S) (e : E)
      → act s ≡ (err e, t)
      → (act >>= next) s ≡ (err e, t)
  unfolding ◌>>=◌
  bind_err act next s t e h =
      ap (λ p. let (r, s') = p in elim r [ err e ↦ (err e, s') | ok b ↦ next b s' ]) h

  pub then_eq :
      {B : Type 0} (act : Action E S (Unit {0})) (next : Action E S B) (s t : S)
      → act s ≡ (ok tt, t)
      → (act >> next) s ≡ next t
  unfolding ◌>>=◌ ◌>>◌
  then_eq act next s t h = bind_eq act (λ u. next) s t tt h
