-- ===== src/Base/Exec.antt =====
-- Methods that mutate an object and may raise. What was written before a raise stays written, so
-- the state comes back beside the error too.
use m_agent.Base.Fallible.{Result, ok, err}
use m_agent.Base.Bools.{if◌then◌else◌}
use mathlib.Core.Bool.{Bool}
use mathlib.Core.Option.{Option, none, some}

abbrev pub Exec {ℓ} : Type ℓ → Type ℓ → Type ℓ → Type ℓ
Exec E S A = S → Result E A × S

module _ {ℓ} {E S A : Type ℓ} where
  abbrev pub pure : A → Exec E S A
  pure a s = (ok a, s)

  abbrev pub raise : E → Exec E S A
  raise e s = (err e, s)

  abbrev pub lift : Result E A → Exec E S A
  lift r s = (r, s)

  abbrev pub gets : (S → A) → Exec E S A
  gets f s = (ok (f s), s)

  abbrev pub or_raise : Option A → E → Exec E S A
  or_raise none e s = (err e, s)
  or_raise (some a) e s = (ok a, s)

module _ {E S : Type 0} where
  abbrev pub raise_if : Bool → E → Exec E S (Unit {0})
  raise_if b e s = (if b then err e else ok tt, s)

  abbrev pub modify : (S → S) → Exec E S (Unit {0})
  modify f s = (ok tt, f s)

infixl 5 ◌>>=◌ ◌>>◌
abbrev pub ◌>>=◌ {ℓ} : {E S A B : Type ℓ} → Exec E S A → (A → Exec E S B) → Exec E S B
◌>>=◌ m f s = let (r, s') = m s in elim r [ ok a ↦ f a s' | err e ↦ (err e, s') ]

abbrev pub ◌>>◌ : {E S B : Type 0} → Exec E S (Unit {0}) → Exec E S B → Exec E S B
m >> n = m >>= λ _. n

-- `try`: the outcome as a value, with the state as the body left it.
abbrev pub catch {ℓ} : {E S A : Type ℓ} → Exec E S A → Exec E S (Result E A)
catch m s = let (r, s') = m s in (ok r, s')

-- A method of one of two objects.
module _ {E S T A : Type 0} where
  abbrev pub on_first : Exec E S A → Exec E (S × T) A
  on_first m (s, t) = let (r, s') = m s in (r, (s', t))

  abbrev pub on_second : Exec E T A → Exec E (S × T) A
  on_second m (s, t) = let (r, t') = m t in (r, (s, t'))
