-- ===== src/Common/Exec.antt =====
-- Go functions that return an error and act on shared state: an action takes the state and gives
-- its result, or its error, beside the state that it leaves.
use Prim.Native.String.{String}
use mathlib.Core.Path.{◌≡◌, refl}
use mathlib.Core.Logic.{◌⊎◌, inl, inr}

pub data Result {ℓ} (E A : Type ℓ) : Type ℓ where
  ok : A → Result E A
  err : E → Result E A

pub Result-cases {ℓ} :
    {E A : Type ℓ} (r : Result E A) → ((a : A) × (r ≡ ok a)) ⊎ ((e : E) × (r ≡ err e))
Result-cases (ok a) = inl (a, refl)
Result-cases (err e) = inr (e, refl)

-- errors.New and fmt.Errorf("…: %w", err).
pub data Error : Type 0 where
  msg : String → Error
  wrap : String → Error → Error

abbrev pub Exec {ℓ} : Type ℓ → Type ℓ → Type ℓ → Type ℓ
Exec E S A = S → Result E A × S

module _ {ℓ} {E S : Type ℓ} where
  abbrev pub pure : {A : Type ℓ} → A → Exec E S A
  pure a s = (ok a, s)

  abbrev pub fail : {A : Type ℓ} → E → Exec E S A
  fail e s = (err e, s)

  abbrev pub and_then : {A B : Type ℓ} → Result E A → (A → Exec E S B) → Exec E S B
  and_then (ok a) f s = f a s
  and_then (err e) f s = (err e, s)

  infixl 5 ◌>>=◌ ◌>>◌
  abbrev pub ◌>>=◌ : {A B : Type ℓ} → Exec E S A → (A → Exec E S B) → Exec E S B
  ◌>>=◌ m f s = let (r, s') = m s in and_then r f s'

  abbrev pub ◌>>◌ : {A B : Type ℓ} → Exec E S A → Exec E S B → Exec E S B
  m >> n = m >>= λ _. n

  abbrev pub from_result : {A : Type ℓ} → Result E A → Exec E S A
  from_result r s = (r, s)

  abbrev pub gets : {A : Type ℓ} → (S → A) → Exec E S A
  gets f s = (ok (f s), s)

  abbrev pub modify : (S → S) → Exec E S (Unit {ℓ})
  modify f s = (ok tt, f s)

  -- The error as a value: `if err := …; err != nil { … }` where the code goes on.
  abbrev pub attempt : {A : Type ℓ} → Exec E S A → Exec E S (Result E A)
  attempt m s = let (r, s') = m s in (ok r, s')

-- A chain of fallible steps that touch no state.
infixl 5 ◌>>=?◌
abbrev pub ◌>>=?◌ {ℓ} : {E A B : Type ℓ} → Result E A → (A → Result E B) → Result E B
ok a >>=? f = f a
err e >>=? f = err e

-- if err != nil { return fmt.Errorf("…: %w", err) }
abbrev pub with_context : {A : Type 0} → String → Result Error A → Result Error A
with_context text (ok a) = ok a
with_context text (err e) = err (wrap text e)

abbrev pub or_wrap : {S A : Type 0} → String → Exec Error S A → Exec Error S A
or_wrap text m s = let (r, s') = m s in (with_context text r, s')
