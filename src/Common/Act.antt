-- ===== src/Common/Act.antt =====
-- C functions that change a state and report failure by their value. What was written before a
-- failure stays written, so the state comes back beside it.
pub mod Keeps
pub mod Stays
pub mod Good
use mathlib.Core.Path.{◌≡◌, refl}

-- `err` is the value of a function for failure (-1, false), `crash` an access through NULL.
pub data Result {ℓ} (A : Type ℓ) : Type ℓ where
  ok : A → Result A
  err : Result A
  crash : Result A

abbrev pub Act : Type 0 → Type 0 → Type 0
Act S A = S → Result A × S

module _ {S A : Type 0} where
  abbrev pub pure : A → Act S A
  pure a s = (ok a, s)

  abbrev pub fail : Act S A
  fail s = (err, s)

  abbrev pub gets : (S → A) → Act S A
  gets f s = (ok (f s), s)

module _ {S : Type 0} where
  abbrev pub modify : (S → S) → Act S (Unit {0})
  modify f s = (ok tt, f s)

module _ {S A B : Type 0} where
  abbrev pub continue : Result A → (A → Act S B) → Act S B
  continue (ok a) f s = f a s
  continue err f s = (err, s)
  continue crash f s = (crash, s)

  infixl 10 ◌>>=◌ ◌>>◌
  unfoldable pub ◌>>=◌ : Act S A → (A → Act S B) → Act S B
  ◌>>=◌ m f s = let (r, s') = m s in continue r f s'

  abbrev pub ◌>>◌ : Act S A → Act S B → Act S B
  m >> n = m >>= λ _. n

-- The code goes on whether `m` succeeds or not.
abbrev pub ignore : {S A : Type 0} → Act S A → Act S (Unit {0})
ignore m s =
    let (r, s') = m s in elim r [ ok _ ↦ (ok tt, s') | err ↦ (ok tt, s') | crash ↦ (crash, s') ]

-- On a failure of `m` the code runs `clean_up`, and fails.
abbrev pub rescue : {S A : Type 0} → Act S (Unit {0}) → Act S A → Act S A
rescue clean_up m s =
    let (r, s') = m s in
    elim r [ ok a ↦ (ok a, s') | err ↦ (clean_up >> fail) s' | crash ↦ (crash, s') ]
