-- ===== src/Common/Act/Keeps.antt =====
-- How a C function keeps an invariant and does not crash, by the way it is put together.
use mathlib.Core.Path.{◌≡◌, refl}
use mathlib.Core.Bool.{Bool, true, false}
use mathlib.Core.Option.{Option, none, some}
use exynos.Common.Tests.{if◌then◌else◌}
use exynos.Common.Act.{Result, ok, err, crash, Act, pure, fail, gets, modify, continue, ◌>>=◌}

-- No access through NULL.
abbrev pub IsSafe : {A : Type 0} → Result A → Type 0
IsSafe crash = ⊥
IsSafe _ = Unit

-- From a state with `P` the action does not crash, and it keeps `P` whether it succeeds or fails.
pub record Keeps {S A : Type 0} (P : S → Type 0) (m : Act S A) : Type 0 where
  pub at : (s : S) → P s → IsSafe (m s).0 × P (m s).1

module _ {S A : Type 0} {Inv : S → Type 0} where
  pub Keeps-pure : (a : A) → Keeps Inv (pure a)
  Keeps-pure a = record { at = λ s h. (tt, h) }

  pub Keeps-fail : Keeps Inv (fail {A = A})
  Keeps-fail = record { at = λ s h. (tt, h) }

  pub Keeps-gets : (f : S → A) → Keeps Inv (gets f)
  Keeps-gets f = record { at = λ s h. (tt, h) }

  pub Keeps-if :
      (test : Bool) (then_act else_act : Act S A)
      → (test ≡ true → Keeps Inv then_act)
      → (test ≡ false → Keeps Inv else_act)
      → Keeps Inv (if test then then_act else else_act)
  Keeps-if true then_act else_act first other = first refl
  Keeps-if false then_act else_act first other = other refl

module _ {S A B : Type 0} {Inv : S → Type 0} where
  -- The split on an answer.
  pub Keeps-option :
      (o : Option A) (n : Act S B) (k : A → Act S B)
      → (o ≡ none → Keeps Inv n)
      → ((a : A) → o ≡ some a → Keeps Inv (k a))
      → Keeps Inv (elim o [ none ↦ n | some a ↦ k a ])
  Keeps-option none n k other kk = other refl
  Keeps-option (some a) n k other kk = kk a refl

module _ {S : Type 0} {Inv : S → Type 0} where
  pub Keeps-modify : (f : S → S) → ((s : S) → Inv s → Inv (f s)) → Keeps Inv (modify f)
  Keeps-modify f h = record { at = λ s p. (tt, h s p) }

module _ {S A B : Type 0} {Inv : S → Type 0} where
  continue-at :
      (r : Result A) (f : A → Act S B) (s : S)
      → IsSafe r
      → Inv s
      → ((a : A) → Keeps Inv (f a))
      → IsSafe (continue r f s).0 × Inv (continue r f s).1
  continue-at (ok a) f s safe h k = (k a).at s h
  continue-at err f s safe h k = (tt, h)
  continue-at crash f s safe h k = absurd safe

  pub Keeps-bind :
      (m : Act S A) (f : A → Act S B)
      → Keeps Inv m
      → ((a : A) → Keeps Inv (f a))
      → Keeps Inv (m >>= f)
  unfolding ◌>>=◌
  Keeps-bind m f first after = record {
    at =
        λ s h. let (r, s') = m s in let (safe, p) = first.at s h in continue-at r f s' safe p after;
  }

pub ruleset keeps_rules = (Keeps-pure, Keeps-fail, Keeps-gets, Keeps-if, Keeps-bind)
