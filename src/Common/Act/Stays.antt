-- ===== src/Common/Act/Stays.antt =====
-- How a C function keeps a property of the state, even if it crashes, by the way it is put together.
use mathlib.Core.Bool.{Bool, true, false}
use mathlib.Core.Option.{Option, none, some}
use exynos.Common.Tests.{if◌then◌else◌}
use exynos.Common.Act.{Result, ok, err, crash, Act, pure, fail, gets, continue, ignore, ◌>>=◌}

-- The state that the action leaves has `P` if the state before had.
pub record Stays {S A : Type 0} (P : S → Type 0) (m : Act S A) : Type 0 where
  pub at : (s : S) → P s → P (m s).1

module _ {S A : Type 0} {P : S → Type 0} where
  pub Stays-pure : (a : A) → Stays P (pure a)
  Stays-pure a = record { at = λ s p. p }

  pub Stays-fail : Stays P (fail {A = A})
  Stays-fail = record { at = λ s p. p }

  pub Stays-gets : (f : S → A) → Stays P (gets f)
  Stays-gets f = record { at = λ s p. p }

  pub Stays-if :
      (test : Bool) (then_act else_act : Act S A)
      → Stays P then_act
      → Stays P else_act
      → Stays P (if test then then_act else else_act)
  Stays-if true then_act else_act first other = first
  Stays-if false then_act else_act first other = other

  pub Stays-ignore : (m : Act S A) → Stays P m → Stays P (ignore m)
  Stays-ignore m k = record { at = λ s p. ignored (m s).0 (m s).1 (k.at s p) }
    where
      ignored : (r : Result A) (t : S) → P t → P (ignore (λ (u : S). (r, t)) t).1
      ignored (ok a) t p = p
      ignored err t p = p
      ignored crash t p = p

module _ {S A B : Type 0} {P : S → Type 0} where
  pub Stays-option :
      (o : Option A) (n : Act S B) (k : A → Act S B)
      → Stays P n
      → ((a : A) → Stays P (k a))
      → Stays P (elim o [ none ↦ n | some a ↦ k a ])
  Stays-option none n k kn kk = kn
  Stays-option (some a) n k kn kk = kk a

  continue-Stays :
      (r : Result A) (f : A → Act S B) (s : S)
      → P s
      → ((a : A) → Stays P (f a))
      → P (continue r f s).1
  continue-Stays (ok a) f s p k = (k a).at s p
  continue-Stays err f s p k = p
  continue-Stays crash f s p k = p

  pub Stays-bind :
      (m : Act S A) (f : A → Act S B) → Stays P m → ((a : A) → Stays P (f a)) → Stays P (m >>= f)
  unfolding ◌>>=◌
  Stays-bind m f km kf = record { at = λ s p. continue-Stays (m s).0 f (m s).1 (km.at s p) kf }

  pub Stays-read :
      (f : S → A) (k : A → Act S B) → ((s : S) → P s → Stays P (k (f s))) → Stays P (gets f >>= k)
  unfolding ◌>>=◌
  Stays-read f k h = record { at = λ s p. (h s p).at s p }

pub ruleset stays_rules = (Stays-pure, Stays-fail, Stays-gets, Stays-if, Stays-bind)
