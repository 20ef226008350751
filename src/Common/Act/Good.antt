-- ===== src/Common/Act/Good.antt =====
-- Total correctness: an action that succeeds, with what holds of its value and its state.
use mathlib.Core.Bool.{Bool, true, false}
use mathlib.Core.Option.{Option, none, some}
use exynos.Common.Tests.{if◌then◌else◌}
use exynos.Common.Act.{Result, ok, err, crash, Act, continue, ◌>>=◌}

abbrev pub Good : {S A : Type 0} → (A → S → Type 0) → Result A × S → Type 0
Good Q (ok a, t) = Q a t
Good Q (err, t) = ⊥
Good Q (crash, t) = ⊥

module _ {S A B : Type 0} where
  continue-Good :
      (Q : A → S → Type 0) (R : B → S → Type 0) (r : Result A) (t : S) (k : A → Act S B)
      → Good Q (r, t)
      → ((a : A) (u : S) → Q a u → Good R (k a u))
      → Good R (continue r k t)
  continue-Good Q R (ok a) t k h next = next a t h
  continue-Good Q R err t k h next = absurd h
  continue-Good Q R crash t k h next = absurd h

  pub Good-bind :
      (Q : A → S → Type 0) (R : B → S → Type 0) (m : Act S A) (k : A → Act S B) (s : S)
      → Good Q (m s)
      → ((a : A) (u : S) → Q a u → Good R (k a u))
      → Good R ((m >>= k) s)
  unfolding ◌>>=◌
  Good-bind Q R m k s h next = continue-Good Q R (m s).0 (m s).1 k h next

module _ {S A : Type 0} where
  pub Good-if :
      (Q : A → S → Type 0) (b : Bool) (m n : Act S A) (s : S)
      → Good Q (m s)
      → Good Q (n s)
      → Good Q ((if b then m else n) s)
  Good-if Q true m n s gm gn = gm
  Good-if Q false m n s gm gn = gn

module _ {S A B : Type 0} where
  pub Good-option :
      (Q : A → S → Type 0) (o : Option B) (n : Act S A) (k : B → Act S A) (s : S)
      → Good Q (n s)
      → ((b : B) → Good Q (k b s))
      → Good Q ((let m : Act S A = elim o [ none ↦ n | some b ↦ k b ] in m) s)
  Good-option Q none n k s gn gk = gn
  Good-option Q (some b) n k s gn gk = gk b
