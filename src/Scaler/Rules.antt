-- ===== src/Scaler/Rules.antt =====
-- The rules by which an operation of the scaler keeps an invariant.
use exynos.Common.{ℕ, Option, none, some, List, [], ◌∷◌, ◌≡◌, refl}
use exynos.Common.Act.{Result, ok, err, crash, fail, gets, ignore, rescue, continue, ◌>>=◌}
use exynos.Common.Act.Keeps.{IsSafe, Keeps, Keeps-pure, Keeps-fail, Keeps-bind}
use exynos.Scaler.Driver.{Request, Event, Env}
use exynos.Scaler.Handle.{Session, Gsc, Op, call, attempt, ask, call_all, answered}

abbrev pub logged : Request → Option ℕ → Session → Session
logged r a s = record s { log = record { request = r; answer = a } ∷ s.log }

answered-IsSafe : (a : Option ℕ) → IsSafe (answered a)
answered-IsSafe none = tt
answered-IsSafe (some v) = tt

module _ {P : Session → Type 0} where
  pub Keeps-call :
      (env : Env) (r : Request)
      → ((a : Option ℕ) (s : Session) → P s → P (logged r a s))
      → Keeps P (call env r)
  unfolding call
  Keeps-call env r h = record {
    at = λ s p. (answered-IsSafe (env.answer s.log r), h (env.answer s.log r) s p);
  }

  pub Keeps-attempt :
      (env : Env) (r : Request)
      → ((a : Option ℕ) (s : Session) → P s → P (logged r a s))
      → Keeps P (attempt env r)
  unfolding attempt
  Keeps-attempt env r h = record { at = λ s p. (tt, h (env.answer s.log r) s p) }

  pub Keeps-ask :
      (env : Env) (r : Request)
      → ((a : Option ℕ) (s : Session) → P s → P (logged r a s))
      → Keeps P (ask env r)
  unfolding ask
  Keeps-ask env r h = record { at = λ s p. (tt, h (env.answer s.log r) s p) }

  -- What is read from a state with the invariant.
  pub Keeps-read :
      {A B : Type 0} (f : Session → A) (k : A → Gsc B)
      → ((s : Session) → P s → Keeps P (k (f s)))
      → Keeps P (gets f >>= k)
  unfolding ◌>>=◌
  Keeps-read f k h = record { at = λ s p. (h s p).at s p }

  -- The answer to a request, by what it can be.
  pub Keeps-reply :
      {B : Type 0} (env : Env) (r : Request) (k : ℕ → Gsc B)
      → ((a : Option ℕ) (s : Session) → P s → P (logged r a s))
      → ((log : List Event) (v : ℕ) → env.answer log r ≡ some v → Keeps P (k v))
      → Keeps P (call env r >>= k)
  unfolding call ◌>>=◌
  Keeps-reply env r k h next = record { at = λ s p. go s p (env.answer s.log r) refl }
    where
      go :
          (s : Session)
          → P s
          → (a : Option ℕ) → env.answer s.log r ≡ a
          → IsSafe (continue (answered a) k (logged r a s)).0
            × P (continue (answered a) k (logged r a s)).1
      go s p none e = (tt, h none s p)
      go s p (some v) e = (next s.log v e).at (logged r (some v) s) (h (some v) s p)

  pub Keeps-ignore : {A : Type 0} (m : Gsc A) → Keeps P m → Keeps P (ignore m)
  Keeps-ignore m k = record {
    at = λ s p. let (safe, q) = k.at s p in ignored (m s).0 (m s).1 safe q;
  }
    where
      ignored :
          {A : Type 0} (r : Result A) (t : Session)
          → IsSafe r
          → P t
          → IsSafe (ignore (λ (u : Session). (r, t)) t).0 × P (ignore (λ (u : Session). (r, t)) t).1
      ignored (ok a) t safe q = (tt, q)
      ignored err t safe q = (tt, q)
      ignored crash t safe q = absurd safe

  pub Keeps-call_all :
      (env : Env) (rs : List Request)
      → ((r : Request) → Keeps P (call env r))
      → Keeps P (call_all env rs)
  unfolding call_all
  Keeps-call_all env [] h = Keeps-pure tt
  Keeps-call_all env (r ∷ rs) h =
      Keeps-bind (call env r) (λ _. call_all env rs) (h r) (λ a. Keeps-call_all env rs h)

  pub Keeps-rescue :
      {A : Type 0} (clean_up : Op) (m : Gsc A)
      → Keeps P clean_up
      → Keeps P m
      → Keeps P (rescue clean_up m)
  Keeps-rescue clean_up m kc km = record {
    at = λ s p. let (safe, q) = km.at s p in rescued (m s).0 (m s).1 safe q;
  }
    where
      rescued :
          {A : Type 0} (r : Result A) (t : Session)
          → IsSafe r
          → P t
          → IsSafe (rescue clean_up (λ (u : Session). (r, t)) t).0
            × P (rescue clean_up (λ (u : Session). (r, t)) t).1
      rescued (ok a) t safe q = (tt, q)
      rescued err t safe q = (Keeps-bind clean_up (λ _. fail) kc (λ a. Keeps-fail)).at t q
      rescued crash t safe q = absurd safe
