-- ===== src/Scaler/Index.antt =====
-- The choice of a device in exynos_gscaler.c.
use exynos.Common.{
  ℕ, zero, suc, ◌≤◌, ◌<◌, ◌≡◌, ◌⊎◌, inl, inr, refl, ◌||◌, Option, none, some, ◌==◌, ltb,
  if◌then◌else◌, arith, Bool-cases, ltb→lt, ==→eq, ltb→le,
}
use exynos.Common.Act.{Result, ok, err, crash, ◌>>=◌}
use exynos.Common.Act.Good.{Good, Good-bind, Good-if, Good-option}
use exynos.Scaler.Driver.{m2m_ctx_num, open_node, g_ctrl, Env}
use exynos.Scaler.Handle.{Session, ask, attempt}
use exynos.Scaler.Create.{m2m_node, ctx_count, ctx_counts, least, pick, get_gsc_idx}

-- The index that the loop starts with is not better.
least-start : (cnt : ℕ → ℕ) (n idx : ℕ) → cnt (least cnt n idx) ≤ cnt idx
unfolding least
least-start cnt zero idx = omega arith
least-start cnt (suc i) idx = elim (Bool-cases (ltb (cnt i) (cnt idx))) [
  | inl e ↦ rw e (
      let best = least-start cnt i i in
      let lt = ltb→lt (cnt i) (cnt idx) e in omega (arith, best, lt))
  | inr e ↦ rw e (least-start cnt i idx)
]

chosen-le : (cnt : ℕ → ℕ) (i idx : ℕ) → cnt (if ltb (cnt i) (cnt idx) then i else idx) ≤ cnt i
chosen-le cnt i idx = elim (Bool-cases (ltb (cnt i) (cnt idx))) [
  | inl e ↦ rw e (omega arith)
  | inr e ↦ rw e (ltb→le (cnt i) (cnt idx) e)
]

least-le : (cnt : ℕ → ℕ) (n idx j : ℕ) → j < n → cnt (least cnt n idx) ≤ cnt j
unfolding least
least-le cnt zero idx j h = absurd (omega (arith, h))
least-le cnt (suc i) idx j h = elim (Bool-cases (ltb j i)) [
  | inl e ↦ least-le cnt i (if ltb (cnt i) (cnt idx) then i else idx) j (ltb→lt j i e)
  | inr e ↦
      let last : j ≡ i = (let le = ltb→le j i e in omega (arith, le, h)) in
      let start = least-start cnt i (if ltb (cnt i) (cnt idx) then i else idx) in
      let chosen = chosen-le cnt i idx in rw last (omega (arith, start, chosen))
]

-- What `pick` gives: a device that nobody counts less on, or none as all have a hundred or more.
abbrev pub IsLeast : (ℕ → ℕ) → Option ℕ → Type 0
IsLeast cnt none = (j : ℕ) → j < 4 → 100 ≤ cnt j
IsLeast cnt (some i) = ((i ≡ 1) ⊎ (i ≡ 2)) × (cnt i < 100) × ((j : ℕ) → j < 4 → cnt i ≤ cnt j)

-- The index is one of those of the loop, or the one that it starts with.
least-below : (cnt : ℕ → ℕ) (n idx m : ℕ) → n ≤ m → idx < m → least cnt n idx < m
unfolding least
least-below cnt zero idx m h hi = hi
least-below cnt (suc i) idx m h hi = elim (Bool-cases (ltb (cnt i) (cnt idx))) [
  | inl e ↦ rw e (least-below cnt i i m (omega (arith, h)) (omega (arith, h)))
  | inr e ↦ rw e (least-below cnt i idx m (omega (arith, h)) hi)
]

middle : (cnt : ℕ → ℕ) (i : ℕ) → i < 4 → cnt 0 ≡ 100 → cnt 3 ≡ 100 → cnt i < 100 → (i ≡ 1) ⊎ (i ≡ 2)
middle cnt zero lt c0 c3 h = absurd (omega (arith, c0, h))
middle cnt (suc zero) lt c0 c3 h = inl refl
middle cnt (suc (suc zero)) lt c0 c3 h = inr refl
middle cnt (suc (suc (suc zero))) lt c0 c3 h = absurd (omega (arith, c3, h))
middle cnt (suc (suc (suc (suc n)))) lt c0 c3 h = absurd (omega (arith, lt))

pick-IsLeast : (cnt : ℕ → ℕ) → cnt 0 ≡ 100 → cnt 3 ≡ 100 → IsLeast cnt (pick cnt)
unfolding pick
pick-IsLeast cnt c0 c3 =
    let idx = least cnt 4 3 in
    let best : (j : ℕ) → j < 4 → cnt idx ≤ cnt j = λ j h. least-le cnt 4 3 j h in
    elim (Bool-cases (cnt idx == 100)) [
      | inl e ↦
          rw e (λ j h.
            let le = best j h in let full = ==→eq (cnt idx) 100 e in omega (arith, le, full))
      | inr e ↦ rw e (
          let le = best 3 (omega arith) in
          let less : cnt idx < 100 = ground arith in
          (
            middle cnt idx (least-below cnt 4 3 4 (omega arith) (omega arith)) c0 c3 less,
            less,
            best,
          ))
    ]

-- Asking a device never fails: one that cannot be asked counts as full.
ctx_count-Good : (env : Env) (i : ℕ) (s : Session) → Good (λ c t. Unit) (ctx_count env i s)
unfolding ctx_count ◌>>=◌ ask attempt
ctx_count-Good env i s = Good-if full (i == 0 || i == 3) _ _ s tt (
    Good-option full (m2m_node i) _ _ s tt (λ node.
      Good-option full (env.answer s.log (open_node node)) _ _ _ tt
        (λ fd. Good-option full (env.answer _ (g_ctrl (some fd) m2m_ctx_num)) _ _ _ tt (λ n. tt))))
  where
    full : ℕ → Session → Type 0
    full c t = Unit

ctx_counts-Good :
    (env : Env) (s : Session)
    → Good (λ cnt t. (cnt 0 ≡ 100) × (cnt 3 ≡ 100)) (ctx_counts env 4 0 (λ j. 0) s)
unfolding ctx_counts ctx_count ◌>>=◌
ctx_counts-Good env s =
    Good-bind (λ c t. Unit) _ (ctx_count env 1) _ s (ctx_count-Good env 1 s)
      (λ c1 t h.
        Good-bind (λ c t. Unit) _ (ctx_count env 2) _ t (ctx_count-Good env 2 t)
          (λ c2 u k. (refl, refl)))

value_of :
    {A : Type 0} (Q : A → Session → Type 0) (r : Result A) (t : Session)
    → Good Q (r, t)
    → (a : A) × (r ≡ ok a) × Q a t
value_of Q (ok a) t q = (a, refl, q)
value_of Q err t q = absurd q
value_of Q crash t q = absurd q

-- Looking for a device always gives an answer, and it is the best by the numbers of contexts that have been
-- read: device 1 or 2, with fewer than a hundred contexts and no more than any other, or none when every
-- device counts a hundred or more. Devices 0 and 3, which the displays use, are never chosen.
pub get_gsc_idx-IsLeast :
    (env : Env) (s : Session)
    → (cnt : ℕ → ℕ) × ((ctx_counts env 4 0 (λ j. 0) s).0 ≡ ok cnt)
      × ((get_gsc_idx env s).0 ≡ ok (pick cnt))
      × IsLeast cnt (pick cnt)
unfolding get_gsc_idx ◌>>=◌
get_gsc_idx-IsLeast env s =
    let counts = ctx_counts env 4 0 (λ j. 0) s in
    let (cnt, e, full) = value_of _ counts.0 counts.1 (ctx_counts-Good env s) in
    (cnt, e, rw e refl, pick-IsLeast cnt full.0 full.1)
