-- ===== src/Decoder/Find.antt =====
-- The search for a free buffer in ExynosVideoDecoder.c.
use exynos.Common.{
  ℕ, zero, suc, ◌+◌, ◌<◌, ◌≡◌, refl, sym, ap, ◌∙◌, Bool, true, false, not, ◌&&◌, ◌||◌, Option, none,
  some, List, [], ◌∷◌, ◌==◌, if◌then◌else◌, arith,
}
use exynos.Decoder.Driver.{Buffer}
use exynos.Decoder.Buffers.{find_from, buffer_at}

-- A buffer that may be queued for this address.
abbrev pub is_free : ℕ → Buffer → Bool
is_free addr b = not b.queued && (addr == 0 || b.plane0.addr == addr)

-- What the search should give: the first free buffer, or none if there is none.
abbrev pub IsFirstFree : ℕ → List Buffer → Option ℕ → Type 0
IsFirstFree addr bs none = (i : ℕ) (b : Buffer) → buffer_at i bs ≡ some b → is_free addr b ≡ false
IsFirstFree addr bs (some k) =
    ((b : Buffer) × (buffer_at k bs ≡ some b) × (is_free addr b ≡ true))
    × ((i : ℕ) (b : Buffer) → i < k → buffer_at i bs ≡ some b → is_free addr b ≡ false)

abbrev pub next : Option ℕ → Option ℕ
next none = none
next (some k) = some (suc k)

pub find-next :
    (addr n : ℕ) (bs : List Buffer) → find_from addr (n + 1) bs ≡ next (find_from addr n bs)
unfolding find_from
find-next addr n [] = refl
find-next addr n (b ∷ bs) =
    go (is_free addr b) (find_from addr (n + 1 + 1) bs) (find_from addr (n + 1) bs)
      (find-next addr (n + 1) bs)
  where
    go :
        (c : Bool) (o o' : Option ℕ)
        → o ≡ next o'
        → (if c then some (n + 1) else o) ≡ next (if c then some n else o')
    go true o o' e = ap some (omega arith)
    go false o o' e = e

some_eq : (a b : Buffer) → some a ≡ some b → a ≡ b
some_eq a b e = ap (λ o. elim o [ none ↦ a | some c ↦ c ]) e

step :
    (addr : ℕ) (b : Buffer) (bs : List Buffer) (c : Bool) (o : Option ℕ)
    → is_free addr b ≡ c
    → IsFirstFree addr bs o
    → IsFirstFree addr (b ∷ bs) (if c then some 0 else next o)
unfolding buffer_at
step addr b bs true o e h = ((b, refl, e), λ i c lt at. absurd (omega (arith, lt)))
step addr b bs false none e h = none_free
  where
    none_free : (i : ℕ) (c : Buffer) → buffer_at i (b ∷ bs) ≡ some c → is_free addr c ≡ false
    none_free zero c at = ap (is_free addr) (some_eq c b (sym at)) ∙ e
    none_free (suc i) c at = h i c at
step addr b bs false (some k) e h = (h.0, earlier)
  where
    earlier :
        (i : ℕ) (c : Buffer) → i < suc k → buffer_at i (b ∷ bs) ≡ some c → is_free addr c ≡ false
    earlier zero c lt at = ap (is_free addr) (some_eq c b (sym at)) ∙ e
    earlier (suc i) c lt at = h.1 i c (omega (arith, lt)) at

-- The search for a buffer to queue gives the first one that is not queued and has the address that is asked
-- for, or any address if that is NULL, and it gives none only if there is no such buffer.
pub find_from-IsFirstFree :
    (addr : ℕ) (bs : List Buffer) → IsFirstFree addr bs (find_from addr 0 bs)
unfolding find_from buffer_at
find_from-IsFirstFree addr [] = λ i b at. absurd (cc at)
find_from-IsFirstFree addr (b ∷ bs) =
    rw (find-next addr 0 bs)
      (step addr b bs (is_free addr b) (find_from addr 0 bs) refl (find_from-IsFirstFree addr bs))
