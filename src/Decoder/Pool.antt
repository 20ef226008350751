-- ===== src/Decoder/Pool.antt =====
-- The flags of the buffers under the changes of ExynosVideoDecoder.c.
use exynos.Common.{
  ℕ, zero, suc, ◌≡◌, refl, ap, Bool, true, false, not, Option, none, some, List, [], ◌∷◌,
  if◌then◌else◌,
}
use exynos.Decoder.Driver.{Buffer}
use exynos.Decoder.Buffers.{set_at, in_range, each, mark, register_in, buffer_at}

-- Equality of indices, by their constructors.
abbrev pub same : ℕ → ℕ → Bool
same zero zero = true
same zero (suc j) = false
same (suc i) zero = false
same (suc i) (suc j) = same i j

-- The flag of a buffer; there is none past the end.
unfoldable pub queued_at : ℕ → List Buffer → Bool
queued_at i [] = false
queued_at zero (b ∷ bs) = b.queued
queued_at (suc i) (b ∷ bs) = queued_at i bs

pub queued_at-range : (i : ℕ) (bs : List Buffer) → queued_at i bs ≡ true → in_range i bs ≡ true
unfolding queued_at in_range
queued_at-range i [] h = absurd (cc h)
queued_at-range zero (b ∷ bs) h = refl
queued_at-range (suc i) (b ∷ bs) h = queued_at-range i bs h

pub in_range-set_at :
    (f : Buffer → Buffer) (i j : ℕ) (bs : List Buffer) → in_range i (set_at f j bs) ≡ in_range i bs
unfolding in_range set_at
in_range-set_at f i j [] = refl
in_range-set_at f zero zero (b ∷ bs) = refl
in_range-set_at f (suc i) zero (b ∷ bs) = refl
in_range-set_at f zero (suc j) (b ∷ bs) = refl
in_range-set_at f (suc i) (suc j) (b ∷ bs) = in_range-set_at f i j bs

-- A change that gives the flag the value `q`.
pub queued_at-set_at :
    (f : Buffer → Buffer) (q : Bool) (i j : ℕ) (bs : List Buffer)
    → ((b : Buffer) → (f b).queued ≡ q)
    → in_range j bs ≡ true
    → queued_at i (set_at f j bs) ≡ (if same i j then q else queued_at i bs)
unfolding queued_at set_at in_range
queued_at-set_at f q i j [] h r = absurd (cc r)
queued_at-set_at f q zero zero (b ∷ bs) h r = h b
queued_at-set_at f q (suc i) zero (b ∷ bs) h r = refl
queued_at-set_at f q zero (suc j) (b ∷ bs) h r = refl
queued_at-set_at f q (suc i) (suc j) (b ∷ bs) h r = queued_at-set_at f q i j bs h r

-- A change that leaves the flag.
pub queued_at-keep :
    (f : Buffer → Buffer) (i j : ℕ) (bs : List Buffer)
    → ((b : Buffer) → (f b).queued ≡ b.queued)
    → queued_at i (set_at f j bs) ≡ queued_at i bs
unfolding queued_at set_at
queued_at-keep f i j [] h = refl
queued_at-keep f zero zero (b ∷ bs) h = h b
queued_at-keep f (suc i) zero (b ∷ bs) h = refl
queued_at-keep f zero (suc j) (b ∷ bs) h = refl
queued_at-keep f (suc i) (suc j) (b ∷ bs) h = queued_at-keep f i j bs h

pub queued_at-each :
    (f : Buffer → Buffer) (i : ℕ) (bs : List Buffer)
    → ((b : Buffer) → (f b).queued ≡ b.queued)
    → queued_at i (each f bs) ≡ queued_at i bs
unfolding queued_at each
queued_at-each f i [] h = refl
queued_at-each f zero (b ∷ bs) h = h b
queued_at-each f (suc i) (b ∷ bs) h = queued_at-each f i bs h

pub queued_at-cleared : (i : ℕ) (bs : List Buffer) → queued_at i (each (mark false) bs) ≡ false
unfolding queued_at each
queued_at-cleared i [] = refl
queued_at-cleared zero (b ∷ bs) = refl
queued_at-cleared (suc i) (b ∷ bs) = queued_at-cleared i bs

-- The flags of the buffers after a registration, if one is possible.
abbrev pub IsUnflagged : List Buffer → Option (List Buffer) → Type 0
IsUnflagged bs none = Unit
IsUnflagged bs (some cs) = (i : ℕ) → queued_at i cs ≡ queued_at i bs

pub register_in-IsUnflagged :
    (f : Buffer → Buffer) (bs : List Buffer)
    → ((b : Buffer) → (f b).queued ≡ b.queued)
    → IsUnflagged bs (register_in f bs)
unfolding queued_at register_in
register_in-IsUnflagged f [] h = tt
register_in-IsUnflagged f (b ∷ bs) h =
    go b.registered (register_in f bs) (register_in-IsUnflagged f bs h)
  where
    first : (i : ℕ) → queued_at i (f b ∷ bs) ≡ queued_at i (b ∷ bs)
    first zero = h b
    first (suc i) = refl

    other :
        (cs : List Buffer)
        → ((i : ℕ) → queued_at i cs ≡ queued_at i bs)
        → (i : ℕ) → queued_at i (b ∷ cs) ≡ queued_at i (b ∷ bs)
    other cs ih zero = refl
    other cs ih (suc i) = ih i

    go :
        (r : Bool) (o : Option (List Buffer))
        → IsUnflagged bs o
        → IsUnflagged
            (b ∷ bs)
            (if not r then some (f b ∷ bs) else elim o [ none ↦ none | some cs ↦ some (b ∷ cs) ])
    go false o ih = first
    go true none ih = tt
    go true (some cs) ih = other cs ih

-- The buffer that stands at a place.
pub queued_at-buffer :
    (i : ℕ) (bs : List Buffer) (b : Buffer)
    → buffer_at i bs ≡ some b
    → (queued_at i bs ≡ b.queued) × (in_range i bs ≡ true)
unfolding queued_at buffer_at in_range
queued_at-buffer i [] b e = absurd (cc e)
queued_at-buffer zero (c ∷ bs) b e =
    (ap (λ o. elim o [ none ↦ c.queued | some d ↦ d.queued ]) e, refl)
queued_at-buffer (suc i) (c ∷ bs) b e = queued_at-buffer i bs b e
