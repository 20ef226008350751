-- ===== src/Encoder/Free.antt =====
-- The buffers of a port of the encoder that are not queued, and the search of ExynosVideoEncoder.c for one.
use exynos.Common.{
  ℕ, zero, suc, ◌≤◌, ◌≡◌, refl, sym, ap, ◌∙◌, Bool, true, false, not, ◌&&◌, Option, none, some,
  List, [], ◌∷◌, ltb, if◌then◌else◌, arith, lt→ltb, le→ltb,
}
use exynos.Decoder.Driver.{Buffer}
use exynos.Decoder.Buffers.{find_from, in_range, mark, plane_count, set_at}
use exynos.Decoder.Find.{find-next, next}
use exynos.Decoder.Pool.{queued_at}

-- The buffers that the client has.
unfoldable pub free_count : List Buffer → ℕ
free_count [] = 0
free_count (b ∷ bs) = let rest = free_count bs in if b.queued then rest else suc rest

-- What the search gives for any address.
abbrev pub Found : List Buffer → Option ℕ → Type 0
Found bs none = free_count bs ≡ 0
Found bs (some j) =
    (in_range j bs ≡ true)
    × (suc (free_count (set_at (mark true) j bs)) ≡ free_count bs)
    × (plane_count (set_at (mark true) j bs) ≡ plane_count bs)

pub find-Found : (bs : List Buffer) → Found bs (find_from 0 0 bs)
unfolding find_from free_count in_range set_at
find-Found [] = refl
find-Found (b ∷ bs) = go b.queued (find-Found bs)
  where
    shift : (o : Option ℕ) → Found bs o → Found (mark true b ∷ bs) (next o)
    shift none h = h
    shift (some j) h = (h.0, h.1, ap suc h.2)

    go :
        (q : Bool)
        → Found bs (find_from 0 0 bs)
        → Found (mark q b ∷ bs) (if not q && true then some 0 else find_from 0 1 bs)
    go false h = (refl, refl, refl)
    go true h = rw (find-next 0 0 bs) (shift (find_from 0 0 bs) h)

-- Keeping the flags keeps the count.
pub free_count-keep :
    (f : Buffer → Buffer) (j : ℕ) (bs : List Buffer)
    → ((b : Buffer) → (f b).queued ≡ b.queued)
    → (free_count (set_at f j bs) ≡ free_count bs) × (plane_count (set_at f j bs) ≡ plane_count bs)
unfolding free_count set_at
free_count-keep f j [] h = (refl, refl)
free_count-keep f zero (b ∷ bs) h = (rw (h b) refl, refl)
free_count-keep f (suc j) (b ∷ bs) h =
    let (e, e') = free_count-keep f j bs h in (rw e refl, ap suc e')

pub free_count-le : (bs : List Buffer) → free_count bs ≤ plane_count bs
unfolding free_count
free_count-le [] = omega arith
free_count-le (b ∷ bs) = ground (arith, free_count-le bs)

pub ltb-suc : (a b : ℕ) → ltb (suc a) (suc b) ≡ ltb a b
ltb-suc a b = ground arith

-- A buffer before the others that is not free.
one_more :
    (bs : List Buffer) (i : ℕ) (q : Bool)
    → ((j : ℕ) → free_count bs ≡ 0 → queued_at j bs ≡ ltb j (plane_count bs))
    → (if q then free_count bs else suc (free_count bs)) ≡ 0
    → (b : Buffer) → queued_at i (mark q b ∷ bs) ≡ ltb i (suc (plane_count bs))
unfolding queued_at
one_more bs i false rest h b = absurd (cc h)
one_more bs zero true rest h b = sym (lt→ltb 0 (suc (plane_count bs)) (omega arith))
one_more bs (suc i) true rest h b = rest i h ∙ sym (ltb-suc i (plane_count bs))

-- If no buffer is free, all have the flag.
pub all_queued :
    (bs : List Buffer) (i : ℕ) → free_count bs ≡ 0 → queued_at i bs ≡ ltb i (plane_count bs)
unfolding free_count queued_at
all_queued [] i e = sym (le→ltb i 0 (omega arith))
all_queued (b ∷ bs) i e = one_more bs i b.queued (all_queued bs) e b
