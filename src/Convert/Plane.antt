-- ===== src/Convert/Plane.antt =====
-- Planes, memcpy, and the two byte shuffles of swconvertor.c.
pub mod Shuffle
use exynos.Common.{
  ℕ, zero, suc, ◌+◌, ◌-◌, ◌*◌, ◌/◌, Bool, true, false, ◌&&◌, ◌==◌, ltb, leb, if◌then◌else◌,
}

abbrev pub Plane : Type 0
Plane = ℕ → ℕ

abbrev pub store : Plane → ℕ → ℕ → Plane
store m p v q = if q == p then v else m q

-- `memcpy(dst + d, src + s, n)` between two objects.
unfoldable pub memcpy : Plane → ℕ → Plane → ℕ → ℕ → Plane
memcpy dst d src s n q = if leb d q && ltb q (d + n) then src (s + (q - d)) else dst q

-- `for (i = …; i < n; i++) { dest1[i] = src[i*2]; dest2[i] = src[i*2+1]; }`, the planes from
-- `d1`, `d2` and `s` on, `n` rounds left.
unfoldable pub deinterleave_loop : Plane → Plane → Plane → ℕ → ℕ → ℕ → ℕ → ℕ → Plane × Plane
deinterleave_loop dest1 dest2 src d1 d2 s zero i = (dest1, dest2)
deinterleave_loop dest1 dest2 src d1 d2 s (suc n) i =
    deinterleave_loop (store dest1 (d1 + i) (src (s + i * 2)))
      (store dest2 (d2 + i) (src (s + (i * 2 + 1)))) src d1 d2 s n (i + 1)

unfoldable pub csc_deinterleave_memcpy : Plane → ℕ → Plane → ℕ → Plane → ℕ → ℕ → Plane × Plane
unfolding deinterleave_loop
csc_deinterleave_memcpy dest1 d1 dest2 d2 src s src_size =
    deinterleave_loop dest1 dest2 src d1 d2 s (src_size / 2) 0

-- `for (i = …; i < n; i++) { dest[i*2] = src1[i]; dest[i*2+1] = src2[i]; }`
unfoldable pub interleave_loop : Plane → Plane → Plane → ℕ → ℕ → Plane
interleave_loop dest src1 src2 zero i = dest
interleave_loop dest src1 src2 (suc n) i =
    interleave_loop (store (store dest (i * 2) (src1 i)) (i * 2 + 1) (src2 i)) src1 src2 n (i + 1)

unfoldable pub csc_interleave_memcpy : Plane → Plane → Plane → ℕ → Plane
unfolding interleave_loop
csc_interleave_memcpy dest src1 src2 src_size = interleave_loop dest src1 src2 src_size 0
