-- ===== src/Convert/Plane/Shuffle.antt =====
-- What the two byte shuffles leave at each place, and that they undo one another.
use exynos.Common.{
  ℕ, zero, suc, ◌+◌, ◌-◌, ◌*◌, ◌/◌, ◌%◌, ◌<◌, ◌≡◌, Bool, ◌&&◌, ◌==◌, ltb, leb, if◌then◌else◌, arith,
}
use exynos.Convert.Plane.{
  Plane, store, deinterleave_loop, csc_deinterleave_memcpy, interleave_loop, csc_interleave_memcpy,
}

-- Whether `q` is one of the `n` places from `p` on.
abbrev pub within : ℕ → ℕ → ℕ → Bool
within p n q = leb p q && ltb q (p + n)

deinterleave_loop_first :
    (src : Plane) (d1 d2 s n i : ℕ) (dest1 dest2 : Plane) (q : ℕ)
    → (deinterleave_loop dest1 dest2 src d1 d2 s n i).0 q
      ≡ (if within (d1 + i) n q then src (s + (q - d1) * 2) else dest1 q)
unfolding deinterleave_loop
deinterleave_loop_first src d1 d2 s zero i dest1 dest2 q = ground arith
deinterleave_loop_first src d1 d2 s (suc n) i dest1 dest2 q = ground (
  arith,
  deinterleave_loop_first src d1 d2 s n (i + 1) (store dest1 (d1 + i) (src (s + i * 2)))
      (store dest2 (d2 + i) (src (s + (i * 2 + 1)))) q,
)

deinterleave_loop_second :
    (src : Plane) (d1 d2 s n i : ℕ) (dest1 dest2 : Plane) (q : ℕ)
    → (deinterleave_loop dest1 dest2 src d1 d2 s n i).1 q
      ≡ (if within (d2 + i) n q then src (s + ((q - d2) * 2 + 1)) else dest2 q)
unfolding deinterleave_loop
deinterleave_loop_second src d1 d2 s zero i dest1 dest2 q = ground arith
deinterleave_loop_second src d1 d2 s (suc n) i dest1 dest2 q = ground (
  arith,
  deinterleave_loop_second src d1 d2 s n (i + 1) (store dest1 (d1 + i) (src (s + i * 2)))
      (store dest2 (d2 + i) (src (s + (i * 2 + 1)))) q,
)

interleave_loop_lem :
    (src1 src2 : Plane) (n i : ℕ) (dest : Plane) (q : ℕ)
    → interleave_loop dest src1 src2 n i q ≡ (
        if within (i * 2) (n * 2) q
        then if q % 2 == 0 then src1 (q / 2) else src2 (q / 2)
        else dest q)
unfolding interleave_loop
interleave_loop_lem src1 src2 zero i dest q = ground arith
interleave_loop_lem src1 src2 (suc n) i dest q = ground (
  arith,
  interleave_loop_lem src1 src2 n (i + 1) (store (store dest (i * 2) (src1 i)) (i * 2 + 1) (src2 i))
      q,
)

-- csc_deinterleave_memcpy brings the bytes at even places behind `s` to the first target and those at
-- odd places to the second, half of `src_size` each, and changes nothing else.
pub deinterleave_lem :
    (dest1 dest2 src : Plane) (d1 d2 s src_size q : ℕ)
    → let r = csc_deinterleave_memcpy dest1 d1 dest2 d2 src s src_size in
      (r.0 q ≡ (if within d1 (src_size / 2) q then src (s + (q - d1) * 2) else dest1 q))
      × (r.1 q ≡ (if within d2 (src_size / 2) q then src (s + ((q - d2) * 2 + 1)) else dest2 q))
unfolding csc_deinterleave_memcpy
deinterleave_lem dest1 dest2 src d1 d2 s src_size q = (
  ground (arith, deinterleave_loop_first src d1 d2 s (src_size / 2) 0 dest1 dest2 q),
  ground (arith, deinterleave_loop_second src d1 d2 s (src_size / 2) 0 dest1 dest2 q),
)

-- Taking apart what csc_interleave_memcpy has made of `n` bytes each gives them back.
pub deinterleave-interleave :
    (dest src1 src2 out1 out2 : Plane) (n q : ℕ)
    → q < n
    → let r =
        csc_deinterleave_memcpy out1 0 out2 0 (csc_interleave_memcpy dest src1 src2 n) 0 (n * 2) in
      (r.0 q ≡ src1 q) × (r.1 q ≡ src2 q)
unfolding csc_interleave_memcpy
deinterleave-interleave dest src1 src2 out1 out2 n q h =
    let m = csc_interleave_memcpy dest src1 src2 n in
    let at = deinterleave_lem out1 out2 m 0 0 0 (n * 2) q in
    (
      ground (arith, at.0, interleave_loop_lem src1 src2 n 0 dest (0 + (q - 0) * 2)),
      ground (arith, at.1, interleave_loop_lem src1 src2 n 0 dest (0 + ((q - 0) * 2 + 1))),
    )
