-- ===== src/Edid/Blocks/Search.antt =====
-- IsContainVIC and GetVSDBOffset on a data block collection.
use native.Mathlib.Numerals.{add-one}
use exynos.Common.{
  ℕ, ◌+◌, ◌*◌, ◌%◌, ◌≤◌, ◌<◌, ◌≡◌, refl, sym, ap, ◌∙◌, done, List, [], ◌∷◌, ◌++◌, length, get_or,
  All, some, arith, ltb, ◌==◌, bit_and-vic, Bool, false, ◌&&◌, ◌||◌, append_assoc, if◌then◌else◌,
  le→ltb, length-append,
}
use exynos.Edid.State.{State, block_size, byte, edid_valid}
use exynos.Edid.Blocks.{Step, next, ret, svd_loop, vic_body, is_contain_vic}
use exynos.Edid.Blocks.Encoding.{DataBlock, header, walk, Layout}
use exynos.Edid.Blocks.Walk.{Follows, byte-behind, byte-dtd, scan_extension-walk}

-- Whether one of the descriptors has the code.
unfoldable pub has_code : ℕ → List ℕ → Bool
has_code vic [] = false
has_code vic (x ∷ xs) = vic == x % 128 || has_code vic xs

-- Whether a video data block of the collection has it.
unfoldable pub offers_vic : ℕ → List DataBlock → Bool
offers_vic vic [] = false
offers_vic vic (b ∷ bs) = (b.tag == 2 && has_code vic b.payload) || offers_vic vic bs

svd_loop-has_code :
    (s : State) (vic addr i : ℕ) (before xs rest : List ℕ)
    → s.bytes ≡ some (before ++ (xs ++ rest))
    → addr + i ≡ length before
    → All (λ x. x < 256) xs
    → svd_loop s vic addr (length xs) i ≡ done (has_code vic xs)
unfolding svd_loop has_code
svd_loop-has_code s vic addr i before [] rest e p v = refl
svd_loop-has_code s vic addr i before (x ∷ xs) rest e p v =
    let read : byte s (addr + i) ≡ done x =
      byte-behind s before (x ∷ (xs ++ rest)) (addr + i) 0 e (omega arith) (omega arith) in
    let e' = e ∙ ap some (sym (append_assoc before (x ∷ []) (xs ++ rest))) in
    ground (
      arith,
      read,
      bit_and-vic x v.0,
      svd_loop-has_code s vic addr (i + 1) (before ++ (x ∷ [])) xs rest e'
          (omega (arith, length-append {0} before (x ∷ []))) v.1,
    )

module _ (s : State) (vic : ℕ) where
  abbrev vic_step : ℕ → DataBlock → Unit {0} → Step (Unit {0}) (Unit {0})
  vic_step offset b x = if b.tag == 2 && has_code vic b.payload then ret tt else next tt

  vic_body-Follows : Follows s (vic_body s vic) vic_step
  unfolding vic_body
  vic_body-Follows before after b offset x e p r v =
      let loop =
        svd_loop-has_code s vic offset 1 (before ++ (header b ∷ [])) b.payload after
          (e ∙ ap some (sym (append_assoc before (header b ∷ []) (b.payload ++ after))))
          (omega (arith, length-append {0} before (header b ∷ []))) v.small in
      rw (add-one (length b.payload)) (ground (arith, loop))

  walk-vic :
      (bs : List DataBlock) (offset : ℕ)
      → walk vic_step offset bs tt ≡ (if offers_vic vic bs then ret tt else next tt)
  unfolding offers_vic
  walk-vic [] offset = refl
  walk-vic (b ∷ bs) offset = ground (arith, walk-vic bs (offset + (length b.payload + 1)))

  -- On an extension whose data block collection is `bs`, IsContainVIC returns, and says whether a
  -- video data block has the code.
  pub is_contain_vic-offers_vic :
      (extension : ℕ) (bs : List DataBlock)
      → extension ≤ s.extensions
      → Layout s extension bs
      → is_contain_vic s extension vic ≡ done (offers_vic vic bs)
  unfolding is_contain_vic edid_valid
  is_contain_vic-offers_vic extension bs h l =
      rw
        (
          is_contain_vic,
          byte-dtd s extension bs l,
          l.bytes_eq,
          le→ltb s.extensions extension h,
          scan_extension-walk s (vic_body s vic) vic_step vic_body-Follows extension bs tt l,
          walk-vic bs (extension * block_size + 4),
        )
        (ground arith)

-- An HDMI vendor specific block: its identifier is 0x000C03, least byte first, and an address and
-- a feature byte follow.
unfoldable pub is_hdmi : DataBlock → Bool
is_hdmi b =
    b.tag == 3
    && (get_or b.payload 0 0 == 0x03
        && (get_or b.payload 1 0 == 0x0c
            && (get_or b.payload 2 0 == 0x00 && ltb 4 (length b.payload))))

-- The offset of the first such block of a collection that begins at `offset`, 0 if there is none.
unfoldable pub hdmi_offset : ℕ → List DataBlock → ℕ
hdmi_offset offset [] = 0
hdmi_offset offset (b ∷ bs) =
    if is_hdmi b then offset else hdmi_offset (offset + (length b.payload + 1)) bs

module _ (s : State) where
  abbrev vsdb_step : ℕ → DataBlock → Unit {0} → Step (Unit {0}) ℕ
  vsdb_step offset b x = if is_hdmi b then ret offset else next tt
