-- ===== src/Edid/Blocks/Walk.antt =====
-- The loop over the bytes of a data block collection is the walk over its blocks.
use exynos.Common.{
  ℕ, zero, suc, ◌+◌, ◌*◌, ◌≤◌, ◌<◌, ◌≡◌, refl, sym, ap, ◌∙◌, Run, done, List, [], ◌∷◌, ◌++◌, length,
  get_or, All, some, arith, read_at-of_lt, lt→ltb, le→ltb, bit_and, bit_and-tag, bit_and-size,
  append_assoc, get_or-append_left, get_or-append_right, length-append,
}
use exynos.Edid.State.{State, block_size, byte}
use exynos.Edid.Blocks.{
  Step, next, ret, tag_mask, size_mask, scan_blocks, scan_fuel, scan_extension,
}
use exynos.Edid.Blocks.Encoding.{DataBlock, IsDataBlock, header, encode, walk, Layout}

header-lt : (b : DataBlock) → IsDataBlock b → header b < 256
header-lt b v = omega arith

tag-header : (b : DataBlock) → IsDataBlock b → bit_and (header b) tag_mask ≡ b.tag * 32
tag-header b v = bit_and-tag (header b) (header-lt b v) ∙ omega arith

size-header : (b : DataBlock) → IsDataBlock b → bit_and (header b) size_mask ≡ length b.payload
size-header b v = bit_and-size (header b) (header-lt b v) ∙ omega arith

pub byte-of_lt :
    (s : State) (d : List ℕ) (i : ℕ)
    → s.bytes ≡ some d
    → i < length d
    → byte s i ≡ done (get_or d i 0)
byte-of_lt s d i e h = rw (e, byte) (read_at-of_lt d i 0 h)

-- Reading `k` bytes behind a prefix.
pub byte-behind :
    (s : State) (before rest : List ℕ) (i k : ℕ)
    → s.bytes ≡ some (before ++ rest)
    → i ≡ length before + k
    → k < length rest
    → byte s i ≡ done (get_or rest k 0)
byte-behind s before rest i k e p h =
    byte-of_lt s (before ++ rest) i e (omega (arith, length-append {0} before rest))
    ∙ ap done (get_or-append_right before rest k i 0 p)

-- The detailed timing offset of an extension.
pub byte-dtd :
    (s : State) (extension : ℕ) (bs : List DataBlock) (l : Layout s extension bs)
    → byte s (extension * block_size + 2) ≡ done (4 + length (encode bs))
byte-dtd s extension bs l =
    byte-of_lt s (l.before ++ (encode bs ++ l.after)) _ l.bytes_eq
      (omega (arith, l.before_size, length-append {0} l.before (encode bs ++ l.after)))
    ∙ ap done (
        get_or-append_left l.before (encode bs ++ l.after) _ 0 (omega (arith, l.before_size))
        ∙ l.dtd)

module _ {S A : Type 0} (s : State) (body : ℕ → ℕ → ℕ → S → Run (Step S A))
    (g : ℕ → DataBlock → S → Step S A) where
  -- The body does at the block `b` what `g` says.
  abbrev pub Follows : Type 0
  Follows =
      (before after : List ℕ) (b : DataBlock) (offset : ℕ) (x : S)
      → s.bytes ≡ some (before ++ (header b ∷ (b.payload ++ after)))
      → offset ≡ length before
      → 3 ≤ length after
      → IsDataBlock b
      → body offset (b.tag * 32) (length b.payload + 1) x ≡ done (g offset b x)

  scan_blocks-walk :
      Follows
      → (bs : List DataBlock) (before after : List ℕ) (fuel offset end : ℕ) (x : S)
      → s.bytes ≡ some (before ++ (encode bs ++ after))
      → offset ≡ length before
      → end ≡ offset + length (encode bs)
      → length (encode bs) < fuel
      → 3 ≤ length after
      → All IsDataBlock bs
      → scan_blocks s body fuel offset end x ≡ done (walk g offset bs x)
  unfolding scan_blocks
  scan_blocks-walk f bs before after zero offset end x e p q h r v = absurd (omega arith)
  scan_blocks-walk f [] before after (suc fuel) offset end x e p q h r v =
      rw (le→ltb offset end (omega arith), scan_blocks)
  scan_blocks-walk f (b ∷ bs) before after (suc fuel) offset end x e p q h r v =
      rw
        (
          lt→ltb offset end (omega arith),
          byte-behind s before _ offset 0 e1 (omega arith) (omega arith),
          tag-header b v.0,
          size-header b v.0,
          f before (encode bs ++ after) b offset x e1 p
              (omega (arith, length-append {0} (encode bs) after)) v.0,
          scan_blocks,
        )
        (step (g offset b x) (bit_and (header b) size_mask + 1)
          (ap (λ (t : ℕ). t + 1) (size-header b v.0))
          (λ y.
            scan_blocks-walk f bs (before ++ (header b ∷ b.payload)) after fuel
              (offset + (length b.payload + 1)) end y e2
              (omega (arith, length-append {0} before (header b ∷ b.payload)))
              (omega (arith, length-append {0} b.payload (encode bs)))
              (omega (arith, length-append {0} b.payload (encode bs))) r v.1))
    where
      e1 : s.bytes ≡ some (before ++ (header b ∷ (b.payload ++ (encode bs ++ after))))
      e1 = e ∙ ap (λ t. some (before ++ (header b ∷ t))) (append_assoc b.payload (encode bs) after)

      e2 : s.bytes ≡ some ((before ++ (header b ∷ b.payload)) ++ (encode bs ++ after))
      e2 = e1 ∙ ap some (sym (append_assoc before (header b ∷ b.payload) (encode bs ++ after)))

      step :
          (r : Step S A) (len : ℕ)
          → len ≡ length b.payload + 1
          → ((y : S)
              → scan_blocks s body fuel (offset + (length b.payload + 1)) end y
                ≡ done (walk g (offset + (length b.payload + 1)) bs y))
          → ◌≡◌ {A = Run (Step S A)}
              (elim r [
                | next y ↦ scan_blocks s body fuel (offset + len) end y
                | ret a ↦ done (ret a)
              ])
              (done
                (elim r [ ret a ↦ ret a | next y ↦ walk g (offset + (length b.payload + 1)) bs y ]))
      step (next y) len w k = rw w (k y)
      step (ret a) len w k = refl

  -- So is the loop over an extension whose collection is `bs`.
  pub scan_extension-walk :
      Follows
      → (extension : ℕ) (bs : List DataBlock) (x : S) → Layout s extension bs
      → scan_extension s extension body x ≡ done (walk g (extension * block_size + 4) bs x)
  unfolding scan_extension
  scan_extension-walk f extension bs x l = rw (byte-dtd s extension bs l) (
      scan_blocks-walk f bs l.before l.after scan_fuel _ _ x l.bytes_eq
        (omega (arith, l.before_size)) (omega arith) (omega (arith, l.short)) l.room l.blocks)
