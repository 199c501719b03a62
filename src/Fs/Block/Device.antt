-- ===== src/Fs/Block/Device.antt =====
-- The blocks that the loops of src/kernel/fs/fs.c write to a device and read from it.
use aqua_core.Prelude.{
  ℕ, zero, suc, ◌+◌, ◌-◌, ◌*◌, ◌<◌, ◌≤◌, ◌≡◌, ◌≢◌, refl, sym, ap, subst, ◌∙◌, Bool, true, false,
  ◌&&◌, Option, none, some, arith, ltb, leb, Bool-cases, inl, inr, if-true, if-false, leb→le,
}
use native.Mathlib.Decide.{ℕ_discrete}
use aqua_core.Commonlibs.Buffer.{memset, memcpy, memcpy_lem}
use aqua_core.Fs.Block.{
  BlockDev, block_size, block_count, image_size, copy_len, image_block, write_blocks, read_blocks,
}

-- A device that works: a written block is kept, writing and reading leave the other blocks alone, and
-- reading returns what is kept. Writes may still fail.
pub record IsWorking {D : Type 0} (dev : BlockDev D) (kept : D → ℕ → ℕ → ℕ) : Type 0 where
  pub writes :
      (d : D) (i : ℕ) (block : ℕ → ℕ) (k : ℕ)
      → k < block_size
      → (dev.blockdev_write d i block).0 ≡ true
      → kept (dev.blockdev_write d i block).1 i k ≡ block k
  pub leaves :
      (d : D) (i j : ℕ) (block : ℕ → ℕ) (k : ℕ)
      → i ≢ j
      → kept (dev.blockdev_write d i block).1 j k ≡ kept d j k
  pub reads :
      (d : D) (i : ℕ)
      → i < block_count
      → (block : ℕ → ℕ) × ((dev.blockdev_read d i).0 ≡ some block)
        × ((k : ℕ) → k < block_size → block k ≡ kept d i k)
  pub reading : (d : D) (i j k : ℕ) → kept (dev.blockdev_read d i).1 j k ≡ kept d j k

-- Block i is kept as the image's block, as far as the image reaches.
abbrev pub Holds : (ℕ → ℕ → ℕ) → (ℕ → ℕ) → ℕ → Type 0
Holds blocks src i =
    (k : ℕ)
    → k < block_size
    → i * block_size + k < image_size
    → blocks i k ≡ src (i * block_size + k)

the_offset : (n : ℕ) → 0 + n ≡ n
the_offset n = omega arith

pub some_injective {ℓ} : {A : Type ℓ} {a b : A} → some a ≡ some b → a ≡ b
some_injective h = cc

copy_len-lt : (i k : ℕ) → k < block_size → i * block_size + k < image_size → k < copy_len i
copy_len-lt i k lt inside = ground arith

image_block-byte :
    (src : ℕ → ℕ) (i k : ℕ)
    → k < block_size
    → i * block_size + k < image_size
    → image_block src i k ≡ src (i * block_size + k)
unfolding image_block
image_block-byte src i k lt inside =
    let long : k < copy_len i = copy_len-lt i k lt inside in
    let at : (leb 0 k && ltb k (0 + copy_len i)) ≡ true = ground arith in
    let back : i * block_size + (k - 0) ≡ i * block_size + k = omega arith in
    memcpy_lem (memset (λ m. 0) 0 0 block_size) 0 src (i * block_size) (copy_len i) k
    ∙ if-true _ _ at
    ∙ ap src back

module _ {D : Type 0} (dev : BlockDev D) (kept : D → ℕ → ℕ → ℕ) (w : IsWorking dev kept) where
  write_blocks-below :
      (src : ℕ → ℕ) (n i j k : ℕ) (d : D)
      → j < i
      → kept (write_blocks dev src n i d).1 j k ≡ kept d j k
  unfolding write_blocks
  write_blocks-below src zero i j k d lt = refl
  write_blocks-below src (suc n) i j k d lt =
      let step = dev.blockdev_write d i (image_block src i) in
      let left = w.leaves d i j (image_block src i) k (λ e. omega arith) in
      elim (Bool-cases step.0) [
        | inl e ↦ rw e (write_blocks-below src n (i + 1) j k step.1 (omega arith) ∙ left)
        | inr e ↦ rw e left
      ]

  pub write_blocks-Holds :
      (src : ℕ → ℕ) (n i : ℕ) (d : D)
      → (write_blocks dev src n i d).0 ≡ true
      → (j : ℕ) → i ≤ j
      → j < i + n
      → Holds (kept (write_blocks dev src n i d).1) src j
  unfolding write_blocks
  write_blocks-Holds src zero i d h j lo hi = absurd (omega arith)
  write_blocks-Holds src (suc n) i d h j lo hi =
      let block = image_block src i in
      let step = dev.blockdev_write d i block in
      let rest = write_blocks dev src n (i + 1) step.1 in
      elim (Bool-cases step.0) [
        | inr e ↦ cc (ap (λ (r : Bool × D). r.0) (if-false rest (false, step.1) e), h)
        | inl e ↦
            let whole : write_blocks dev src (suc n) i d ≡ rest = if-true rest (false, step.1) e in
            let h' : rest.0 ≡ true = ap (λ (r : Bool × D). r.0) (sym whole) ∙ h in
            subst (λ (r : Bool × D). Holds (kept r.1) src j) (sym whole)
              (elim (ℕ_discrete i j) [
                | yes same ↦ subst (Holds (kept rest.1) src) same (λ k lt inside.
                    write_blocks-below src n (i + 1) i k step.1 (omega arith)
                    ∙ w.writes d i block k lt e
                    ∙ image_block-byte src i k lt inside)
                | no other ↦
                    write_blocks-Holds src n (i + 1) step.1 h' j (omega arith) (omega arith)
              ])
      ]

  -- The bytes in place after block i has been copied.
  copied :
      (src dst block : ℕ → ℕ) (i : ℕ)
      → ((k : ℕ)
          → k < block_size
          → i * block_size + k < image_size
          → block k ≡ src (i * block_size + k))
      → ((p : ℕ) → p < i * block_size → p < image_size → dst p ≡ src p)
      → (p : ℕ) → p < (i + 1) * block_size
      → p < image_size
      → memcpy dst (i * block_size) block 0 (copy_len i) p ≡ src p
  copied src dst block i holds before p lt inside =
      let at = leb (i * block_size) p && ltb p (i * block_size + copy_len i) in
      memcpy_lem dst (i * block_size) block 0 (copy_len i) p
      ∙ elim (Bool-cases (leb (i * block_size) p)) [
        | inl e ↦
            let lo : i * block_size ≤ p = leb→le (i * block_size) p e in
            let sum : i * block_size + (p - i * block_size) ≡ p = omega arith in
            let long = copy_len-lt i (p - i * block_size) (omega arith) (omega arith) in
            let yes_at : at ≡ true = ground arith in
            if-true _ _ yes_at
            ∙ ap block (the_offset (p - i * block_size))
            ∙ holds (p - i * block_size) (omega arith) (omega arith)
            ∙ ap src sum
        | inr e ↦
            let below : p < i * block_size = ground arith in
            let no_at : at ≡ false = ground arith in if-false _ _ no_at ∙ before p below inside
      ]

  pub read_blocks-whole :
      (src : ℕ → ℕ) (n i : ℕ) (dst : ℕ → ℕ) (d : D)
      → i + n ≤ block_count
      → ((j : ℕ) → i ≤ j → j < i + n → Holds (kept d) src j)
      → ((p : ℕ) → p < i * block_size → p < image_size → dst p ≡ src p)
      → (img : ℕ → ℕ) × ((read_blocks dev n i dst d).0 ≡ some img)
        × ((p : ℕ) → p < (i + n) * block_size → p < image_size → img p ≡ src p)
  unfolding read_blocks
  read_blocks-whole src zero i dst d hi holds before =
      (dst, refl, λ p lt inside. before p (omega arith) inside)
  read_blocks-whole src (suc n) i dst d hi holds before =
      let (block, got, same) = w.reads d i (omega arith) in
      let d' = (dev.blockdev_read d i).1 in
      let dst' = memcpy dst (i * block_size) block 0 (copy_len i) in
      let kept_same : (j : ℕ) → Holds (kept d) src j → Holds (kept d') src j =
        λ j h k lt inside. w.reading d i j k ∙ h k lt inside in
      let (img, rest, whole) =
        read_blocks-whole src n (i + 1) dst' d' (omega arith)
          (λ j lo hi'. kept_same j (holds j (omega arith) (omega arith)))
          (copied src dst block i
            (λ k lt inside. same k lt ∙ holds i (omega arith) (omega arith) k lt inside) before) in
      let next : read_blocks dev (suc n) i dst d ≡ read_blocks dev n (i + 1) dst' d' =
        ap
          (λ (o : Option (ℕ → ℕ)). elim o [
            | none ↦ (none, d')
            | some b ↦ read_blocks dev n (i + 1) (memcpy dst (i * block_size) b 0 (copy_len i)) d'
          ])
          got in
      (
        img,
        ap (λ (r : Option (ℕ → ℕ) × D). r.0) next ∙ rest,
        λ p lt inside. whole p (omega arith) inside,
      )
