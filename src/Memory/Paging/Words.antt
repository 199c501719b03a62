-- ===== src/Memory/Paging/Words.antt =====
-- The words of the page tables in the RAM, as src/kernel/mm/memory.c reads and writes them.
use aqua_core.Prelude.{
  ℕ, ◌+◌, ◌-◌, ◌*◌, ◌/◌, ◌%◌, ◌^◌, ◌≤◌, ◌<◌, ◌≡◌, ◌≢◌, refl, ap, ◌∙◌, true, false, ◌&&◌, bit_or,
  arith, ltb, leb, Bool-cases, ltb→lt, ltb-false→le, inl, inr, bit_or-one, bit_or-low, if-true,
  if-false, ◌⊎◌,
}
use aqua_core.Memory.Paging.{page_v, read_word, write_word, entry_address, frame_bits}

byte_here :
    (ram : ℕ → ℕ) (a w j k : ℕ) → j ≡ a + k → k < 4 → write_word ram a w j ≡ w / 256 ^ k % 256
unfolding write_word
byte_here ram a w j k at lt =
    let inside : (leb a j && ltb j (a + 4)) ≡ true = ground arith in
    let e : j - a ≡ k = omega arith in if-true _ _ inside ∙ ap (λ n. w / 256 ^ n % 256) e

byte_other : (ram : ℕ → ℕ) (a w j : ℕ) → (j < a) ⊎ (a + 4 ≤ j) → write_word ram a w j ≡ ram j
unfolding write_word
byte_other ram a w j h =
    let outside : (leb a j && ltb j (a + 4)) ≡ false = ground arith in if-false _ _ outside

-- A word that is written is read again.
pub read_word-write_word :
    (ram : ℕ → ℕ) (a w : ℕ) → w < 2 ^ 32 → read_word (write_word ram a w) a ≡ w
unfolding read_word
read_word-write_word ram a w lt = omega (
  arith,
  byte_here ram a w a 0 (omega arith) (omega arith),
  byte_here ram a w (a + 1) 1 refl (omega arith),
  byte_here ram a w (a + 2) 2 refl (omega arith),
  byte_here ram a w (a + 3) 3 refl (omega arith),
)

-- A write leaves the words apart from it alone.
pub read_word-other :
    (ram : ℕ → ℕ) (a b w : ℕ)
    → (b + 4 ≤ a) ⊎ (a + 4 ≤ b)
    → read_word (write_word ram a w) b ≡ read_word ram b
unfolding read_word
read_word-other ram a b w (inl h) = omega (
  arith,
  byte_other ram a w b (inl (omega arith)),
  byte_other ram a w (b + 1) (inl (omega arith)),
  byte_other ram a w (b + 2) (inl (omega arith)),
  byte_other ram a w (b + 3) (inl (omega arith)),
)
read_word-other ram a b w (inr h) = omega (
  arith,
  byte_other ram a w b (inr (omega arith)),
  byte_other ram a w (b + 1) (inr (omega arith)),
  byte_other ram a w (b + 2) (inr (omega arith)),
  byte_other ram a w (b + 3) (inr (omega arith)),
)

-- The entry for a page: its frame, the flags and the bit that it is valid.
abbrev pub page_entry : ℕ → ℕ → ℕ
page_entry paddr flags = bit_or (bit_or (frame_bits paddr) flags) page_v

pub page_entry_lem :
    (paddr flags : ℕ)
    → paddr < 2 ^ 32
    → flags < 1024
    → page_entry paddr flags ≡ paddr / 4096 * 1024 + flags / 2 * 2 + 1
page_entry_lem paddr flags small low =
    let frame : frame_bits paddr ≡ 2 ^ 10 * (paddr / 4096) = omega arith in
    let with_flags : bit_or (frame_bits paddr) flags ≡ 2 ^ 10 * (paddr / 4096) + flags =
      ap (λ f. bit_or f flags) frame ∙ bit_or-low 10 (paddr / 4096) flags low in
    ap (λ e. bit_or e 1) with_flags ∙ bit_or-one (2 ^ 10 * (paddr / 4096) + flags) ∙ omega arith

-- Aligned tables that differ do not overlap.
pub apart :
    (t1 x i j : ℕ)
    → t1 % 4096 ≡ 0
    → entry_address x ≢ t1
    → i < 1024
    → j < 1024
    → (t1 + 4 * i + 4 ≤ entry_address x + 4 * j) ⊎ (entry_address x + 4 * j + 4 ≤ t1 + 4 * i)
apart t1 x i j aligned ne lt lt' =
    let p = t1 / 4096 in
    let q = x / 2 ^ 10 * 4096 % 2 ^ 32 / 4096 in
    let t : t1 ≡ 4096 * p = omega arith in
    let u : entry_address x ≡ 4096 * q = omega arith in
    elim (Bool-cases (ltb p q)) [
      | inl less ↦ inl (omega (arith, t, u, ltb→lt p q less))
      | inr more ↦
          let other : p ≢ q = λ e. ne (omega (arith, t, u, e)) in
          inr (omega (arith, t, u, ltb-false→le p q more, other))
    ]
