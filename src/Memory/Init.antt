-- ===== src/Memory/Init.antt =====
-- `memory_init` of src/kernel/mm/memory.c sets up a valid allocator with every page free.
use aqua_core.Prelude.{
  ℕ, ◌+◌, ◌-◌, ◌*◌, ◌/◌, ◌%◌, ◌^◌, ◌≤◌, ◌<◌, ◌≡◌, refl, true, false, not, bit_and, arith, leb, ◌==◌,
  Bool-cases, u32, add32, mul32, holds_below, holds_below→eq, inl, inr, subst,
}
use aqua_core.Commonlibs.Buffer.{memset, memset_lem}
use aqua_core.Memory.{Memory, Outcome, ok, panic, page_size, bitmap_test, memory_init}
use aqua_core.Memory.Bitmap.{AreBytes}
use aqua_core.Memory.Alloc.{IsValid}

zero_table : holds_below (λ k. not (bit_and (0 / 2 ^ k) 1 == 1)) 8 ≡ true
unfolding holds_below
zero_table = refl

zero_bit : (k : ℕ) → k < 8 → (bit_and (0 / 2 ^ k) 1 == 1) ≡ false
zero_bit k h = ground (arith, holds_below→eq _ 8 k zero_table h)

pub record Started (free_start free_end total : ℕ) (m : Memory) : Type 0 where
  pub valid : IsValid m
  -- The managed pages lie in the RAM that was given, behind a bitmap with a bit for each.
  pub above : free_start < m.managed_base
  pub below : m.managed_base + m.managed_pages * page_size ≤ free_end
  pub room : m.managed_pages ≤ 8 * (m.managed_base - free_start)
  pub total_is : total ≡ (free_end - free_start) / page_size
  pub all_free : (j : ℕ) → j < m.managed_pages → bitmap_test m.page_bitmap j ≡ false

abbrev InitSpec : ℕ → ℕ → Outcome (ℕ × Memory) → Type 0
InitSpec s e (ok (total, m)) = Started s e total m
InitSpec s e (panic p) = Unit

-- The pages that the bitmap takes.
abbrev bitmap_pages : ℕ → ℕ
bitmap_pages total = add32 (add32 total 7 / 8) (page_size - 1) / page_size

initial : ℕ → ℕ → Memory → ℕ → Memory
initial s total m pages = record {
  memory_initialized = true;
  page_bitmap = memset m.page_bitmap 0 0 (pages * page_size);
  managed_base = add32 s (mul32 pages page_size);
  managed_pages = total - pages;
  ram = m.ram;
}

initial-Started :
    (s e : ℕ) (m : Memory) (total pages : ℕ)
    → AreBytes m.page_bitmap
    → s % page_size ≡ 0
    → e < u32
    → s < e
    → total ≡ (e - s) / page_size
    → pages ≡ bitmap_pages total
    → 0 < total
    → pages < total
    → Started s e total (initial s total m pages)
unfolding initial bitmap_test
initial-Started s e m total pages bytes aligned fits ordered total_is pages_is pos small =
    let base : add32 s (mul32 pages page_size) ≡ s + pages * page_size = omega arith in
    let enough : total ≤ 8 * (pages * page_size) = omega arith in
    let cell = λ (i : ℕ). memset_lem m.page_bitmap 0 0 (pages * page_size) i in
    record {
      valid = record {
        initialized = refl;
        bytes = λ i. ground (arith, cell i, bytes i);
        aligned = omega (arith, base);
        bounded = omega (arith, base);
      };
      above = omega (arith, base);
      below = omega (arith, base);
      room = omega (arith, base, enough);
      total_is = total_is;
      all_free = λ j lt.
          let clear : memset m.page_bitmap 0 0 (pages * page_size) (j / 8) ≡ 0 =
            ground (arith, cell (j / 8), enough) in
          rw clear (zero_bit (j % 8) (omega arith));
    }

memory_init-InitSpec :
    (s e : ℕ) (m : Memory)
    → AreBytes m.page_bitmap
    → s % page_size ≡ 0
    → e < u32
    → InitSpec s e (memory_init s e m)
unfolding memory_init initial
memory_init-InitSpec s e m bytes aligned fits =
    let total : ℕ = (e - s) / page_size in
    elim (Bool-cases (leb e s)) [
      | inl bad ↦ rw bad tt
      | inr fine ↦ elim (Bool-cases (total == 0)) [
        | inl bad ↦ rw (fine, bad) tt
        | inr pos ↦ elim (Bool-cases (leb total (bitmap_pages total))) [
          | inl bad ↦ rw (fine, pos, bad) tt
          | inr small ↦
              rw (fine, pos, small)
                (initial-Started s e m total (bitmap_pages total) bytes aligned fits (ground arith)
                  refl refl (ground arith) (ground arith))
        ]
      ]
    ]

-- A start of the allocator that returns.
pub record Boots (free_start free_end : ℕ) (m : Memory) : Type 0 where
  pub total : ℕ
  pub memory : Memory
  pub returns : memory_init free_start free_end m ≡ ok (total, memory)
  pub started : Started free_start free_end total memory

bitmap_pages-small : (t : ℕ) → 2 ≤ t → t * page_size < u32 → bitmap_pages t < t
bitmap_pages-small t two fits = omega arith

memory_init-returns :
    (s e : ℕ) (m : Memory)
    → e < u32
    → s + 2 * page_size ≤ e
    → (r : ℕ × Memory) × (memory_init s e m ≡ ok r)
unfolding memory_init
memory_init-returns s e m fits two =
    let total : ℕ = (e - s) / page_size in
    let small = bitmap_pages-small total (omega arith) (omega arith) in
    let ordered : leb e s ≡ false = ground arith in
    let pos : (total == 0) ≡ false = ground arith in
    let room : leb total (bitmap_pages total) ≡ false = ground (arith, small) in
    rw (ordered, pos, room) (_, refl)

-- Started from an aligned RAM range of the 32-bit address space of at least two pages, `memory_init`
-- does not panic, and gives a valid allocator whose pages lie inside the range and behind the bitmap,
-- which has a bit for every page; all pages are free.
pub memory_init_lem :
    (free_start free_end : ℕ) (m : Memory)
    → AreBytes m.page_bitmap
    → free_start % page_size ≡ 0
    → free_end < u32
    → free_start + 2 * page_size ≤ free_end
    → Boots free_start free_end m
memory_init_lem s e m bytes aligned fits two =
    let ((total, m'), returns) = memory_init-returns s e m fits two in
    record {
      total = total;
      memory = m';
      returns = returns;
      started = subst (InitSpec s e) returns (memory_init-InitSpec s e m bytes aligned fits);
    }
