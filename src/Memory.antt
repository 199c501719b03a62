-- ===== src/Memory.antt =====
-- src/kernel/mm/memory.c: the page allocator over a bitmap.
-- The bitmap is an array of bytes of its own: it lies below `managed_base`, in pages that the
-- allocator never hands out. `__free_ram` and `__free_ram_end` of the linker script are arguments.
-- A PANIC, which stops the machine, is the outcome `panic`.
pub mod Bitmap
pub mod Scan
pub mod Alloc
pub mod Free
pub mod Init
pub mod Paging
mod Tests
use aqua_core.Prelude.{
  ℕ, zero, suc, ◌+◌, ◌-◌, ◌*◌, ◌/◌, ◌%◌, ◌^◌, ◌≤◌, ◌<◌, bit_and, bit_or, ◌≡◌, Bool, true, false,
  Option, none, some, ◌||◌, ltb, leb, ◌==◌, if◌then◌else◌, update, add32, mul32, u32, ℤ, pos,
  negsuc, minus_one, index_below,
}
use aqua_core.Commonlibs.Buffer.{memset}

abbrev pub page_size : ℕ
page_size = 4096

-- The messages with which the allocator, `map_page` and `process_kill` stop the kernel.
pub data Panic : Type 0 where
  invalid_ram no_pages bitmap_too_large not_initialized bad_count out_of_memory : Panic
  zero_count unaligned before_base out_of_range double_free : Panic
  unaligned_vaddr unaligned_paddr killed_resumed : Panic

pub data Outcome {ℓ} (A : Type ℓ) : Type ℓ where
  ok : A → Outcome A
  panic : Panic → Outcome A

-- The bind of `do` blocks: a PANIC ends them.
infixl 5 ◌>>=◌
abbrev pub ◌>>=◌ {ℓ κ} : {A : Type ℓ} {B : Type κ} → Outcome A → (A → Outcome B) → Outcome B
ok a >>= f = f a
panic p >>= f = panic p

pub record Memory : Type 0 where
  pub memory_initialized : Bool
  pub page_bitmap : ℕ → ℕ
  pub managed_base : ℕ
  pub managed_pages : ℕ
  pub ram : ℕ → ℕ

unfoldable pub bitmap_test : (ℕ → ℕ) → ℕ → Bool
bitmap_test bitmap idx = bit_and (bitmap (idx / 8) / 2 ^ (idx % 8)) 1 == 1

unfoldable pub bitmap_set : (ℕ → ℕ) → ℕ → ℕ → ℕ
bitmap_set bitmap idx = update bitmap (idx / 8) (bit_or (bitmap (idx / 8)) (2 ^ (idx % 8)))

-- `(uint8_t) ~(1u << k)` is 255 - 2 ^ k.
unfoldable pub bitmap_clear : (ℕ → ℕ) → ℕ → ℕ → ℕ
bitmap_clear bitmap idx = update bitmap (idx / 8) (bit_and (bitmap (idx / 8)) (255 - 2 ^ (idx % 8)))

pub memory_init : ℕ → ℕ → Memory → Outcome (ℕ × Memory)
memory_init free_start free_end m =
    let total_pages = (free_end - free_start) / page_size in
    let bitmap_bytes = add32 total_pages 7 / 8 in
    let bitmap_pages = add32 bitmap_bytes (page_size - 1) / page_size in
    if leb free_end free_start
    then panic invalid_ram
    else if total_pages == 0
    then panic no_pages
    else if leb total_pages bitmap_pages
    then panic bitmap_too_large
    else ok (
      total_pages,
      record {
        memory_initialized = true;
        page_bitmap = memset m.page_bitmap 0 0 (bitmap_pages * page_size);
        managed_base = add32 free_start (mul32 bitmap_pages page_size);
        managed_pages = total_pages - bitmap_pages;
        ram = m.ram;
      },
    )

-- The search loop of `alloc_pages`: `rounds` pages are left, `i` is the next, `run` free ones lie
-- just before it. The result is `start`; at that point run == n and run <= i + 1.
unfoldable pub scan : (ℕ → ℕ) → ℕ → ℕ → ℕ → ℕ → Option ℕ
scan bitmap n zero i run = none
scan bitmap n (suc rounds) i run = elim (bitmap_test bitmap i) [
  | true ↦ scan bitmap n rounds (i + 1) 0
  | false ↦ elim (run + 1 == n) [
    | true ↦ some (i + 1 - n)
    | false ↦ scan bitmap n rounds (i + 1) (run + 1)
  ]
]

-- `for (j = start; j <= i; j++) bitmap_set(j)`, which makes n rounds.
unfoldable pub set_range : (ℕ → ℕ) → ℕ → ℕ → ℕ → ℕ
set_range bitmap j zero = bitmap
set_range bitmap j (suc n) = set_range (bitmap_set bitmap j) (j + 1) n

-- What is done with the run that was found.
unfoldable pub take_run : ℕ → Memory → Option ℕ → Outcome (ℕ × Memory)
take_run n m none = panic out_of_memory
take_run n m (some start) =
    let paddr = add32 m.managed_base (mul32 start page_size) in
    ok (
      paddr,
      record m {
        page_bitmap = set_range m.page_bitmap start n;
        ram = memset m.ram paddr 0 (mul32 n page_size);
      },
    )

pub alloc_pages : ℕ → Memory → Outcome (ℕ × Memory)
alloc_pages n m =
    if m.memory_initialized
    then if n == 0 || ltb m.managed_pages n
      then panic bad_count
      else take_run n m (scan m.page_bitmap n m.managed_pages 0 0)
    else panic not_initialized

-- The release loop of `free_pages`; `rounds` are left, and `i` is `idx`.
unfoldable pub clear_range : (ℕ → ℕ) → ℕ → ℕ → Outcome (ℕ → ℕ)
clear_range bitmap i zero = ok bitmap
clear_range bitmap i (suc rounds) = elim (bitmap_test bitmap i) [
  | true ↦ clear_range (bitmap_clear bitmap i) (add32 i 1) rounds
  | false ↦ panic double_free
]

abbrev pub with_bitmap : Memory → Outcome (ℕ → ℕ) → Outcome Memory
with_bitmap m (ok bitmap) = ok (record m { page_bitmap = bitmap })
with_bitmap m (panic p) = panic p

pub free_pages : ℕ → ℕ → Memory → Outcome Memory
free_pages paddr n m =
    let start = (paddr - m.managed_base) / page_size in
    if m.memory_initialized
    then if n == 0
      then panic zero_count
      else if paddr % page_size == 0
      then if ltb paddr m.managed_base
        then panic before_base
        else if leb m.managed_pages start || ltb m.managed_pages (add32 start n)
        then panic out_of_range
        else with_bitmap m (clear_range m.page_bitmap start n)
      else panic unaligned
    else panic not_initialized

-- The page's state, -1 for an index out of range.
pub bitmap_page_state : ℤ → Memory → Outcome ℤ
bitmap_page_state index m =
    if m.memory_initialized
    then ok (elim (index_below m.managed_pages index) [
      | none ↦ minus_one
      | some i ↦ if bitmap_test m.page_bitmap i then pos 1 else pos 0
    ])
    else panic not_initialized

pub bitmap_page_count : Memory → Outcome ℕ
bitmap_page_count m = if m.memory_initialized then ok m.managed_pages else panic not_initialized
