-- ===== src/Memory/Alloc.antt =====
-- What `alloc_pages` of src/kernel/mm/memory.c returns, and what it leaves behind.
use aqua_core.Prelude.{
  ℕ, zero, suc, ◌+◌, ◌*◌, ◌%◌, ◌≤◌, ◌<◌, ◌≡◌, refl, Bool, true, false, Option, none, some, ◌&&◌,
  ◌||◌, arith, ltb, leb, ◌==◌, if◌then◌else◌, u32, add32, mul32,
}
use aqua_core.Commonlibs.Buffer.{memset_lem}
use aqua_core.Memory.{
  Memory, Outcome, ok, panic, out_of_memory, page_size, bitmap_test, bitmap_set, set_range, scan,
  take_run, alloc_pages,
}
use aqua_core.Memory.Bitmap.{AreBytes, bitmap_test-set, AreBytes-set}
use aqua_core.Memory.Scan.{IsFreeRun, Found, scan-Found}

pub record IsValid (m : Memory) : Type 0 where
  pub initialized : m.memory_initialized ≡ true
  pub bytes : AreBytes m.page_bitmap
  pub aligned : m.managed_base % page_size ≡ 0
  pub bounded : m.managed_base + m.managed_pages * page_size < u32

-- Page j is one of the n pages from start on.
abbrev pub within : ℕ → ℕ → ℕ → Bool
within start n j = leb start j && ltb j (start + n)

pub set_range_lem :
    (bitmap : ℕ → ℕ) (s n j : ℕ)
    → AreBytes bitmap
    → AreBytes (set_range bitmap s n)
      × (bitmap_test (set_range bitmap s n) j ≡ (within s n j || bitmap_test bitmap j))
unfolding set_range
set_range_lem bitmap s zero j h = (h, ground arith)
set_range_lem bitmap s (suc n) j h =
    let (bytes, test) = set_range_lem (bitmap_set bitmap s) (s + 1) n j (AreBytes-set bitmap s h) in
    (bytes, ground (arith, test, bitmap_test-set bitmap s j h))

pub record Allocated (n : ℕ) (m : Memory) (paddr : ℕ) (m' : Memory) : Type 0 where
  pub start : ℕ
  pub address : paddr ≡ m.managed_base + start * page_size
  pub in_range : start + n ≤ m.managed_pages
  pub was_free : IsFreeRun m.page_bitmap start n
  pub lowest : (t : ℕ) → t < start → ¬ IsFreeRun m.page_bitmap t n
  pub marked :
      (j : ℕ) → bitmap_test m'.page_bitmap j ≡ (within start n j || bitmap_test m.page_bitmap j)
  pub zeroed :
      (a : ℕ) → m'.ram a ≡ (if leb paddr a && ltb a (paddr + n * page_size) then 0 else m.ram a)
  pub same_base : m'.managed_base ≡ m.managed_base
  pub same_pages : m'.managed_pages ≡ m.managed_pages
  pub valid : IsValid m'

-- A run of n free pages somewhere in the managed pages.
abbrev pub HasRun : ℕ → Memory → Type 0
HasRun n m = (s : ℕ) × (s + n ≤ m.managed_pages) × IsFreeRun m.page_bitmap s n

abbrev pub AllocSpec : ℕ → Memory → Outcome (ℕ × Memory) → Type 0
AllocSpec n m (ok (paddr, m')) = Allocated n m paddr m'
AllocSpec n m (panic p) = (p ≡ out_of_memory) × (¬ HasRun n m)

take_run-AllocSpec :
    (n : ℕ) (m : Memory) (o : Option ℕ)
    → IsValid m
    → 0 < n
    → Found m.page_bitmap n m.managed_pages o
    → AllocSpec n m (take_run n m o)
unfolding take_run
take_run-AllocSpec n m none v pos f = (refl, λ (s, le, run). f s le run)
take_run-AllocSpec n m (some start) v pos f =
    let address : add32 m.managed_base (mul32 start page_size)
        ≡ m.managed_base + start * page_size =
      omega (arith, f.0, v.bounded) in
    let span : mul32 n page_size ≡ n * page_size = omega (arith, f.0, v.bounded) in
    record {
      start = start;
      address = address;
      in_range = f.0;
      was_free = f.1;
      lowest = f.2;
      marked = λ j. (set_range_lem m.page_bitmap start n j v.bytes).1;
      zeroed = λ a. rw span (memset_lem m.ram _ 0 (n * page_size) a);
      same_base = refl;
      same_pages = refl;
      valid = record {
        initialized = v.initialized;
        bytes = λ j. (set_range_lem m.page_bitmap start n 0 v.bytes).0 j;
        aligned = v.aligned;
        bounded = v.bounded;
      };
    }

-- On a valid allocator, for a count that it accepts, `alloc_pages` either returns the address of
-- the lowest run of n free pages, with exactly these pages marked as used, their bytes set to 0,
-- all other bytes and the allocator's validity kept; or it panics with out-of-memory, and then no
-- run of n free pages exists.
pub alloc_pages_lem :
    (n : ℕ) (m : Memory) → IsValid m → 0 < n → n ≤ m.managed_pages → AllocSpec n m (alloc_pages n m)
unfolding alloc_pages
alloc_pages_lem n m v pos le =
    let guard : (n == 0 || ltb m.managed_pages n) ≡ false = ground arith in
    simp (v.initialized, guard)
      (take_run-AllocSpec n m (scan m.page_bitmap n m.managed_pages 0 0) v pos
        (scan-Found m.page_bitmap n m.managed_pages pos))
