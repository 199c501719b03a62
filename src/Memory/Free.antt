-- ===== src/Memory/Free.antt =====
-- What `free_pages` of src/kernel/mm/memory.c does: it undoes an allocation, and detects a second
-- release.
use aqua_core.Prelude.{
  ℕ, zero, suc, ◌+◌, ◌-◌, ◌*◌, ◌/◌, ◌%◌, ◌≤◌, ◌<◌, ◌≡◌, refl, Bool, true, false, not, ◌&&◌, ◌||◌,
  arith, ltb, leb, ◌==◌, Bool-cases, subst, u32, add32, ap, inl, inr, ◌∙◌,
}
use aqua_core.Memory.{
  Memory, ok, panic, double_free, page_size, bitmap_test, bitmap_clear, clear_range, with_bitmap,
  free_pages, alloc_pages,
}
use aqua_core.Memory.Bitmap.{AreBytes, bitmap_test-clear, AreBytes-clear}
use aqua_core.Memory.Alloc.{IsValid, within, Allocated, AllocSpec, alloc_pages_lem}

-- The n pages from s on are in use.
abbrev pub IsUsedRun : (ℕ → ℕ) → ℕ → ℕ → Type 0
IsUsedRun bitmap s n = (j : ℕ) → s ≤ j → j < s + n → bitmap_test bitmap j ≡ true

module _ (bitmap : ℕ → ℕ) (s n : ℕ) where
  clear_range_used :
      s + 1 < u32
      → bitmap_test bitmap s ≡ true
      → clear_range bitmap s (suc n) ≡ clear_range (bitmap_clear bitmap s) (s + 1) n
  unfolding clear_range
  clear_range_used fits e = let next : add32 s 1 ≡ s + 1 = omega arith in rw (e, clear_range, next)

  clear_range_free : bitmap_test bitmap s ≡ false → clear_range bitmap s (suc n) ≡ panic double_free
  unfolding clear_range
  clear_range_free e = ground arith

record Cleared (bitmap : ℕ → ℕ) (s n : ℕ) : Type 0 where
  result : ℕ → ℕ
  returned : clear_range bitmap s n ≡ ok result
  bytes : AreBytes result
  tests : (j : ℕ) → bitmap_test result j ≡ (not (within s n j) && bitmap_test bitmap j)

clear_range-Cleared :
    (n : ℕ) (bitmap : ℕ → ℕ) (s : ℕ)
    → AreBytes bitmap
    → s + n < u32
    → IsUsedRun bitmap s n
    → Cleared bitmap s n
unfolding clear_range
clear_range-Cleared zero bitmap s h fits used = record {
  result = bitmap;
  returned = refl;
  bytes = h;
  tests = λ j. ground arith;
}
clear_range-Cleared (suc n) bitmap s h fits used =
    let rest =
      clear_range-Cleared n (bitmap_clear bitmap s) (s + 1) (AreBytes-clear bitmap s h)
        (omega arith)
        (λ j lo hi.
          ground (arith, bitmap_test-clear bitmap s j h, used j (omega arith) (omega arith))) in
    record {
      result = rest.result;
      returned =
          clear_range_used bitmap s n (omega arith) (used s (omega arith) (omega arith))
          ∙ rest.returned;
      bytes = rest.bytes;
      tests = λ j. ground (arith, rest.tests j, bitmap_test-clear bitmap s j h);
    }

-- A page in the range that is free already stops the loop.
clear_range-double_free :
    (n k : ℕ) (bitmap : ℕ → ℕ) (s : ℕ)
    → AreBytes bitmap
    → s + n < u32
    → k < n
    → bitmap_test bitmap (s + k) ≡ false
    → clear_range bitmap s n ≡ panic double_free
clear_range-double_free zero k bitmap s h fits lt free = absurd (omega arith)
clear_range-double_free (suc n) zero bitmap s h fits lt free =
    let e : s + 0 ≡ s = omega arith in clear_range_free bitmap s n (rw e at free)
clear_range-double_free (suc n) (suc k) bitmap s h fits lt free =
    elim (Bool-cases (bitmap_test bitmap s)) [
      | inl used ↦
          let e : s + suc k ≡ s + 1 + k = omega arith in
          clear_range_used bitmap s n (omega arith) used
          ∙ clear_range-double_free n k (bitmap_clear bitmap s) (s + 1) (AreBytes-clear bitmap s h)
              (omega arith) (omega arith)
              (ground (arith, bitmap_test-clear bitmap s (s + 1 + k) h, rw e at free))
      | inr clear ↦ clear_range_free bitmap s n clear
    ]

-- What `free_pages` does past its guards, for an address that `alloc_pages` returned.
module _ (n : ℕ) (m : Memory) (start paddr : ℕ) (v : IsValid m) (pos : 0 < n)
    (at_start : paddr ≡ m.managed_base + start * page_size)
    (fits : start + n ≤ m.managed_pages) where
  free_pages_guarded : free_pages paddr n m ≡ with_bitmap m (clear_range m.page_bitmap start n)
  unfolding free_pages
  free_pages_guarded =
      let first : (paddr - m.managed_base) / page_size ≡ start = omega (arith, at_start) in
      let aligned : (paddr % page_size == 0) ≡ true = ground (arith, v.aligned) in
      let above : ltb paddr m.managed_base ≡ false = ground arith in
      let inside : (leb m.managed_pages start || ltb m.managed_pages (add32 start n)) ≡ false =
        ground (arith, v.bounded) in
      let some_pages : (n == 0) ≡ false = ground arith in
      simp (first, v.initialized, some_pages, aligned, above, inside)

-- What follows an allocation: its release succeeds and gives back the set of used pages that there
-- was before, and a second release of the same pages stops the kernel.
pub record Released (n : ℕ) (m : Memory) (paddr : ℕ) (m' : Memory) : Type 0 where
  pub after : Memory
  pub released : free_pages paddr n m' ≡ ok after
  pub restored : (j : ℕ) → bitmap_test after.page_bitmap j ≡ bitmap_test m.page_bitmap j
  pub valid : IsValid after
  pub twice : free_pages paddr n after ≡ panic double_free

Released_bit :
    (n : ℕ) (m : Memory) (paddr : ℕ) (m' : Memory) (a : Allocated n m paddr m') (j : ℕ) {b : Bool}
    → b ≡ (not (within a.start n j) && bitmap_test m'.page_bitmap j)
    → b ≡ bitmap_test m.page_bitmap j
Released_bit n m paddr m' a j e =
    ground (arith, a.marked j, λ (p : a.start ≤ j) (q : j < a.start + n). a.was_free j p q)

Allocated-Released :
    (n : ℕ) (m : Memory) (paddr : ℕ) (m' : Memory)
    → 0 < n
    → Allocated n m paddr m'
    → Released n m paddr m'
Allocated-Released n m paddr m' pos a =
    let at_start : paddr ≡ m'.managed_base + a.start * page_size =
      ground (arith, a.address, a.same_base) in
    let fits : a.start + n ≤ m'.managed_pages = ground (arith, a.in_range, a.same_pages) in
    let cleared =
      clear_range-Cleared n m'.page_bitmap a.start a.valid.bytes (omega (arith, a.valid.bounded))
        (λ j lo hi. ground (arith, a.marked j)) in
    let after : Memory = record m' { page_bitmap = cleared.result } in
    let valid : IsValid after = record {
      initialized = a.valid.initialized;
      bytes = cleared.bytes;
      aligned = a.valid.aligned;
      bounded = a.valid.bounded;
    } in
    record {
      after = after;
      released =
          free_pages_guarded n m' a.start paddr a.valid pos at_start fits
          ∙ ap (with_bitmap m') cleared.returned;
      restored = λ j. Released_bit n m paddr m' a j (cleared.tests j);
      valid = valid;
      twice =
          free_pages_guarded n after a.start paddr valid pos at_start fits
          ∙ ap (with_bitmap after) (
              clear_range-double_free n 0 cleared.result a.start cleared.bytes
                (omega (arith, a.valid.bounded)) pos (ground (arith, cleared.tests (a.start + 0))));
    }

-- On a valid allocator, when `alloc_pages` has returned an address for n pages, `free_pages` of
-- that address and count succeeds and gives back a valid allocator with exactly the used pages of
-- before the allocation; releasing the same pages again panics with double-free.
pub free_pages-alloc_pages :
    (n : ℕ) (m : Memory) (paddr : ℕ) (m' : Memory)
    → IsValid m
    → 0 < n
    → n ≤ m.managed_pages
    → alloc_pages n m ≡ ok (paddr, m')
    → Released n m paddr m'
free_pages-alloc_pages n m paddr m' v pos le e =
    Allocated-Released n m paddr m' pos (subst (AllocSpec n m) e (alloc_pages_lem n m v pos le))
