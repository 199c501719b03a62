-- ===== src/Memory/Paging/Translate.antt =====
-- What the page tables that `map_page` of src/kernel/mm/memory.c writes stand for: the walk of the MMU.
use aqua_core.Prelude.{
  ℕ, ◌+◌, ◌*◌, ◌/◌, ◌%◌, ◌^◌, ◌<◌, ◌≡◌, ◌≢◌, ap, sym, subst, ◌∙◌, true, not, bit_or, arith, ltb,
  ◌==◌, Bool-cases, inl, inr, bit_or-one, if-true, if-false, if-cases, ◌||◌, ap₂, Option, none,
  some,
}
use aqua_core.Memory.{
  Memory, Outcome, ok, panic, ◌>>=◌, page_size, alloc_pages, scan, take_run, unaligned_vaddr,
  unaligned_paddr,
}
use aqua_core.Memory.Paging.Words.{
  read_word-write_word, read_word-other, page_entry, page_entry_lem, apart,
}
use aqua_core.Memory.Paging.Walk.{IsPointer, IsPermission, sv32_walk, sv32_walk-page}
use aqua_core.Memory.Paging.{
  page_v, read_word, entry_at, set_entry, vpn1, vpn0, is_present, entry_address, frame_bits,
  ensure_table, map_entry, map_page,
}

-- The walk of the MMU finds the page at paddr for each address of the page at vaddr, with these flags
-- and V.
abbrev pub IsMapped : Memory → ℕ → ℕ → ℕ → ℕ → Type 0
IsMapped m table1 vaddr paddr flags =
    (k : ℕ) → k < page_size → sv32_walk m table1 (vaddr + k) ≡ some (paddr + k, flags / 2 * 2 + 1)

map_entry-IsMapped :
    (table1 vaddr paddr flags : ℕ) (m : Memory)
    → table1 % page_size ≡ 0
    → vaddr % page_size ≡ 0
    → paddr % page_size ≡ 0
    → paddr < 2 ^ 32
    → IsPermission flags
    → IsPointer (entry_at m table1 (vpn1 vaddr))
    → entry_address (entry_at m table1 (vpn1 vaddr)) ≢ table1
    → IsMapped (map_entry table1 vaddr paddr flags m) table1 vaddr paddr flags
unfolding map_entry
map_entry-IsMapped table1 vaddr paddr flags m aligned valigned paligned small permission pointer
      ne =
    λ k lt.
      let x = entry_at m table1 (vpn1 vaddr) in
      let table0 = entry_address x in
      let e = page_entry paddr flags in
      let m' = set_entry m table0 (vpn0 vaddr) e in
      let value = page_entry_lem paddr flags small permission.low in
      let kept : entry_at m' table1 (vpn1 vaddr) ≡ x =
        read_word-other m.ram (table0 + 4 * vpn0 vaddr) (table1 + 4 * vpn1 vaddr) e
          (apart table1 x (vpn1 vaddr) (vpn0 vaddr) aligned ne (omega arith) (omega arith)) in
      let found : entry_at m' table0 (vpn0 vaddr) ≡ e =
        read_word-write_word m.ram (table0 + 4 * vpn0 vaddr) e
          (omega (arith, value, permission.low)) in
      let top : (vaddr + k) / 2 ^ 22 % 2 ^ 10 ≡ vpn1 vaddr = omega arith in
      let below : (vaddr + k) / 2 ^ 12 % 2 ^ 10 ≡ vpn0 vaddr = omega arith in
      let table : x / 2 ^ 10 * 2 ^ 12 ≡ table0 = omega (arith, pointer.small) in
      sv32_walk-page m' table1 (vaddr + k) x (paddr / 4096) flags
        (ap (λ i. read_word m'.ram (table1 + 4 * i)) top ∙ kept) pointer
        (ap₂ (λ t i. read_word m'.ram (t + 4 * i)) table below ∙ found ∙ value) permission
      ∙ ap (λ a. some (a, flags / 2 * 2 + 1)) (omega arith)

ok_injective : {A : Type 0} {a b : A} → ok a ≡ ok b → a ≡ b
ok_injective h = cc

-- `alloc_pages` returns an address of 32 bits.
abbrev SmallPage : Outcome (ℕ × Memory) → Type 0
SmallPage (ok (paddr, m')) = paddr < 2 ^ 32
SmallPage (panic p) = Unit

take_run-SmallPage : (n : ℕ) (m : Memory) (o : Option ℕ) → SmallPage (take_run n m o)
unfolding take_run
take_run-SmallPage n m none = tt
take_run-SmallPage n m (some start) = omega arith

alloc_pages-SmallPage : (n : ℕ) (m : Memory) → SmallPage (alloc_pages n m)
unfolding alloc_pages
alloc_pages-SmallPage n m =
    if-cases SmallPage m.memory_initialized _ _
      (λ ready.
        if-cases SmallPage (n == 0 || ltb m.managed_pages n) _ _ (λ bad. tt)
          (λ good. take_run-SmallPage n m (scan m.page_bitmap n m.managed_pages 0 0)))
      (λ early. tt)

fresh-IsPointer :
    (m : Memory) (table1 i pt_paddr : ℕ)
    → pt_paddr < 2 ^ 32
    → IsPointer (entry_at (set_entry m table1 i (bit_or (frame_bits pt_paddr) page_v)) table1 i)
fresh-IsPointer m table1 i pt_paddr lt =
    let w = bit_or (frame_bits pt_paddr) page_v in
    let value : w ≡ pt_paddr / 4096 * 1024 + 1 = bit_or-one (frame_bits pt_paddr) ∙ omega arith in
    subst IsPointer (sym (read_word-write_word m.ram (table1 + 4 * i) w (omega (arith, value))))
      (record { valid_only = omega (arith, value); small = omega (arith, value) })

-- What is written for a table that was allocated.
new_table-IsPointer :
    (table1 i : ℕ) (o : Outcome (ℕ × Memory)) (m1 : Memory)
    → SmallPage o
    → (o >>= λ (pt_paddr, m'). ok (set_entry m' table1 i (bit_or (frame_bits pt_paddr) page_v)))
      ≡ ok m1
    → IsPointer (entry_at m1 table1 i)
new_table-IsPointer table1 i (ok (pt_paddr, m')) m1 lt h =
    subst (λ m. IsPointer (entry_at m table1 i)) (ok_injective h)
      (fresh-IsPointer m' table1 i pt_paddr lt)
new_table-IsPointer table1 i (panic p) m1 lt h = cc

ensure_table-IsPointer :
    (table1 i : ℕ) (m m1 : Memory)
    → (is_present (entry_at m table1 i) ≡ true → IsPointer (entry_at m table1 i))
    → ensure_table table1 i m ≡ ok m1
    → IsPointer (entry_at m1 table1 i)
unfolding ensure_table
ensure_table-IsPointer table1 i m m1 proper h =
    elim (Bool-cases (is_present (entry_at m table1 i))) [
      | inl there ↦
          subst (λ x. IsPointer (entry_at x table1 i)) (ok_injective (sym (if-true _ _ there) ∙ h))
            (proper there)
      | inr absent ↦
          new_table-IsPointer table1 i (alloc_pages 1 m) m1 (alloc_pages-SmallPage 1 m)
            (sym (if-false _ _ absent) ∙ h)
    ]

-- When `map_page` does not PANIC, in a first-level table that is a page, with a physical address of 32
-- bits and flags of ten bits with R or X, and W only with R; the first-level entry, if it is valid,
-- points to a table; and the second-level table that it has or gets is not the first-level table
-- itself: then the walk of the MMU ends without a fault for each address of the virtual page, and gives
-- the same place in the physical page, with the flags and V.
pub map_page-IsMapped :
    (table1 vaddr paddr flags : ℕ) (m m1 m' : Memory)
    → table1 % page_size ≡ 0
    → paddr < 2 ^ 32
    → IsPermission flags
    → (is_present (entry_at m table1 (vpn1 vaddr)) ≡ true
        → IsPointer (entry_at m table1 (vpn1 vaddr)))
    → ensure_table table1 (vpn1 vaddr) m ≡ ok m1
    → entry_address (entry_at m1 table1 (vpn1 vaddr)) ≢ table1
    → map_page table1 vaddr paddr flags m ≡ ok m'
    → IsMapped m' table1 vaddr paddr flags
unfolding map_page
map_page-IsMapped table1 vaddr paddr flags m m1 m' aligned small permission proper ensured ne done =
    elim (Bool-cases (vaddr % page_size == 0)) [
      | inr bad ↦
          let h : panic unaligned_vaddr ≡ ok m' = sym (if-true _ _ (ap not bad)) ∙ done in cc
      | inl v_ok ↦ elim (Bool-cases (paddr % page_size == 0)) [
        | inr bad ↦
            let h : panic unaligned_paddr ≡ ok m' =
              sym (if-false _ _ (ap not v_ok) ∙ if-true _ _ (ap not bad)) ∙ done in
            cc
        | inl p_ok ↦
            let same : map_entry table1 vaddr paddr flags m1 ≡ m' = ok_injective (
              sym (
                if-false _ _ (ap not v_ok)
                ∙ if-false _ _ (ap not p_ok)
                ∙ ap (λ o. o >>= λ x. ok (map_entry table1 vaddr paddr flags x)) ensured)
              ∙ done) in
            subst (λ x. IsMapped x table1 vaddr paddr flags) same
              (map_entry-IsMapped table1 vaddr paddr flags m1 aligned (ground (arith, v_ok))
                (ground (arith, p_ok)) small permission
                (ensure_table-IsPointer table1 (vpn1 vaddr) m m1 proper ensured) ne)
      ]
    ]
