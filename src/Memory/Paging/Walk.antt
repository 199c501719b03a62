-- ===== src/Memory/Paging/Walk.antt =====
-- The walk of the page tables by the MMU, after the Sv32 scheme of the RISC-V privileged architecture, for
-- the tables that src/kernel/mm/memory.c writes. The checks of the permissions of an access, and the A
-- and D bits, are left out: the flags are part of the result.
use aqua_core.Prelude.{
  ℕ, ◌+◌, ◌*◌, ◌/◌, ◌%◌, ◌^◌, ◌<◌, ◌≡◌, refl, ap, ap₂, ◌∙◌, Bool, true, false, not, ◌&&◌, ◌||◌,
  Option, none, some, arith, ◌==◌, if◌then◌else◌, if-true, if-false, ◌⊎◌,
}
use aqua_core.Memory.{Memory}
use aqua_core.Memory.Paging.{read_word}

-- The bits V, R, W and X of an entry are the lowest ones.
abbrev has_bit : ℕ → ℕ → Bool
has_bit e k = e / 2 ^ k % 2 == 1

-- An entry that stops the walk with a fault: it is not valid, or it has W without R.
abbrev is_fault : ℕ → Bool
is_fault e = not (has_bit e 0) || (has_bit e 2 && not (has_bit e 1))

-- An entry of a page; one that has neither R nor X points to a table.
abbrev pub is_leaf : ℕ → Bool
is_leaf e = has_bit e 1 || has_bit e 3

-- What the second-level entry makes of a virtual address: the physical one, with the ten low bits of the
-- page's entry; none is a fault.
abbrev level0 : ℕ → ℕ → Option (ℕ × ℕ)
level0 va pte0 =
    if is_fault pte0
    then none
    else if is_leaf pte0
    then some (pte0 / 2 ^ 10 * 2 ^ 12 + va % 2 ^ 12, pte0 % 2 ^ 10)
    else none

-- What the first-level entry makes of it: an entry of a page is that of a page of 4 MB, which must be
-- aligned, and any other leads to a table.
abbrev level1 : Memory → ℕ → ℕ → Option (ℕ × ℕ)
level1 m va pte1 =
    if is_fault pte1
    then none
    else if is_leaf pte1
    then if pte1 / 2 ^ 10 % 2 ^ 10 == 0
      then some (pte1 / 2 ^ 20 * 2 ^ 22 + va % 2 ^ 22, pte1 % 2 ^ 10)
      else none
    else level0 va (read_word m.ram (pte1 / 2 ^ 10 * 2 ^ 12 + 4 * (va / 2 ^ 12 % 2 ^ 10)))

abbrev pub sv32_walk : Memory → ℕ → ℕ → Option (ℕ × ℕ)
sv32_walk m root va = level1 m va (read_word m.ram (root + 4 * (va / 2 ^ 22 % 2 ^ 10)))

-- A first-level entry that points to a table with an address of 32 bits: of the ten low bits, V alone
-- is set.
pub record IsPointer (e : ℕ) : Type 0 where
  pub valid_only : e % 2 ^ 10 ≡ 1
  pub small : e < 2 ^ 30

-- Flags of a page: R or X is set, and W only with R.
pub record IsPermission (flags : ℕ) : Type 0 where
  pub low : flags < 2 ^ 10
  pub leaf : is_leaf flags ≡ true
  pub writable : (flags / 2 % 2 ≡ 1) ⊎ (flags / 4 % 2 ≡ 0)

IsPointer-walks : (e : ℕ) → IsPointer e → (is_fault e ≡ false) × (is_leaf e ≡ false)
IsPointer-walks e p = (ground (arith, p.valid_only), ground (arith, p.valid_only))

leaf_entry :
    (frame flags e : ℕ)
    → e ≡ frame * 2 ^ 10 + flags / 2 * 2 + 1
    → IsPermission flags
    → (is_fault e ≡ false) × (is_leaf e ≡ true)
leaf_entry frame flags e same p =
    let bit0 : e % 2 ≡ 1 = omega arith in
    let bit1 : e / 2 % 2 ≡ flags / 2 % 2 = omega arith in
    let bit2 : e / 4 % 2 ≡ flags / 4 % 2 = omega arith in
    let bit3 : e / 8 % 2 ≡ flags / 8 % 2 = omega arith in
    (ground (arith, bit0, bit1, bit2, p.writable), ap₂ (λ a b. a == 1 || b == 1) bit1 bit3 ∙ p.leaf)

-- A walk over a pointer and a page's entry.
pub sv32_walk-page :
    (m : Memory) (root va pte1 frame flags : ℕ)
    → read_word m.ram (root + 4 * (va / 2 ^ 22 % 2 ^ 10)) ≡ pte1
    → IsPointer pte1
    → read_word m.ram (pte1 / 2 ^ 10 * 2 ^ 12 + 4 * (va / 2 ^ 12 % 2 ^ 10))
      ≡ frame * 2 ^ 10 + flags / 2 * 2 + 1
    → IsPermission flags
    → sv32_walk m root va ≡ some (frame * 2 ^ 12 + va % 2 ^ 12, flags / 2 * 2 + 1)
sv32_walk-page m root va pte1 frame flags at1 pointer at0 p =
    let pte0 = frame * 2 ^ 10 + flags / 2 * 2 + 1 in
    let (no_fault1, no_leaf1) = IsPointer-walks pte1 pointer in
    let (no_fault0, leaf0) = leaf_entry frame flags pte0 refl p in
    let page : pte0 / 2 ^ 10 ≡ frame = omega (arith, p.low) in
    let bits : pte0 % 2 ^ 10 ≡ flags / 2 * 2 + 1 = omega (arith, p.low) in
    ap (level1 m va) at1
    ∙ if-false _ _ no_fault1
    ∙ if-false _ _ no_leaf1
    ∙ ap (level0 va) at0
    ∙ if-false _ _ no_fault0
    ∙ if-true _ _ leaf0
    ∙ ap₂ (λ f b. some (f * 2 ^ 12 + va % 2 ^ 12, b)) page bits
