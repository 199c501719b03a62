-- ===== src/Memory/Paging.antt =====
-- `map_page` of src/kernel/mm/memory.c: the SV32 page tables, which lie in the RAM. A table is the
-- address of its 1024 words; a word is stored in four bytes, the lowest first.

pub mod Words
pub mod Walk
pub mod Translate
use aqua_core.Prelude.{
  ℕ, ◌+◌, ◌-◌, ◌*◌, ◌/◌, ◌%◌, ◌^◌, bit_and, bit_or, ◌&&◌, not, Bool, ltb, leb, ◌==◌, if◌then◌else◌,
  mul32,
}
use aqua_core.Memory.{
  Memory, Outcome, ok, panic, unaligned_vaddr, unaligned_paddr, ◌>>=◌, page_size, alloc_pages,
}

abbrev pub page_v : ℕ
page_v = 1

abbrev pub page_r : ℕ
page_r = 2

abbrev pub page_w : ℕ
page_w = 4

abbrev pub page_x : ℕ
page_x = 8

abbrev pub page_u : ℕ
page_u = 16

unfoldable pub read_word : (ℕ → ℕ) → ℕ → ℕ
read_word ram a = ram a + 256 * (ram (a + 1) + 256 * (ram (a + 2) + 256 * ram (a + 3)))

unfoldable pub write_word : (ℕ → ℕ) → ℕ → ℕ → ℕ → ℕ
write_word ram a w j = if leb a j && ltb j (a + 4) then w / 256 ^ (j - a) % 256 else ram j

-- table[i]
abbrev pub entry_at : Memory → ℕ → ℕ → ℕ
entry_at m table i = read_word m.ram (table + 4 * i)

abbrev pub set_entry : Memory → ℕ → ℕ → ℕ → Memory
set_entry m table i w = record m { ram = write_word m.ram (table + 4 * i) w }

-- (vaddr >> 22) & 0x3ff and (vaddr >> 12) & 0x3ff
abbrev pub vpn1 : ℕ → ℕ
vpn1 vaddr = vaddr / 2 ^ 22 % 1024

abbrev pub vpn0 : ℕ → ℕ
vpn0 vaddr = vaddr / 2 ^ 12 % 1024

-- (entry & PAGE_V) != 0
abbrev pub is_present : ℕ → Bool
is_present entry = not (bit_and entry page_v == 0)

-- The address in an entry, (entry >> 10) * PAGE_SIZE.
abbrev pub entry_address : ℕ → ℕ
entry_address entry = mul32 (entry / 2 ^ 10) page_size

-- (paddr / PAGE_SIZE) << 10
abbrev pub frame_bits : ℕ → ℕ
frame_bits paddr = mul32 (paddr / page_size) (2 ^ 10)

-- A second-level table for the entry, if it has none.
unfoldable pub ensure_table : ℕ → ℕ → Memory → Outcome Memory
ensure_table table1 i m =
    if is_present (entry_at m table1 i)
    then ok m
    else alloc_pages 1 m >>= λ (pt_paddr, m').
        ok (set_entry m' table1 i (bit_or (frame_bits pt_paddr) page_v))

-- The entry of the second-level table.
unfoldable pub map_entry : ℕ → ℕ → ℕ → ℕ → Memory → Memory
map_entry table1 vaddr paddr flags m =
    let table0 = entry_address (entry_at m table1 (vpn1 vaddr)) in
    set_entry m table0 (vpn0 vaddr) (bit_or (bit_or (frame_bits paddr) flags) page_v)

unfoldable pub map_page : ℕ → ℕ → ℕ → ℕ → Memory → Outcome Memory
map_page table1 vaddr paddr flags m =
    if not (vaddr % page_size == 0)
    then panic unaligned_vaddr
    else if not (paddr % page_size == 0)
    then panic unaligned_paddr
    else (ensure_table table1 (vpn1 vaddr) m >>= λ m'. ok (map_entry table1 vaddr paddr flags m'))
