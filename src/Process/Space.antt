-- ===== src/Process/Space.antt =====
-- The address space of a process in src/kernel/proc/process.c: the mappings that each page table has
-- of the kernel, the user pages, and their release.
use aqua_core.Prelude.{
  ℕ, zero, suc, ◌+◌, ◌-◌, ◌/◌, bit_and, bit_or, ◌&&◌, Bool, true, false, min, ◌==◌, if◌then◌else◌,
  add32, mul32, u32,
}
use aqua_core.Commonlibs.Buffer.{memcpy}
use aqua_core.Memory.{Memory, Outcome, ok, ◌>>=◌, page_size, alloc_pages, free_pages}
use aqua_core.Memory.Paging.{
  page_v, page_r, page_w, page_x, page_u, entry_at, set_entry, vpn1, vpn0, is_present,
  entry_address, map_page,
}
use aqua_core.Process.{Process}

abbrev pub user_base : ℕ
user_base = 0x1000000

abbrev pub mmio_base : ℕ
mmio_base = 0x10000000

abbrev pub mmio_end : ℕ
mmio_end = 0x10010000

abbrev pub rtc_mmio_base : ℕ
rtc_mmio_base = 0x101000

abbrev pub rtc_mmio_end : ℕ
rtc_mmio_end = 0x102000

-- `__kernel_base` and `__free_ram_end` of the linker script.
pub record Layout : Type 0 where
  pub kernel_base : ℕ
  pub free_ram_end : ℕ

-- `for (paddr = first; paddr < last; paddr += PAGE_SIZE)`, for a last address at least a page below
-- the end of the address space, makes this many rounds.
abbrev pub rounds_between : ℕ → ℕ → ℕ
rounds_between first last = (last + (page_size - 1) - first) / page_size

unfoldable pub map_identity : ℕ → ℕ → ℕ → ℕ → Memory → Outcome Memory
map_identity table flags paddr zero m = ok m
map_identity table flags paddr (suc rounds) m =
    map_page table paddr paddr flags m >>= map_identity table flags (add32 paddr page_size) rounds

unfoldable pub map_kernel : Layout → ℕ → Memory → Outcome Memory
map_kernel layout table m =
    map_identity table (bit_or (bit_or page_r page_w) page_x) layout.kernel_base
      (rounds_between layout.kernel_base layout.free_ram_end) m
    >>= map_identity table (bit_or page_r page_w) mmio_base (rounds_between mmio_base mmio_end)
    >>= map_identity table (bit_or page_r page_w) rtc_mmio_base
        (rounds_between rtc_mmio_base rtc_mmio_end)

abbrev pub user_flags : ℕ
user_flags = bit_or (bit_or (bit_or page_u page_r) page_w) page_x

-- (image_size + PAGE_SIZE - 1) / PAGE_SIZE
abbrev pub image_pages : ℕ → ℕ
image_pages image_size = add32 image_size (page_size - 1) / page_size

-- The part of the image at `off`, copied to a page and mapped at USER_BASE + off.
unfoldable pub load_page : ℕ → (ℕ → ℕ) → ℕ → ℕ → ℕ → Memory → Outcome Memory
load_page table image image_size off page m =
    let copy_size = min page_size (image_size - off) in
    map_page table (add32 user_base off) page user_flags
      (record m { ram = memcpy m.ram page image off copy_size })

-- The image loop of `create_process`, `rounds` times from `off` on.
unfoldable pub load_image : ℕ → (ℕ → ℕ) → ℕ → ℕ → ℕ → Memory → Outcome Memory
load_image table image image_size off zero m = ok m
load_image table image image_size off (suc rounds) m =
    alloc_pages 1 m
    >>= (λ (page, m1). load_page table image image_size off page m1)
    >>= load_image table image image_size (off + page_size) rounds

-- The image loop of `process_exec`, which gives up, with false, when a page has address 0.
unfoldable pub exec_image : ℕ → (ℕ → ℕ) → ℕ → ℕ → ℕ → Memory → Outcome (Bool × Memory)
exec_image table image image_size off zero m = ok (true, m)
exec_image table image image_size off (suc rounds) m = alloc_pages 1 m >>= λ (page, m1).
    if page == 0
    then ok (false, m1)
    else (load_page table image image_size off page m1
        >>= exec_image table image image_size (off + page_size) rounds)

-- The virtual address of user page i.
abbrev pub user_page : ℕ → ℕ
user_page i = add32 user_base (mul32 i page_size)

-- What the loop over the user pages does with page i: a page that is not mapped is passed over.
unfoldable pub free_user_page : ℕ → ℕ → Memory → Outcome Memory
free_user_page table1 i m =
    let vaddr = user_page i in
    let entry1 = entry_at m table1 (vpn1 vaddr) in
    let table0 = entry_address entry1 in
    let entry0 = entry_at m table0 (vpn0 vaddr) in
    if is_present entry1 && is_present entry0
    then (free_pages (entry_address entry0) 1 m >>= λ m'. ok (set_entry m' table0 (vpn0 vaddr) 0))
    else ok m

unfoldable pub free_user_pages : ℕ → ℕ → ℕ → Memory → Outcome Memory
free_user_pages table1 i zero m = ok m
free_user_pages table1 i (suc rounds) m =
    free_user_page table1 i m >>= free_user_pages table1 (i + 1) rounds

-- The loop that frees the second-level tables.
unfoldable pub free_tables : ℕ → ℕ → ℕ → Memory → Outcome Memory
free_tables table1 i zero m = ok m
free_tables table1 i (suc rounds) m =
    let entry = entry_at m table1 i in
    (if is_present entry
      then (free_pages (entry_address entry) 1 m >>= λ m'. ok (set_entry m' table1 i 0))
      else ok m)
    >>= free_tables table1 (i + 1) rounds

unfoldable pub free_process_memory : Process → Memory → Outcome (Process × Memory)
free_process_memory p m =
    if p.page_table == 0
    then ok (p, m)
    else (free_user_pages p.page_table 0 p.user_pages m
        >>= free_tables p.page_table 0 1024
        >>= free_pages p.page_table 1
        >>= λ m'. ok (record p { page_table = 0; user_pages = 0 }, m'))

unfoldable pub free_user_pages_only : Process → Memory → Outcome (Process × Memory)
free_user_pages_only p m =
    if p.page_table == 0
    then ok (p, m)
    else (free_user_pages p.page_table 0 p.user_pages m >>= λ m'.
        ok (record p { user_pages = 0 }, m'))

-- The copy loop of `process_fork`; it gives up, with false, at a page that is not mapped.
unfoldable pub copy_user_pages : ℕ → ℕ → ℕ → ℕ → Memory → Outcome (Bool × Memory)
copy_user_pages parent child i zero m = ok (true, m)
copy_user_pages parent child i (suc rounds) m =
    let vaddr = user_page i in
    let entry1 = entry_at m parent (vpn1 vaddr) in
    let entry0 = entry_at m (entry_address entry1) (vpn0 vaddr) in
    if is_present entry1 && is_present entry0
    then (alloc_pages 1 m >>= λ (child_page, m1).
        if child_page == 0
        then ok (false, m1)
        else (let m2 = record m1 {
          ram = memcpy m1.ram child_page m1.ram (entry_address entry0) page_size;
        } in
            let pt0 = entry_address (entry_at m2 parent (vpn1 vaddr)) in
            let flags = bit_and (bit_and (entry_at m2 pt0 (vpn0 vaddr)) 1023) (u32 - 1 - page_v) in
            map_page child vaddr child_page flags m2
            >>= copy_user_pages parent child (i + 1) rounds))
    else ok (false, m)
