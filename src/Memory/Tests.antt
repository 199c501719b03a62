-- ===== src/Memory/Tests.antt =====
-- The allocator on four pages.
use aqua_core.Prelude.{◌≡◌, ◌≢◌, refl, true, false, arith, ◌*◌, bit_or, inl}
use aqua_core.Commonlibs.Buffer.{memset}
use aqua_core.Memory.{Memory, ok, page_size, alloc_pages, scan, take_run, set_range, bitmap_test}
use aqua_core.Memory.Alloc.{IsValid, AllocSpec, alloc_pages_lem}
use aqua_core.Memory.Paging.{
  ensure_table, map_entry, map_page, read_word, write_word, vpn1, entry_at, entry_address,
  set_entry, frame_bits, page_v, is_present,
}
use aqua_core.Memory.Paging.Walk.{IsPointer}
use aqua_core.Memory.Paging.Translate.{IsMapped, map_page-IsMapped}
use aqua_core.Memory.Init.{Boots, memory_init_lem}
use aqua_core.Memory.Free.{Released, free_pages-alloc_pages}

-- Pages 0 and 2 of four are in use.
abbrev four : Memory
four = record {
  memory_initialized = true;
  page_bitmap = λ i. 5;
  managed_base = 2 * page_size;
  managed_pages = 4;
  ram = λ a. 7;
}

four-IsValid : IsValid four
four-IsValid = record {
  initialized = refl;
  bytes = λ i. omega arith;
  aligned = refl;
  bounded = omega arith;
}

alloc_pages_lem_example : AllocSpec 1 four (alloc_pages 1 four)
alloc_pages_lem_example = alloc_pages_lem 1 four four-IsValid (omega arith) (omega arith)

abbrev after_alloc : Memory
after_alloc = record four {
  page_bitmap = set_range four.page_bitmap 1 1;
  ram = memset four.ram (3 * page_size) 0 page_size;
}

alloc_lowest : alloc_pages 1 four ≡ ok (3 * page_size, after_alloc)
unfolding alloc_pages scan take_run bitmap_test
alloc_lowest = refl

free_pages-alloc_pages_example : Released 1 four (3 * page_size) after_alloc
free_pages-alloc_pages_example =
    free_pages-alloc_pages 1 four (3 * page_size) after_alloc four-IsValid (omega arith)
      (omega arith) alloc_lowest

-- Four pages of RAM behind the kernel.
abbrev boot : Memory
boot = record four {
  memory_initialized = false;
  page_bitmap = λ i. 255;
  managed_base = 0;
  managed_pages = 0;
}

memory_init_lem_example : Boots (2 * page_size) (6 * page_size) boot
memory_init_lem_example =
    memory_init_lem (2 * page_size) (6 * page_size) boot (λ i. omega arith) refl (omega arith)
      (omega arith)

-- Page 0 as an empty first-level table, whose entry gets page 1 as its table.
abbrev empty : Memory
empty = record four { ram = λ a. 0 }

abbrev with_table : Memory
with_table =
    set_entry
      (record empty {
        page_bitmap = set_range empty.page_bitmap 1 1;
        ram = memset empty.ram (3 * page_size) 0 page_size;
      })
      (2 * page_size) 0 (bit_or (frame_bits (3 * page_size)) page_v)

abbrev mapped : Memory
mapped = map_entry (2 * page_size) 4096 (5 * page_size) 6 with_table

table_made : ensure_table (2 * page_size) (vpn1 4096) empty ≡ ok with_table
unfolding ensure_table read_word alloc_pages scan take_run bitmap_test
table_made = refl

table_elsewhere : entry_address (entry_at with_table (2 * page_size) (vpn1 4096)) ≢ 2 * page_size
unfolding read_word write_word
table_elsewhere = λ e. absurd (omega (arith, e))

mapping_done : map_page (2 * page_size) 4096 (5 * page_size) 6 empty ≡ ok mapped
unfolding map_page ensure_table read_word alloc_pages scan take_run bitmap_test
mapping_done = refl

no_entry : is_present (entry_at empty (2 * page_size) (vpn1 4096)) ≡ false
unfolding read_word
no_entry = refl

absent-IsPointer :
    is_present (entry_at empty (2 * page_size) (vpn1 4096)) ≡ true
    → IsPointer (entry_at empty (2 * page_size) (vpn1 4096))
absent-IsPointer there = cc (there, no_entry)

map_page-IsMapped_example : IsMapped mapped (2 * page_size) 4096 (5 * page_size) 6
map_page-IsMapped_example =
    map_page-IsMapped (2 * page_size) 4096 (5 * page_size) 6 empty with_table mapped refl
      (omega arith) (record { low = omega arith; leaf = refl; writable = inl refl })
      absent-IsPointer table_made table_elsewhere mapping_done
