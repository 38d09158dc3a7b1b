-- ===== src/Paging.antt =====
-- paging.c: the bitmap of physical pages, the four levels of page tables, and the mappings of the
-- kernel and of user address spaces. Physical memory is a function from the address of a word of eight
-- bytes to its value; the bitmap at 1 MB is kept apart as a list of bytes. Pointers are addresses, 0
-- for NULL. The flushes of the processor's cache of translations have no effect here.
pub mod Pages
pub mod Kmalloc
pub mod Tables
pub mod Fresh
pub mod Step
pub mod Walk
pub mod Map
pub mod Init
pub mod Spaces
pub mod Halves
pub mod User
mod Tests
use Prim.Native.Nat.{bit_or}
use curnel.Prelude.{
  ℕ, zero, suc, ◌+◌, ◌-◌, ◌*◌, ◌/◌, ◌%◌, ◌^◌, Bool, true, false, not, ◌&&◌, ◌||◌, Option, none,
  some, List, [], ◌∷◌, length, get_or, set, replicate, ltb, leb, ◌==◌, if◌then◌else◌, u64, sub64,
  bit, set_bit, clear_bit,
}

abbrev pub page_size : ℕ
page_size = 4096

abbrev pub page_present : ℕ
page_present = 1

abbrev pub page_writable : ℕ
page_writable = 2

abbrev pub page_user : ℕ
page_user = 4

abbrev pub kernel_base : ℕ
kernel_base = 0xffff_ffff_8000_0000

-- `physical_memory_manager_t`; `bitmap_size` is the length of the bitmap
pub record Pmm : Type 0 where
  pub total_memory : ℕ
  pub free_memory : ℕ
  pub used_memory : ℕ
  pub reserved_memory : ℕ
  pub bitmap : List ℕ

-- The managers, physical memory, and the static `kernel_heap` of `kmalloc_page`.
pub record Paging : Type 0 where
  pub pmm : Pmm
  pub memory : ℕ → ℕ
  pub pml4 : ℕ
  pub kernel_heap : ℕ

-- `pmm.bitmap[i / 8] & (1 << (i % 8))`
abbrev pub marked : List ℕ → ℕ → Bool
marked bitmap i = bit (get_or bitmap (i / 8) 0) (i % 8)

abbrev pub mark : List ℕ → ℕ → List ℕ
mark bitmap i = set bitmap (i / 8) (set_bit (get_or bitmap (i / 8) 0) (i % 8))

abbrev pub unmark : List ℕ → ℕ → List ℕ
unmark bitmap i = set bitmap (i / 8) (clear_bit (get_or bitmap (i / 8) 0) (i % 8))

abbrev pub store : Paging → ℕ → ℕ → Paging
store s a word = record s { memory = λ b. if b == a then word else s.memory b }

-- `memset(addr, 0, PAGE_SIZE)` for a page
abbrev pub clear_page : Paging → ℕ → Paging
clear_page s a = record s {
  memory = λ b. if leb a b && ltb b (a + page_size) then 0 else s.memory b;
}

-- The search loop of `pmm_alloc_page`, with `left` bits to look at, from bit `i` on.
pub first_clear : List ℕ → ℕ → ℕ → Option ℕ
first_clear bitmap zero i = none
first_clear bitmap (suc left) i = elim (marked bitmap i) [
  | true ↦ first_clear bitmap left (i + 1)
  | false ↦ some i
]

abbrev pub take_page : Pmm → ℕ → Pmm
take_page p i = record p {
  bitmap = mark p.bitmap i;
  free_memory = sub64 p.free_memory page_size;
  used_memory = u64 (p.used_memory + page_size);
}

abbrev pub release_page : Pmm → ℕ → Pmm
release_page p i = record p {
  bitmap = unmark p.bitmap i;
  free_memory = u64 (p.free_memory + page_size);
  used_memory = sub64 p.used_memory page_size;
}

pub pmm_alloc_page : Paging → Paging × ℕ
pmm_alloc_page s = elim (first_clear s.pmm.bitmap (length s.pmm.bitmap * 8) 0) [
  | none ↦ (s, 0)
  | some i ↦ (clear_page (record s { pmm = take_page s.pmm i }) (i * page_size), i * page_size)
]

-- A page that the bitmap does not cover is read as free.
pub pmm_free_page : Paging → ℕ → Paging
pmm_free_page s a =
    if not (a % page_size == 0)
    then s
    else if not (marked s.pmm.bitmap (a / page_size))
    then s
    else record s { pmm = release_page s.pmm (a / page_size) }

-- `& 0x000FFFFFFFFFF000`
abbrev pub frame : ℕ → ℕ
frame a = a % 2 ^ 52 / 4096 * 4096

pub paging_make_entry : ℕ → ℕ → ℕ
paging_make_entry phys_addr flags = bit_or (frame phys_addr) flags

abbrev pub present : ℕ → Bool
present entry = bit entry 0

-- One level of `paging_walk`: the table that the entry at `slot` names, made when it is not there and
-- `alloc` asks for it.
pub next_table : Paging → ℕ → Bool → ℕ → Paging × Option ℕ
next_table s slot alloc flags =
    if present (s.memory slot)
    then (s, some (frame (s.memory slot)))
    else if not alloc
    then (s, none)
    else (let (s', page) = pmm_alloc_page s in
        if page == 0
        then (s', none)
        else (let s'' =
              store s' slot
                (paging_make_entry page (bit_or (bit_or page_present page_writable) flags)) in
            (s'', some (frame (s''.memory slot)))))

-- The address of entry `(virt_addr >> shift) & 0x1FF` of a table.
abbrev pub slot_of : ℕ → ℕ → ℕ → ℕ
slot_of table virt_addr shift = table + virt_addr / 2 ^ shift % 512 * 8

-- The levels of tables below a table, down to the entry in the last one.
pub walk_from : List ℕ → Paging → ℕ → ℕ → Bool → ℕ → Paging × Option ℕ
walk_from [] s table virt_addr alloc flags = (s, some (slot_of table virt_addr 12))
walk_from (shift ∷ shifts) s table virt_addr alloc flags =
    let (s', next) = next_table s (slot_of table virt_addr shift) alloc flags in
    elim next [ none ↦ (s', none) | some t ↦ walk_from shifts s' t virt_addr alloc flags ]

pub paging_walk : Paging → ℕ → Bool → ℕ → Paging × Option ℕ
paging_walk s virt_addr alloc flags = walk_from (39 ∷ 30 ∷ 21 ∷ []) s s.pml4 virt_addr alloc flags

pub paging_map_page : Paging → ℕ → ℕ → ℕ → Paging × ℕ
paging_map_page s phys_addr virt_addr flags =
    let virt_addr = virt_addr / 4096 * 4096 in
    let (s', entry) = paging_walk s virt_addr true flags in
    elim entry [
      | none ↦ (s', 0)
      | some e ↦
          if present (s'.memory e)
          then (s', 0)
          else (store s' e (paging_make_entry phys_addr (bit_or page_present flags)), virt_addr)
    ]

pub paging_unmap_page : Paging → ℕ → Paging
paging_unmap_page s virt_addr =
    let (s', entry) = paging_walk s virt_addr false 0 in
    elim entry [ none ↦ s' | some e ↦ store s' e 0 ]

pub paging_get_physical_address : Paging → ℕ → ℕ
paging_get_physical_address s virt_addr =
    let (s', entry) = paging_walk s virt_addr false 0 in
    elim entry [ none ↦ 0 | some e ↦ frame (s'.memory e) + virt_addr % 4096 ]

-- `memory_map_entry_t`
pub record MemoryMapEntry : Type 0 where
  pub start : ℕ
  pub size : ℕ
  pub type : ℕ

abbrev pub add_entry : Pmm → MemoryMapEntry → Pmm
add_entry p m =
    if m.type == 1
    then record p {
      total_memory = u64 (p.total_memory + m.size);
      free_memory = u64 (p.free_memory + m.size);
    }
    else record p { reserved_memory = u64 (p.reserved_memory + m.size) }

-- The first loop of `paging_init`.
unfoldable pub add_memory : Pmm → List MemoryMapEntry → Pmm
add_memory p [] = p
add_memory p (m ∷ mmap) = add_memory (add_entry p m) mmap

-- The bytes of a bitmap with one bit for each page of `total` bytes.
abbrev pub bitmap_bytes : ℕ → ℕ
bitmap_bytes total =
    let n = total / page_size / 8 in if ltb (u64 (n * 8 * page_size)) total then n + 1 else n

-- `count` turns of a marking loop of `paging_init`, from page `i` on; `none` when it writes past the
-- bitmap.
pub mark_pages : List ℕ → ℕ → ℕ → Option (List ℕ)
mark_pages bitmap zero i = some bitmap
mark_pages bitmap (suc count) i =
    let rest = mark_pages (mark bitmap i) count (i + 1) in
    if ltb (i / 8) (length bitmap) then rest else none

-- The address of the bitmap.
abbrev bitmap_start : ℕ
bitmap_start = 0x100000

abbrev kernel_end : ℕ
kernel_end = 0x400000

abbrev pub no_memory : Pmm
no_memory = record {
  total_memory = 0;
  free_memory = 0;
  used_memory = 0;
  reserved_memory = 0;
  bitmap = [];
}

-- The statistics at the end of `paging_init`, with the marked bitmap.
abbrev pub charge : Pmm → List ℕ → Pmm
charge p bitmap =
    let reserved_pages = (kernel_end + length p.bitmap) / page_size in
    record p {
      bitmap = bitmap;
      free_memory = sub64 p.free_memory (reserved_pages * page_size);
      used_memory = u64 (p.used_memory + reserved_pages * page_size);
    }

-- The two loops that mark the pages of the kernel and of the bitmap, then the statistics.
pub reserve : Pmm → Option Pmm
reserve p =
    let n = length p.bitmap in
    elim (mark_pages p.bitmap (kernel_end / page_size) 0) [
      | none ↦ none
      | some kernel ↦
          elim (mark_pages kernel ((n + (page_size - 1)) / page_size) (bitmap_start / page_size)) [
            | none ↦ none
            | some all ↦ some (charge p all)
          ]
    ]

-- The symbol `boot_pml4` is a parameter.
pub paging_init : ℕ → Paging → List MemoryMapEntry → Option Paging
paging_init boot_pml4 s mmap =
    let p = add_memory no_memory mmap in
    let n = bitmap_bytes p.total_memory in
    elim (reserve (record p { bitmap = replicate n 0 })) [
      | none ↦ none
      | some p' ↦ some (record s { pmm = p'; pml4 = boot_pml4 })
    ]

paging_alloc_page : Paging → Paging × ℕ
paging_alloc_page s = pmm_alloc_page s

paging_free_page : Paging → ℕ → Paging
paging_free_page s addr = pmm_free_page s addr

-- `count` turns of the loop that copies the kernel's entries, from entry `i` on.
pub copy_entries : Paging → ℕ → ℕ → ℕ → Paging
copy_entries s new_pml4 zero i = s
copy_entries s new_pml4 (suc count) i =
    copy_entries (store s (new_pml4 + i * 8) (s.memory (s.pml4 + i * 8))) new_pml4 count (i + 1)

pub paging_create_user_address_space : Paging → Paging × ℕ
paging_create_user_address_space s =
    let (s', new_pml4) = pmm_alloc_page s in
    if new_pml4 == 0
    then (s', 0)
    else (copy_entries (clear_page s' new_pml4) new_pml4 256 256, new_pml4)

pub paging_alloc_user_page : Paging → ℕ → ℕ → ℕ → Paging × ℕ
paging_alloc_user_page s user_pml4 virt_addr flags =
    if leb kernel_base virt_addr
    then (s, 0)
    else (let (s', phys_addr) = pmm_alloc_page s in
        if phys_addr == 0
        then (s', 0)
        else (let (t, mapped_addr) =
              paging_map_page (record s' { pml4 = user_pml4 }) phys_addr virt_addr
                (bit_or flags page_user) in
            let t' = record t { pml4 = s'.pml4 } in
            if mapped_addr == 0 then (pmm_free_page t' phys_addr, 0) else (t', mapped_addr)))

paging_free_user_page : Paging → ℕ → ℕ → Paging
paging_free_user_page s user_pml4 virt_addr =
    let t = record s { pml4 = user_pml4 } in
    let phys_addr = paging_get_physical_address t virt_addr in
    let t' = paging_unmap_page t virt_addr in
    record (if phys_addr == 0 then t' else pmm_free_page t' phys_addr) { pml4 = s.pml4 }
