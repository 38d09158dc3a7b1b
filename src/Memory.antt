-- ===== src/Memory.antt =====
-- The kernel heap of memory.c: a first-fit allocator over one region of 1 MB at 1 MB.
-- The chain of `memory_block_t` headers that starts at `memory_start` is the list of its blocks
-- in the order of their `next` pointers; a block carries the address of its header.
pub mod Layout
pub mod Used
pub mod RoundTrip
pub mod Free
mod Tests
use mathlib.Core.Option
use curnel.Prelude.{
  ℕ, ◌+◌, ◌-◌, ◌%◌, Bool, true, false, not, ◌&&◌, ◌||◌, Option, none, some, List, [], ◌∷◌, ltb, leb,
  ◌==◌, if◌then◌else◌, u64, sub64,
}

-- `memory_block_t`
pub record Block : Type 0 where
  pub addr : ℕ
  pub size : ℕ
  pub is_free : Bool

-- The file's two static variables.
pub record Heap : Type 0 where
  pub memory_start : List Block
  pub memory_initialized : Bool

abbrev pub region_start : ℕ
region_start = 0x100000

abbrev pub region_size : ℕ
region_size = 0x100000

-- `sizeof(memory_block_t)`: 8 bytes of size, one flag padded to 8, and a pointer
abbrev pub header : ℕ
header = 24

abbrev pub block_size : ℕ
block_size = 4096

-- The statics as the program loads them.
abbrev pub unused : Heap
unused = record { memory_start = []; memory_initialized = false }

pub memory_init : Heap → Heap
memory_init h = if h.memory_initialized then h else record {
  memory_start = record { addr = region_start; size = region_size - header; is_free = true } ∷ [];
  memory_initialized = true;
}

pub align8 : ℕ → ℕ
align8 size = if size % 8 == 0 then size else u64 (size + (8 - size % 8))

-- The body of the loop of `kmalloc` for a block that fits.
pub place : ℕ → Block → List Block → Option ℕ × List Block
place size b rest =
    if ltb (u64 (size + header + block_size)) b.size
    then (
      some (u64 (b.addr + header)),
      record b { size = size; is_free = false }
          ∷ record {
            addr = u64 (b.addr + header + size);
            size = sub64 (sub64 b.size size) header;
            is_free = true;
          }
          ∷ rest,
    )
    else (some (u64 (b.addr + header)), record b { is_free = false } ∷ rest)

pub find_fit : ℕ → List Block → Option ℕ × List Block
find_fit size [] = (none, [])
find_fit size (b ∷ rest) =
    let (p, rest') = find_fit size rest in
    if b.is_free && leb size b.size then place size b rest else (p, b ∷ rest')

-- `none` is NULL.
pub kmalloc : Heap → ℕ → Option ℕ × Heap
kmalloc h size =
    let h = memory_init h in
    let (p, blocks) = find_fit (align8 size) h.memory_start in
    if size == 0 then (none, h) else (p, record h { memory_start = blocks })

-- The write `block->is_free = 1`. `none`: no header stands there, and the write would go astray.
pub mark_free : ℕ → List Block → Option (List Block)
mark_free a [] = none
mark_free a (b ∷ rest) =
    let tail = mark_free a rest in
    if b.addr == a then some (record b { is_free = true } ∷ rest) else Option.map (λ r. b ∷ r) tail

abbrev pub merge : Block → Block → Block
merge c n = record c { size = u64 (c.size + header + n.size) }

-- The second loop of `kfree`, at `current` with what follows it.
pub coalesce_from : Block → List Block → List Block
coalesce_from c [] = c ∷ []
coalesce_from c (n ∷ rest) = elim (c.is_free && n.is_free) [
  | true ↦ coalesce_from (merge c n) rest
  | false ↦ c ∷ coalesce_from n rest
]

pub coalesce : List Block → List Block
coalesce [] = []
coalesce (c ∷ rest) = coalesce_from c rest

-- `ptr` is 0 for NULL; `none` is the stray write of `mark_free`.
pub kfree : Heap → ℕ → Option Heap
kfree h ptr =
    if ptr == 0 || not h.memory_initialized
    then some h
    else Option.map (λ bs. record h { memory_start = coalesce bs })
        (mark_free (sub64 ptr header) h.memory_start)
