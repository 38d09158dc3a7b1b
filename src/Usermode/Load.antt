-- ===== src/Usermode/Load.antt =====
-- usermode_load_program of usermode.c: a program of a file in the pages of a new address space. The file
-- is read to the virtual addresses of the space in force, as the source does. A result `none` stands for
-- a read that has used up its fuel.
use Prim.Native.Nat.{bit_or}
use curnel.Prelude.{
  ℕ, zero, suc, ◌+◌, ◌-◌, ◌*◌, ◌/◌, ◌%◌, ◌^◌, Bool, true, false, not, ◌&&◌, Option, none, some,
  List, ltb, ◌==◌, if◌then◌else◌, u32, u64, bit,
}
use curnel.Kernel.{Process}
use curnel.Paging.{
  Paging, page_size, page_present, page_writable, page_user, paging_create_user_address_space,
  paging_alloc_user_page,
}
use curnel.Filesystem.{Ata, FsInfo, File, byte, get16, get32, fs_success, fs_seek}
use curnel.Filesystem.Open.{fs_open}
use curnel.Filesystem.Files.{fs_read}
use curnel.Usermode.{user_stack_top, store_bytes}

-- `*((uint64_t*)(header + i))`
abbrev get64 : List ℕ → ℕ → ℕ
get64 header i = get32 header i + get32 header (i + 4) * 2 ^ 32

-- The tables and the bytes at virtual addresses, with the open file.
pub record Loading : Type 0 where
  pub paging : Paging
  pub bytes : ℕ → ℕ
  pub file : File

-- What a call leaves, and whether it succeeded.
pub record Loaded : Type 0 where
  pub paging : Paging
  pub bytes : ℕ → ℕ
  pub process : Process
  pub result : Bool

abbrev unloaded : Loading → Process → Loaded
unloaded l process = record {
  paging = l.paging;
  bytes = l.bytes;
  process = process;
  result = false;
}

-- The tests of the ELF header: the magic number, 64 bits, executable.
is_program : List ℕ → Bool
is_program h =
    (byte h 0 == 0x7f)
    && ((byte h 1 == 69)
        && ((byte h 2 == 76) && ((byte h 3 == 70) && ((byte h 4 == 2) && (byte h 16 == 2)))))

-- The loop that maps the pages of the stack, with `left` pages to go, from `addr` on.
map_stack : Paging → ℕ → ℕ → ℕ → Paging × Bool
map_stack s user_pml4 zero addr = (s, true)
map_stack s user_pml4 (suc left) addr =
    let flags = bit_or (bit_or page_present page_writable) page_user in
    let (s', page) = paging_alloc_user_page s user_pml4 addr flags in
    let rest = map_stack s' user_pml4 left (addr + page_size) in
    if page == 0 then (s', false) else rest

module _ (a : Ata) (fs_info : FsInfo) (disk : a.Disk) (fuel : ℕ) where
  -- Reading to a virtual address; the result of the call is not looked at.
  read_to : Loading → ℕ → ℕ → ℕ → Option Loading
  read_to l position address size =
      elim (fs_read a fs_info disk fuel (fs_seek fs_info l.file position).0 size) [
        | none ↦ none
        | some r ↦ some (record l { bytes = store_bytes l.bytes address r.buffer; file = r.file })
      ]

  -- The bytes of page `j` that the file has, and their place in the page.
  abbrev page_bytes : ℕ → ℕ → ℕ → ℕ
  page_bytes filesz page_offset j =
      let n = page_size - page_offset in
      if ltb filesz (u64 (j * page_size + n)) then filesz - j * page_size else n

  -- The loop over the pages of a segment, with `left` pages to go, from page `j` on; none within for a
  -- page that cannot be had.
  load_pages : List ℕ → ℕ → ℕ → Loading → ℕ → ℕ → Option (Loading × Bool)
  load_pages ph user_pml4 page_flags l zero j = some (l, true)
  load_pages ph user_pml4 page_flags l (suc left) j =
      let p_vaddr = get64 ph 16 in
      let filesz = get64 ph 32 in
      let vaddr = u64 (p_vaddr / 4096 * 4096 + j * page_size) in
      let page_offset = if j == 0 then p_vaddr % 4096 else 0 in
      let (s', page) = paging_alloc_user_page l.paging user_pml4 vaddr page_flags in
      let l' = record l { paging = s' } in
      let empty = load_pages ph user_pml4 page_flags l' left (j + 1) in
      let position = u32 (get64 ph 8 + j * page_size) in
      let filled =
        elim (read_to l' position (u64 (vaddr + page_offset)) (page_bytes filesz page_offset j))
          as (λ _. Option (Loading × Bool)) [
            | none ↦ none
            | some l'' ↦ load_pages ph user_pml4 page_flags l'' left (j + 1)
          ] in
      if page == 0
      then some (l', false)
      else if ltb (u64 (j * page_size)) filesz
      then filled
      else empty

  -- The loop over the program headers, with `left` headers to go, from header `i` on.
  load_segments : List ℕ → ℕ → Loading → ℕ → ℕ → Option (Loading × Bool)
  load_segments header user_pml4 l zero i = some (l, true)
  load_segments header user_pml4 l (suc left) i =
      let file = (fs_seek fs_info l.file (u32 (get64 header 32 + i * get16 header 54))).0 in
      elim (fs_read a fs_info disk fuel file 56) as (λ _. Option (Loading × Bool)) [
        | none ↦ none
        | some r ↦
            let ph = r.buffer in
            let l' = record l { file = r.file } in
            let page_flags =
              if bit (get32 ph 4) 1 then bit_or page_present page_writable else page_present in
            let page_count = u64 (get64 ph 40 + (page_size - 1)) / page_size in
            let next = load_segments header user_pml4 l' left (i + 1) in
            let loaded =
              elim (load_pages ph user_pml4 page_flags l' page_count 0)
                as (λ _. Option (Loading × Bool)) [
                  | none ↦ none
                  | some (l'', false) ↦ some (l'', false)
                  | some (l'', true) ↦ load_segments header user_pml4 l'' left (i + 1)
                ] in
            if not (r.result == 56)
            then some (l', false)
            else if not (get32 ph 0 == 1)
            then next
            else loaded
      ]

  -- From the new address space to the registers of the process.
  load_image : Loading → Process → List ℕ → Option Loaded
  load_image l process header =
      let (s', user_pml4) = paging_create_user_address_space l.paging in
      let l' = record l { paging = s' } in
      let process' = record process { page_directory = user_pml4 } in
      if user_pml4 == 0
      then some (unloaded l' process)
      else elim (load_segments header user_pml4 l' (get16 header 56) 0) [
        | none ↦ none
        | some (l'', false) ↦ some (unloaded l'' process')
        | some (l'', true) ↦
            let (t, mapped) = map_stack l''.paging user_pml4 16 (user_stack_top - 0x1_0000) in
            some (
              if mapped
              then record {
                paging = t;
                bytes = l''.bytes;
                process = record process' {
                  registers = record process'.registers {
                    rip = get64 header 24;
                    rsp = user_stack_top;
                  };
                };
                result = true;
              }
              else unloaded (record l'' { paging = t }) process')
      ]

  -- `file` is what the structure on the stack holds before.
  usermode_load_program : Paging → (ℕ → ℕ) → Process → List ℕ → File → Option Loaded
  usermode_load_program s bytes process filename file =
      let (file', opened) = fs_open a fs_info disk filename file in
      let failed = unloaded (record { paging = s; bytes = bytes; file = file' }) process in
      if not (opened == fs_success)
      then some failed
      else elim (fs_read a fs_info disk fuel file' 64) as (λ _. Option Loaded) [
        | none ↦ none
        | some r ↦
            let image =
              load_image (record { paging = s; bytes = bytes; file = r.file }) process r.buffer in
            if not (r.result == 64)
            then some failed
            else if not (is_program r.buffer)
            then some failed
            else image
      ]
