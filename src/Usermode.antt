-- ===== src/Usermode.antt =====
-- usermode.c: the descriptors of segments, the task state, and the checks and copies of user memory. The
-- bytes that the processor sees at virtual addresses are a function on them. Loading the tables into the
-- processor and the jump to user code are left out.
pub mod Validate
pub mod Load
mod Tests
use Prim.Native.Nat.{bit_or}
use curnel.Prelude.{
  ℕ, zero, suc, ◌+◌, ◌-◌, ◌*◌, ◌/◌, ◌%◌, ◌^◌, Bool, true, false, not, ◌&&◌, ◌||◌, Option, none,
  some, List, [], ◌∷◌, length, get_or, set, replicate, ltb, leb, ◌==◌, if◌then◌else◌, u32, u64,
  sub64, bit,
}
use curnel.Kernel.{Process}
use curnel.Paging.{Paging, page_size, present, paging_walk, paging_get_physical_address}

-- `gdt_entry_t`
pub record GdtEntry : Type 0 where
  pub limit_low : ℕ
  pub base_low : ℕ
  pub base_middle : ℕ
  pub access : ℕ
  pub granularity : ℕ
  pub base_high : ℕ

abbrev gdt_present : ℕ
gdt_present = 0x80

abbrev gdt_dpl_ring0 : ℕ
gdt_dpl_ring0 = 0x00

abbrev gdt_dpl_ring3 : ℕ
gdt_dpl_ring3 = 0x60

abbrev gdt_type_code : ℕ
gdt_type_code = 0x1a

abbrev gdt_type_data : ℕ
gdt_type_data = 0x12

abbrev gdt_type_tss : ℕ
gdt_type_tss = 0x09

abbrev gdt_long_mode : ℕ
gdt_long_mode = 0x20

abbrev pub user_base : ℕ
user_base = 0x40_0000

abbrev pub user_stack_top : ℕ
user_stack_top = 0x7fff_ffff_ffff

-- The entry that `gdt_set_gate` writes; `granularity & 0xF0` is `granularity / 16 % 16 * 16`.
abbrev pub gate : ℕ → ℕ → ℕ → ℕ → GdtEntry
gate base limit access granularity = record {
  limit_low = limit % 2 ^ 16;
  base_low = base % 2 ^ 16;
  base_middle = base / 2 ^ 16 % 2 ^ 8;
  access = access;
  granularity = bit_or (limit / 2 ^ 16 % 16) (granularity / 16 % 16 * 16);
  base_high = base / 2 ^ 24 % 2 ^ 8;
}

gdt_set_gate : List GdtEntry → ℕ → ℕ → ℕ → ℕ → ℕ → List GdtEntry
gdt_set_gate gdt num base limit access granularity =
    set gdt num (gate base limit access granularity)

gdt_set_tss : List GdtEntry → ℕ → ℕ → ℕ → ℕ → List GdtEntry
gdt_set_tss gdt num base limit access = gdt_set_gate gdt num (u32 base) limit access 0

-- `sizeof(tss_t)` as it is packed
abbrev tss_size : ℕ
tss_size = 104

-- The address of the task state is a parameter.
pub gdt_init : ℕ → List GdtEntry → List GdtEntry
gdt_init tss gdt0 =
    let gdt1 = gdt_set_gate gdt0 0 0 0 0 0 in
    let gdt2 =
      gdt_set_gate gdt1 1 0 0xfffff
        (bit_or (bit_or (bit_or gdt_present gdt_dpl_ring0) gdt_type_code) gdt_long_mode) 0xa0 in
    let gdt3 =
      gdt_set_gate gdt2 2 0 0xfffff (bit_or (bit_or gdt_present gdt_dpl_ring0) gdt_type_data)
        0xc0 in
    let gdt4 =
      gdt_set_gate gdt3 3 0 0xfffff
        (bit_or (bit_or (bit_or gdt_present gdt_dpl_ring3) gdt_type_code) gdt_long_mode) 0xa0 in
    let gdt5 =
      gdt_set_gate gdt4 4 0 0xfffff (bit_or (bit_or gdt_present gdt_dpl_ring3) gdt_type_data)
        0xc0 in
    gdt_set_tss gdt5 5 tss tss_size (bit_or gdt_present gdt_type_tss)

-- `tss_t` without its reserved fields
pub record Tss : Type 0 where
  pub rsp0 : ℕ
  pub rsp1 : ℕ
  pub rsp2 : ℕ
  pub ist : List ℕ
  pub iomap_base : ℕ

pub tss_init : ℕ → Tss
tss_init kernel_stack = record {
  rsp0 = kernel_stack;
  rsp1 = 0;
  rsp2 = 0;
  ist = replicate 7 0;
  iomap_base = 0;
}

tss_set_kernel_stack : Tss → ℕ → Tss
tss_set_kernel_stack tss stack = record tss { rsp0 = stack }

-- What `usermode_enter` leaves for the jump: the task state, the root that is loaded into cr3 if there is
-- one, and the arguments of `usermode_jump`.
pub record Jump : Type 0 where
  pub tss : Tss
  pub cr3 : Option ℕ
  pub user_cs : ℕ
  pub user_ds : ℕ
  pub user_rip : ℕ
  pub user_rsp : ℕ

-- `none` when there is no current process.
usermode_enter : Option Process → Tss → ℕ → ℕ → Option Jump
usermode_enter none tss entry_point user_stack = none
usermode_enter (some current) tss entry_point user_stack = some (record {
  tss = tss_set_kernel_stack tss (u64 (current.stack + current.stack_size));
  cr3 = if current.page_directory == 0 then none else some current.page_directory;
  user_cs = bit_or 0x18 3;
  user_ds = bit_or 0x20 3;
  user_rip = entry_point;
  user_rsp = user_stack;
})

-- What the kernel asks of the page at an address before it uses it for a process.
pub page_allowed : Paging → ℕ → ℕ → Bool
page_allowed s page access_flags =
    let (s', entry) = paging_walk s page false 0 in
    if paging_get_physical_address s page == 0 then false else elim entry [
      | none ↦ false
      | some e ↦
          let word = s'.memory e in
          present word && (bit word 2 && (not (bit access_flags 1) || bit word 1))
    ]

-- The loop of `usermode_validate_pointer`; `none` when the fuel is used up.
pub check_pages : Paging → ℕ → ℕ → ℕ → ℕ → Option Bool
check_pages s access_flags zero page end_page = none
check_pages s access_flags (suc fuel) page end_page =
    let rest = check_pages s access_flags fuel (u64 (page + page_size)) end_page in
    if not (leb page end_page)
    then some true
    else if page_allowed s page access_flags
    then rest
    else some false

abbrev pub page_of : ℕ → ℕ
page_of a = a / 4096 * 4096

pub usermode_validate_pointer : Paging → ℕ → ℕ → ℕ → ℕ → Option Bool
usermode_validate_pointer s fuel ptr size access_flags =
    let end_addr = sub64 (u64 (ptr + size)) 1 in
    let pages = check_pages s access_flags fuel (page_of ptr) (page_of end_addr) in
    if ltb ptr user_base || leb user_stack_top ptr then some false else pages

-- The bytes at the addresses from `src` on.
pub load_bytes : (ℕ → ℕ) → ℕ → ℕ → List ℕ
load_bytes bytes src zero = []
load_bytes bytes src (suc n) = bytes src ∷ load_bytes bytes (u64 (src + 1)) n

pub store_bytes : (ℕ → ℕ) → ℕ → List ℕ → ℕ → ℕ
store_bytes bytes dst [] = bytes
store_bytes bytes dst (b ∷ bs) =
    store_bytes (λ a. if a == dst then b else bytes a) (u64 (dst + 1)) bs

-- The bytes that are copied to `dst`; none within for a refusal.
pub usermode_copy_from_user : Paging → (ℕ → ℕ) → ℕ → ℕ → ℕ → Option (Option (List ℕ))
usermode_copy_from_user s bytes fuel src size = elim (usermode_validate_pointer s fuel src size 0) [
  | none ↦ none
  | some false ↦ some none
  | some true ↦ some (some (load_bytes bytes src size))
]

-- The bytes at all addresses after the call, with its result.
pub usermode_copy_to_user : Paging → (ℕ → ℕ) → ℕ → ℕ → List ℕ → Option ((ℕ → ℕ) × Bool)
usermode_copy_to_user s bytes fuel dst src =
    elim (usermode_validate_pointer s fuel dst (length src) 2) [
      | none ↦ none
      | some false ↦ some (bytes, false)
      | some true ↦ some (store_bytes bytes dst src, true)
    ]
