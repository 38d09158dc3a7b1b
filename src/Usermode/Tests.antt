-- ===== src/Usermode/Tests.antt =====
-- usermode.c on small memories.
use curnel.Prelude.{ℕ, ◌+◌, ◌%◌, ◌<◌, ◌≤◌, ◌≡◌, ◌⊎◌, true, false, some, [], arith}
use curnel.Paging.{Paging}
use curnel.Usermode.{user_base, user_stack_top, page_allowed, page_of, usermode_validate_pointer}
use curnel.Usermode.Validate.{usermode_validate_pointer_lem, usermode_validate_pointer_wraps}

abbrev no_tables : Paging
no_tables = record {
  pmm = record {
    total_memory = 0;
    free_memory = 0;
    used_memory = 0;
    reserved_memory = 0;
    bitmap = [];
  };
  memory = λ _. 0;
  pml4 = 4096;
  kernel_heap = 0;
}

usermode_validate_pointer_lem_example :
    ((usermode_validate_pointer no_tables 9 0x40_0ffe 5 2 ≡ some true)
      × (user_base ≤ 0x40_0ffe)
      × (0x40_0ffe < user_stack_top)
      × ((k : ℕ) → page_allowed no_tables (page_of (0x40_0ffe + k % 5)) 2 ≡ true))
    ⊎ ((usermode_validate_pointer no_tables 9 0x40_0ffe 5 2 ≡ some false)
        × ((0x40_0ffe < user_base)
            ⊎ (user_stack_top ≤ 0x40_0ffe)
            ⊎ ((k : ℕ) × (k < 5) × (page_allowed no_tables (page_of (0x40_0ffe + k)) 2 ≡ false))))
usermode_validate_pointer_lem_example =
    usermode_validate_pointer_lem no_tables 2 9 0x40_0ffe 5 (omega arith) (omega arith)
      (omega arith)

usermode_validate_pointer_wraps_example :
    usermode_validate_pointer no_tables 1 0x40_2000 0xffff_ffff_ffff_f000 2 ≡ some true
usermode_validate_pointer_wraps_example =
    usermode_validate_pointer_wraps no_tables 2 1 0x40_2000 0xffff_ffff_ffff_f000 (omega arith)
      (omega arith) (omega arith) (omega arith) (omega arith)
