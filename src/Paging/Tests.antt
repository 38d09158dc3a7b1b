-- ===== src/Paging/Tests.antt =====
-- paging.c on small memories.
use curnel.Prelude.{
  ℕ, ◌+◌, ◌*◌, ◌%◌, ◌<◌, ◌≤◌, ◌≡◌, ◌≢◌, ◌⊎◌, refl, true, some, none, List, [], ◌∷◌, length, arith,
  ◌==◌, if◌then◌else◌, ==_iff, Bool-cases, ap, inl, inr,
}
use curnel.Paging.{
  Paging, MemoryMapEntry, marked, first_clear, pmm_alloc_page, pmm_free_page, next_table, walk_from,
  paging_make_entry, paging_walk, paging_map_page, paging_get_physical_address,
  paging_create_user_address_space, paging_alloc_user_page, paging_init, frame, add_memory,
  no_memory, page_size,
}
use curnel.Paging.Pages.{Full, Taken, pmm_alloc_page_lem, pmm_free_page-pmm_alloc_page}
use curnel.Paging.Tables.{Tables}
use curnel.Paging.Map.{paging_get_physical_address-paging_map_page, paging_map_page-Tables}
use curnel.Paging.Halves.{in_space, paging_create_user_address_space-kernel_half}
use curnel.Paging.User.{UserPage, paging_alloc_user_page-UserPage}
use curnel.Paging.Init.{Initialised, paging_init_lem}

-- Sixteen bytes of bitmap, of which pages 0 and 1 are in use; page 1 is an empty root.
abbrev one_root : Paging
one_root = record {
  pmm = record {
    total_memory = 524288;
    free_memory = 516096;
    used_memory = 8192;
    reserved_memory = 0;
    bitmap = 3 ∷ 0 ∷ 0 ∷ 0 ∷ 0 ∷ 0 ∷ 0 ∷ 0 ∷ 0 ∷ 0 ∷ 0 ∷ 0 ∷ 0 ∷ 0 ∷ 0 ∷ 0 ∷ [];
  };
  memory = λ _. 0;
  pml4 = 4096;
  kernel_heap = 0xffff_ffff_8000_0000;
}

abbrev root_level : ℕ → ℕ
root_level p = if p == 1 then 4 else 0

one_root-Tables : Tables one_root root_level 1
one_root-Tables = record {
  well_formed = omega arith;
  small = omega arith;
  rooted = refl;
  top = refl;
  owned = owned';
  down = λ p i l low deep on. absurd (cc on);
}
  where
    owned' : (p : ℕ) → root_level p ≢ 0 → marked one_root.pmm.bitmap p ≡ true
    owned' p h = elim (Bool-cases (p == 1)) [
      | inl hit ↦ ap (marked one_root.pmm.bitmap) ((==_iff p 1).0 hit)
      | inr miss ↦ absurd (h (rw miss refl))
    ]

takes_lowest : (pmm_alloc_page one_root).1 ≡ 8192
unfolding pmm_alloc_page first_clear
takes_lowest = refl

pmm_alloc_page_lem_example :
    (Full one_root.pmm.bitmap (length one_root.pmm.bitmap * 8)
      × (pmm_alloc_page one_root ≡ (one_root, 0)))
    ⊎ ((i : ℕ) × ((pmm_alloc_page one_root).1 ≡ i * page_size)
        × Taken one_root (pmm_alloc_page one_root).0 i)
pmm_alloc_page_lem_example = pmm_alloc_page_lem one_root one_root-Tables.well_formed

pmm_free_page-pmm_alloc_page_example :
    (pmm_free_page (pmm_alloc_page one_root).0 (pmm_alloc_page one_root).1).pmm ≡ one_root.pmm
pmm_free_page-pmm_alloc_page_example =
    pmm_free_page-pmm_alloc_page one_root one_root-Tables.well_formed (omega arith) (omega arith)
      (λ e. omega (arith, e, takes_lowest))

maps : (paging_map_page one_root 0x7000 0x40_2345 2).1 ≡ 0x40_2000
unfolding paging_map_page paging_walk walk_from next_table paging_make_entry pmm_alloc_page
    first_clear
maps = refl

paging_get_physical_address-paging_map_page_example :
    paging_get_physical_address (paging_map_page one_root 0x7000 0x40_2345 2).0 0x40_2678
    ≡ frame 0x7000 + 0x40_2678 % 4096
paging_get_physical_address-paging_map_page_example =
    paging_get_physical_address-paging_map_page one_root root_level 1 0x7000 0x40_2345 2 0x40_2678
      one_root-Tables (omega arith) (λ e. omega (arith, e, maps)) refl

paging_map_page-Tables_example :
    (level' : ℕ → ℕ) × Tables (paging_map_page one_root 0x7000 0x40_2345 2).0 level' 1
paging_map_page-Tables_example =
    paging_map_page-Tables one_root root_level 1 0x7000 0x40_2345 2 one_root-Tables (omega arith)
      (λ e. omega (arith, e, maps))

makes_space : (paging_create_user_address_space one_root).1 ≡ 8192
unfolding paging_create_user_address_space pmm_alloc_page first_clear
makes_space = refl

paging_create_user_address_space-kernel_half_example :
    paging_get_physical_address
      (in_space
        (paging_create_user_address_space one_root).0
        (paging_create_user_address_space one_root).1)
      0xffff_ffff_8000_0000
    ≡ paging_get_physical_address one_root 0xffff_ffff_8000_0000
paging_create_user_address_space-kernel_half_example =
    paging_create_user_address_space-kernel_half one_root root_level 1 0xffff_ffff_8000_0000
      one_root-Tables (λ e. omega (arith, e, makes_space)) (omega arith)

gives_user : (paging_alloc_user_page one_root 4096 0x40_0000 2).1 ≡ 0x40_0000
unfolding paging_alloc_user_page paging_map_page paging_walk walk_from next_table paging_make_entry
    pmm_alloc_page first_clear
gives_user = refl

paging_alloc_user_page-UserPage_example :
    UserPage one_root 4096 0x40_0000 2 (paging_alloc_user_page one_root 4096 0x40_0000 2)
paging_alloc_user_page-UserPage_example =
    paging_alloc_user_page-UserPage one_root 4096 0x40_0000 2 root_level 1 one_root-Tables
      (omega arith) (λ e. omega (arith, e, gives_user))

abbrev one_region : List MemoryMapEntry
one_region = record { start = 0; size = 0x80_0000; type = 1 } ∷ []

paging_init_lem_example :
    let total = (add_memory no_memory one_region).total_memory in
    ((total ≤ 127 * 8 * page_size) × (paging_init 0x9000 one_root one_region ≡ none))
    ⊎ ((127 * 8 * page_size < total)
        × (s' : Paging) × (paging_init 0x9000 one_root one_region ≡ some s')
        × Initialised total 0x9000 s')
paging_init_lem_example = paging_init_lem 0x9000 one_root one_region
