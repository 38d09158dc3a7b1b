-- ===== src/Memory/Tests.antt =====
-- Runs of the allocator of memory.c, and its theorems at concrete heaps.
use curnel.Prelude.{ℕ, ◌+◌, ◌-◌, ◌^◌, ◌≡◌, refl, true, false, some, [], ◌∷◌, arith}
use curnel.Memory.{
  Heap, unused, region_start, region_size, header, memory_init, align8, place, find_fit, kmalloc,
  mark_free, coalesce_from, coalesce, kfree,
}
use curnel.Memory.Layout.{IsValid, kmalloc-IsValid, region_end}
use curnel.Memory.Used.{used, Granted, kmalloc-Granted}
use curnel.Memory.RoundTrip.{kfree-kmalloc}
use curnel.Memory.Free.{Released, kfree-Released, kmalloc_wraps}

-- The heap after `kmalloc(100)`, which is rounded up to 104, on a fresh one.
abbrev one_taken : Heap
one_taken = record {
  memory_start =
      record { addr = region_start; size = 104; is_free = false }
      ∷ record { addr = region_start + 128; size = region_size - 152; is_free = true }
      ∷ [];
  memory_initialized = true;
}

abbrev first_payload : ℕ
first_payload = region_start + header

kmalloc_first : kmalloc unused 100 ≡ (some first_payload, one_taken)
unfolding kmalloc memory_init align8 find_fit place
kmalloc_first = refl

kfree_first : kfree one_taken first_payload ≡ some (memory_init unused)
unfolding kfree mark_free coalesce coalesce_from memory_init
kfree_first = refl

unused-IsValid : IsValid unused
unused-IsValid = record { tiled = λ on. cc }

one_taken-IsValid : IsValid one_taken
one_taken-IsValid = record { tiled = λ on. omega arith }

kmalloc-IsValid_example : IsValid (kmalloc unused 100).1
kmalloc-IsValid_example = kmalloc-IsValid unused 100 unused-IsValid

kmalloc-Granted_example :
    Granted
      (align8 100)
      first_payload
      region_start
      region_end
      (memory_init unused).memory_start
      one_taken.memory_start
kmalloc-Granted_example =
    kmalloc-Granted unused one_taken 100 first_payload unused-IsValid kmalloc_first

kfree-kmalloc_example : kfree one_taken first_payload ≡ some (memory_init unused)
unfolding memory_init
kfree-kmalloc_example =
    kfree-kmalloc unused one_taken 100 first_payload unused-IsValid tt kmalloc_first

kfree-Released_example :
    Released first_payload one_taken.memory_start (memory_init unused).memory_start
kfree-Released_example =
    kfree-Released one_taken (memory_init unused) first_payload (omega arith) (omega arith)
      kfree_first

kmalloc_wraps_example :
    ((kmalloc unused (2 ^ 64 - 1)).0 ≡ some (region_start + header))
    × (used (kmalloc unused (2 ^ 64 - 1)).1.memory_start ≡ (region_start + header, 0) ∷ [])
kmalloc_wraps_example = kmalloc_wraps (2 ^ 64 - 1) (omega arith) (omega arith)
