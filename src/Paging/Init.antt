-- ===== src/Paging/Init.antt =====
-- paging_init of paging.c: the bitmap that it leaves.
use curnel.Prelude.{
  ℕ, zero, suc, ◌+◌, ◌*◌, ◌/◌, ◌%◌, ◌^◌, ◌<◌, ◌≤◌, ◌≡◌, ◌⊎◌, inl, inr, refl, sym, ap, subst, ◌∙◌,
  Bool, true, false, ◌&&◌, ◌||◌, none, some, List, [], ◌∷◌, length, replicate, get_or-replicate,
  length-replicate, length-set, Bool-cases, ltb, leb, ◌==◌, if◌then◌else◌, u64, bit, arith,
}
use curnel.Paging.{
  Pmm, Paging, MemoryMapEntry, marked, mark, mark_pages, reserve, add_memory, add_entry, no_memory,
  charge, bitmap_bytes, paging_init, page_size,
}
use curnel.Paging.Pages.{IsBitmap, marked-mark, mark-IsBitmap}

-- What `mark_pages` leaves of a bitmap.
record Marked (bitmap bitmap' : List ℕ) (count i : ℕ) : Type 0 where
  pub well_formed : IsBitmap bitmap'
  pub same_size : length bitmap' ≡ length bitmap
  pub pages : (j : ℕ) → marked bitmap' j ≡ ((leb i j && ltb j (i + count)) || marked bitmap j)

mark_pages_in :
    (bitmap : List ℕ) (count i : ℕ)
    → i / 8 < length bitmap
    → mark_pages bitmap (suc count) i ≡ mark_pages (mark bitmap i) count (i + 1)
unfolding mark_pages
mark_pages_in bitmap count i h =
    let test : ltb (i / 8) (length bitmap) ≡ true = ground arith in rw (test, mark_pages) refl

range_empty : (i j : ℕ) (b : Bool) → b ≡ ((leb i j && ltb j (i + 0)) || b)
range_empty i j b = ground arith

range_step :
    (i j count : ℕ) (b : Bool)
    → ((leb (i + 1) j && ltb j (i + 1 + count)) || ((j == i) || b))
      ≡ ((leb i j && ltb j (i + suc count)) || b)
range_step i j count b = ground arith

mark_pages_lem :
    (bitmap : List ℕ) (count i : ℕ)
    → IsBitmap bitmap
    → i + count ≤ length bitmap * 8
    → (bitmap' : List ℕ) × (mark_pages bitmap count i ≡ some bitmap')
      × Marked bitmap bitmap' count i
unfolding mark_pages
mark_pages_lem bitmap zero i well room = (
  bitmap,
  refl,
  record { well_formed = well; same_size = refl; pages = λ j. range_empty i j (marked bitmap j) },
)
mark_pages_lem bitmap (suc count) i well room =
    let size : length (mark bitmap i) ≡ length bitmap = length-set bitmap (i / 8) _ in
    let (bitmap', e, m) =
      mark_pages_lem (mark bitmap i) count (i + 1) (mark-IsBitmap bitmap i well)
        (omega (arith, size)) in
    (
      bitmap',
      mark_pages_in bitmap count i (omega arith) ∙ e,
      record {
        well_formed = m.well_formed;
        same_size = m.same_size ∙ size;
        pages = λ j.
            m.pages j
            ∙ ap (λ x. (leb (i + 1) j && ltb j (i + 1 + count)) || x)
                (marked-mark bitmap i j well (omega arith))
            ∙ range_step i j count (marked bitmap j);
      },
    )

mark_pages_out :
    (bitmap : List ℕ) (count i : ℕ)
    → IsBitmap bitmap
    → i ≤ length bitmap * 8
    → length bitmap * 8 < i + count
    → mark_pages bitmap count i ≡ none
unfolding mark_pages
mark_pages_out bitmap zero i well low past = absurd (omega arith)
mark_pages_out bitmap (suc count) i well low past =
    elim (Bool-cases (ltb (i / 8) (length bitmap))) [
      | inl inside ↦
          let size : length (mark bitmap i) ≡ length bitmap = length-set bitmap (i / 8) _ in
          let here : i / 8 < length bitmap = ground arith in
          mark_pages_in bitmap count i here
          ∙ mark_pages_out (mark bitmap i) count (i + 1) (mark-IsBitmap bitmap i well)
              (omega (arith, size)) (omega (arith, size))
      | inr outside ↦ rw (outside, mark_pages) refl
    ]

marked-replicate : (n j : ℕ) → marked (replicate n 0) j ≡ false
marked-replicate n j = ap (λ x. bit x (j % 8)) (get_or-replicate n (j / 8) 0) ∙ ground arith

replicate-IsBitmap : (n : ℕ) → IsBitmap (replicate n 0)
replicate-IsBitmap zero = tt
replicate-IsBitmap (suc n) = (omega arith, replicate-IsBitmap n)

add_memory_bound :
    (p : Pmm) (mmap : List MemoryMapEntry)
    → p.total_memory < 2 ^ 64
    → (add_memory p mmap).total_memory < 2 ^ 64
unfolding add_memory
add_memory_bound p [] h = h
add_memory_bound p (m ∷ mmap) h = add_memory_bound (add_entry p m) mmap (bound (m.type == 1))
  where
    bound :
        (b : Bool)
        → (if b
            then record p {
              total_memory = u64 (p.total_memory + m.size);
              free_memory = u64 (p.free_memory + m.size);
            }
            else record p { reserved_memory = u64 (p.reserved_memory + m.size) }).total_memory
          < 2 ^ 64
    bound true = omega arith
    bound false = h

-- The bytes of the bitmap cover the memory.
bitmap_bytes_lem :
    (total : ℕ)
    → total < 2 ^ 64
    → (total ≤ bitmap_bytes total * 8 * page_size)
      × (bitmap_bytes total * 8 * page_size < total + 8 * page_size)
bitmap_bytes_lem total h = ground arith

-- The pages of the kernel, and those of a bitmap of `n` bytes.
abbrev kernel_pages : ℕ → ℕ → Bool
kernel_pages n j = ltb j 1024 || (leb 256 j && ltb j (256 + (n + 4095) / 4096))

-- What `paging_init` leaves for `total` bytes of memory.
pub record Initialised (total boot_pml4 : ℕ) (s : Paging) : Type 0 where
  pub well_formed : IsBitmap s.pmm.bitmap
  pub covers : total ≤ length s.pmm.bitmap * 8 * page_size
  pub tight : length s.pmm.bitmap * 8 * page_size < total + 8 * page_size
  pub pages : (j : ℕ) → marked s.pmm.bitmap j ≡ kernel_pages (length s.pmm.bitmap) j
  pub total_kept : s.pmm.total_memory ≡ total
  pub rooted : s.pml4 ≡ boot_pml4

module _ (p : Pmm) (n : ℕ) (fresh : p.bitmap ≡ replicate n 0) where
  size : length p.bitmap ≡ n
  size = ap length fresh ∙ length-replicate n 0

  well : IsBitmap p.bitmap
  well = subst IsBitmap (sym fresh) (replicate-IsBitmap n)

  reserve_out : n < 128 → reserve p ≡ none
  unfolding reserve
  reserve_out few =
      let e : mark_pages p.bitmap 1024 0 ≡ none =
        mark_pages_out p.bitmap 1024 0 well (omega arith) (omega (arith, size)) in
      rw (e, reserve) refl

  -- The bitmap that `reserve` leaves.
  record Reserved (p' : Pmm) : Type 0 where
    made : reserve p ≡ some p'
    byte_wise : IsBitmap p'.bitmap
    same_size : length p'.bitmap ≡ n
    total_kept : p'.total_memory ≡ p.total_memory
    pages : (j : ℕ) → marked p'.bitmap j ≡ kernel_pages n j

  reserve_in : 128 ≤ n → (p' : Pmm) × Reserved p'
  unfolding reserve
  reserve_in enough =
      let (kernel, e, k) = mark_pages_lem p.bitmap 1024 0 well (omega (arith, size)) in
      let (all, e', a) =
        mark_pages_lem kernel ((length p.bitmap + 4095) / 4096) 256 k.well_formed
          (omega (arith, size, k.same_size)) in
      (
        charge p all,
        record {
          made = rw (e, reserve) (rw (e', reserve) refl);
          byte_wise = a.well_formed;
          same_size = a.same_size ∙ k.same_size ∙ size;
          total_kept = refl;
          pages = λ j.
              a.pages j
              ∙ ap (λ x. (leb 256 j && ltb j (256 + (length p.bitmap + 4095) / 4096)) || x)
                  (k.pages j)
              ∙ ap
                  (λ x.
                    (leb 256 j && ltb j (256 + (x + 4095) / 4096))
                    || ((leb 0 j && ltb j 1024) || marked p.bitmap j))
                  size
              ∙ ap
                  (λ x.
                    (leb 256 j && ltb j (256 + (n + 4095) / 4096))
                    || ((leb 0 j && ltb j 1024) || x))
                  (ap (λ b. marked b j) fresh ∙ marked-replicate n j)
              ∙ order (leb 256 j && ltb j (256 + (n + 4095) / 4096)) j;
        },
      )
    where
      order : (b : Bool) (j : ℕ) → (b || ((leb 0 j && ltb j 1024) || false)) ≡ (ltb j 1024 || b)
      order b j = ground arith

-- `paging_init` writes past its bitmap when the usable memory takes at most 127 bytes of it, and
-- otherwise leaves a bitmap that covers the memory, in which exactly the pages below 4 MB and those of
-- the bitmap are in use.
pub paging_init_lem :
    (boot_pml4 : ℕ) (s : Paging) (mmap : List MemoryMapEntry)
    → let total = (add_memory no_memory mmap).total_memory in
      ((total ≤ 127 * 8 * page_size) × (paging_init boot_pml4 s mmap ≡ none))
      ⊎ ((127 * 8 * page_size < total)
          × (s' : Paging) × (paging_init boot_pml4 s mmap ≡ some s')
          × Initialised total boot_pml4 s')
unfolding paging_init
paging_init_lem boot_pml4 s mmap =
    let p = add_memory no_memory mmap in
    let n = bitmap_bytes p.total_memory in
    let p' = record p { bitmap = replicate n 0 } in
    let (over, under) =
      bitmap_bytes_lem p.total_memory (add_memory_bound no_memory mmap (omega arith)) in
    elim (Bool-cases (leb p.total_memory (127 * 8 * page_size))) [
      | inl few ↦
          let low : p.total_memory ≤ 127 * 8 * page_size = ground arith in
          let e : reserve p' ≡ none = reserve_out p' n refl (omega (arith, over, under)) in
          inl (low, rw (e, paging_init) refl)
      | inr enough ↦
          let high : 127 * 8 * page_size < p.total_memory = ground arith in
          let (p'', r) = reserve_in p' n refl (omega (arith, over, under)) in
          inr (
            high,
            record s { pmm = p''; pml4 = boot_pml4 },
            rw (r.made, paging_init) refl,
            record {
              well_formed = r.byte_wise;
              covers = omega (arith, r.same_size, over);
              tight = omega (arith, r.same_size, under);
              pages = λ j. r.pages j ∙ ap (λ x. kernel_pages x j) (sym r.same_size);
              total_kept = r.total_kept;
              rooted = refl;
            },
          )
    ]
