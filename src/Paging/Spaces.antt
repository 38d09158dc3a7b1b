-- ===== src/Paging/Spaces.antt =====
-- paging_create_user_address_space of paging.c.
use curnel.Prelude.{
  ℕ, zero, suc, ◌+◌, ◌*◌, ◌<◌, ◌≤◌, ◌≡◌, ◌≢◌, ◌⊎◌, inl, inr, refl, sym, ap, ap₂, subst, ◌∙◌, true,
  false, ◌&&◌, ◌||◌, length, Bool-cases, ltb, leb, ◌==◌, arith, ==_iff, ==_refl,
}
use curnel.Paging.{
  Paging, marked, pmm_alloc_page, clear_page, copy_entries, paging_create_user_address_space,
  page_size, store,
}
use curnel.Paging.Pages.{IsBitmap, Taken, pmm_alloc_page_lem}
use curnel.Paging.Tables.{Tables}

store_ne : (s : Paging) (a b word : ℕ) → b ≢ a → (store s a word).memory b ≡ s.memory b
store_ne s a b word far = let miss : (b == a) ≡ false = ground (arith, far) in rw miss refl

store_self : (s : Paging) (a word : ℕ) → (store s a word).memory a ≡ word
store_self s a word = rw (==_refl a) refl

-- The loop writes to the entries of the new table from the first on, and nothing else.
module _ (j : ℕ) where
  copy_entries-kept :
      (s : Paging) (count i q k : ℕ)
      → i + count ≤ 512
      → k < 512
      → (q ≢ j) ⊎ (k < i)
      → (copy_entries s (j * 4096) count i).memory (q * 4096 + k * 8) ≡ s.memory (q * 4096 + k * 8)
  unfolding copy_entries
  copy_entries-kept s zero i q k room low far = refl
  copy_entries-kept s (suc count) i q k room low far =
      let word = s.memory (s.pml4 + i * 8) in
      copy_entries-kept (store s (j * 4096 + i * 8) word) count (i + 1) q k (omega arith) low
        (elim far [ inl h ↦ inl h | inr h ↦ inr (omega arith) ])
      ∙ store_ne s (j * 4096 + i * 8) (q * 4096 + k * 8) word
          (elim far [ inl h ↦ λ e. h (omega arith) | inr h ↦ λ e. omega arith ])

  copy_entries-copied :
      (s : Paging) (p count i k : ℕ)
      → s.pml4 ≡ p * 4096
      → p ≢ j
      → i + count ≤ 512
      → i ≤ k
      → k < i + count
      → (copy_entries s (j * 4096) count i).memory (j * 4096 + k * 8) ≡ s.memory (p * 4096 + k * 8)
  unfolding copy_entries
  copy_entries-copied s p zero i k rooted far room from to = absurd (omega arith)
  copy_entries-copied s p (suc count) i k rooted far room from to =
      let word = s.memory (s.pml4 + i * 8) in
      let s1 = store s (j * 4096 + i * 8) word in
      elim (Bool-cases (k == i)) [
        | inl hit ↦
            let same : k ≡ i = (==_iff k i).0 hit in
            copy_entries-kept s1 count (i + 1) j k (omega arith) (omega arith) (inr (omega arith))
            ∙ ap (λ x. s1.memory (j * 4096 + x * 8)) same
            ∙ store_self s (j * 4096 + i * 8) word
            ∙ ap₂ (λ x y. s.memory (x + y * 8)) rooted (sym same)
        | inr miss ↦
            copy_entries-copied s1 p count (i + 1) k rooted far (omega arith) (ground arith)
              (omega arith)
            ∙ store_ne s (j * 4096 + i * 8) (p * 4096 + k * 8) word (λ e. far (omega arith))
      ]

copy_entries-same :
    (s : Paging) (a count i : ℕ)
    → ((copy_entries s a count i).pmm ≡ s.pmm) × ((copy_entries s a count i).pml4 ≡ s.pml4)
unfolding copy_entries
copy_entries-same s a zero i = (refl, refl)
copy_entries-same s a (suc count) i =
    copy_entries-same (store s (a + i * 8) (s.memory (s.pml4 + i * 8))) a count (i + 1)

-- A page that a call of `paging_create_user_address_space` gives, as the root of an address space.
pub record Space (s s' : Paging) (root j : ℕ) : Type 0 where
  pub was_free : marked s.pmm.bitmap j ≡ false
  pub same_root : s'.pml4 ≡ s.pml4
  pub now_marked : (q : ℕ) → marked s'.pmm.bitmap q ≡ ((q == j) || marked s.pmm.bitmap q)
  pub well_formed : IsBitmap s'.pmm.bitmap
  pub same_size : length s'.pmm.bitmap ≡ length s.pmm.bitmap
  pub user_half : (k : ℕ) → k < 256 → s'.memory (j * 4096 + k * 8) ≡ 0
  pub kernel_half :
      (k : ℕ) → 256 ≤ k → k < 512 → s'.memory (j * 4096 + k * 8) ≡ s.memory (root * 4096 + k * 8)
  pub elsewhere :
      (q k : ℕ) → q ≢ j → k < 512 → s'.memory (q * 4096 + k * 8) ≡ s.memory (q * 4096 + k * 8)

module _ (s : Paging) (level : ℕ → ℕ) (root : ℕ) (t : Tables s level root) where
  space_null : ((pmm_alloc_page s).1 == 0) ≡ true → (paging_create_user_address_space s).1 ≡ 0
  unfolding paging_create_user_address_space
  space_null null = rw (null, paging_create_user_address_space) refl

  space_made :
      ((pmm_alloc_page s).1 == 0) ≡ false
      → paging_create_user_address_space s ≡ (
        copy_entries
            (clear_page (pmm_alloc_page s).0 (pmm_alloc_page s).1)
            (pmm_alloc_page s).1
            256
            256,
        (pmm_alloc_page s).1,
      )
  unfolding paging_create_user_address_space
  space_made given = rw (given, paging_create_user_address_space) refl

  clear_page_in :
      (u : Paging) (j k : ℕ) → k < 512 → (clear_page u (j * 4096)).memory (j * 4096 + k * 8) ≡ 0
  clear_page_in u j k low =
      let inside : (leb (j * page_size) (j * 4096 + k * 8)
            && ltb (j * 4096 + k * 8) (j * page_size + page_size))
          ≡ true =
        ground arith in
      rw inside refl

  clear_page_out :
      (u : Paging) (j q k : ℕ)
      → k < 512
      → q ≢ j
      → (clear_page u (j * 4096)).memory (q * 4096 + k * 8) ≡ u.memory (q * 4096 + k * 8)
  clear_page_out u j q k low far =
      let outside : (leb (j * page_size) (q * 4096 + k * 8)
            && ltb (q * 4096 + k * 8) (j * page_size + page_size))
          ≡ false =
        ground (arith, far) in
      rw outside refl

  Taken-out :
      (u : Paging) (j q k : ℕ)
      → Taken s u j
      → k < 512
      → q ≢ j
      → u.memory (q * 4096 + k * 8) ≡ s.memory (q * 4096 + k * 8)
  Taken-out u j q k taken low far =
      let outside : (leb (j * page_size) (q * 4096 + k * 8)
            && ltb (q * 4096 + k * 8) (j * page_size + page_size))
          ≡ false =
        ground (arith, far) in
      taken.contents (q * 4096 + k * 8) ∙ rw outside refl

  apart : (j q : ℕ) → marked s.pmm.bitmap j ≡ false → level q ≢ 0 → q ≢ j
  apart j q free h e = absurd (cc (free, t.owned q h, ap (marked s.pmm.bitmap) e))

  copied-Space :
      (u : Paging) (j : ℕ)
      → Taken s u j
      → Space s (copy_entries (clear_page u (j * 4096)) (j * 4096) 256 256) root j
  copied-Space u j taken =
      let c = clear_page u (j * 4096) in
      let (same_pmm, same_pml4) = copy_entries-same c (j * 4096) 256 256 in
      let far : root ≢ j = apart j root taken.was_free (λ z. omega (arith, t.top)) in
      let rooted : c.pml4 ≡ root * 4096 = taken.same_root ∙ t.rooted in
      record {
        was_free = taken.was_free;
        same_root = same_pml4 ∙ taken.same_root;
        now_marked = λ q. ap (λ x. marked x.bitmap q) same_pmm ∙ taken.now_marked q;
        well_formed = subst (λ x. IsBitmap x.bitmap) (sym same_pmm) taken.well_formed;
        same_size = ap (λ x. length x.bitmap) same_pmm ∙ taken.same_size;
        user_half = λ k low.
            copy_entries-kept j c 256 256 j k (omega arith) (omega arith) (inr low)
            ∙ clear_page_in u j k (omega arith);
        kernel_half = λ k from to.
            copy_entries-copied j c root 256 256 k rooted far (omega arith) from (omega arith)
            ∙ clear_page_out u j root k to far
            ∙ Taken-out u j root k taken to far;
        elsewhere = λ q k other low.
            copy_entries-kept j c 256 256 q k (omega arith) low (inl other)
            ∙ clear_page_out u j q k low other
            ∙ Taken-out u j q k taken low other;
      }

  pub paging_create_user_address_space-Space :
      (paging_create_user_address_space s).1 ≢ 0
      → (j : ℕ) × ((paging_create_user_address_space s).1 ≡ j * 4096)
        × Space s (paging_create_user_address_space s).0 root j
  paging_create_user_address_space-Space given = elim (Bool-cases ((pmm_alloc_page s).1 == 0)) [
    | inl null ↦ absurd (given (space_null null))
    | inr some_page ↦ elim (pmm_alloc_page_lem s t.well_formed) [
      | inl (full, nothing) ↦ absurd (cc (some_page, ap (λ r. r.1 == 0) nothing))
      | inr (j, address, taken) ↦ (
        j,
        ap (λ r. r.1) (space_made some_page) ∙ address,
        subst (λ x. Space s x root j)
            (sym (
              ap (λ r. r.0) (space_made some_page)
              ∙ ap (λ a. copy_entries (clear_page (pmm_alloc_page s).0 a) a 256 256) address))
            (copied-Space (pmm_alloc_page s).0 j taken),
      )
    ]
  ]
