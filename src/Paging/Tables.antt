-- ===== src/Paging/Tables.antt =====
-- The trees of page tables in paging.c: what next_table and walk_from leave of them.
use curnel.Prelude.{
  ℕ, suc, ◌+◌, ◌*◌, ◌/◌, ◌^◌, ◌<◌, ◌≤◌, ◌≡◌, ◌≢◌, refl, sym, ap, ◌∙◌, true, length,
}
use curnel.Paging.{Paging, marked, frame, present}
use curnel.Paging.Pages.{IsBitmap}

-- The page numbers of the tables below `root` with their levels, 4 for the root and 0 for other pages.
-- Each table is a page in use, and its entries that are present name tables of the level below.
pub record Tables (s : Paging) (level : ℕ → ℕ) (root : ℕ) : Type 0 where
  pub well_formed : IsBitmap s.pmm.bitmap
  pub small : length s.pmm.bitmap * 8 ≤ 2 ^ 40
  pub rooted : s.pml4 ≡ root * 4096
  pub top : level root ≡ 4
  pub owned : (p : ℕ) → level p ≢ 0 → marked s.pmm.bitmap p ≡ true
  pub down :
      (p i l : ℕ)
      → i < 512
      → level p ≡ suc (suc l)
      → present (s.memory (p * 4096 + i * 8)) ≡ true
      → level (frame (s.memory (p * 4096 + i * 8)) / 4096) ≡ suc l

-- The tables of `s` are still there in `s'`, with the entries that were present.
pub record Grows (s : Paging) (level : ℕ → ℕ) (s' : Paging) (level' : ℕ → ℕ) : Type 0 where
  pub levels : (p : ℕ) → level p ≢ 0 → level' p ≡ level p
  pub entries :
      (p i : ℕ)
      → i < 512
      → level p ≢ 0
      → present (s.memory (p * 4096 + i * 8)) ≡ true
      → s'.memory (p * 4096 + i * 8) ≡ s.memory (p * 4096 + i * 8)

pub Grows-refl : (s : Paging) (level : ℕ → ℕ) → Grows s level s level
Grows-refl s level = record { levels = λ p h. refl; entries = λ p i low h on. refl }

pub Grows-trans :
    {s t u : Paging} {ls lt lu : ℕ → ℕ} → Grows s ls t lt → Grows t lt u lu → Grows s ls u lu
Grows-trans a b = record {
  levels = λ p h. b.levels p (λ z. h (sym (a.levels p h) ∙ z)) ∙ a.levels p h;
  entries = λ p i low h on.
      b.entries p i low (λ z. h (sym (a.levels p h) ∙ z)) (ap present (a.entries p i low h on) ∙ on)
      ∙ a.entries p i low h on;
}

-- What a level of the walk comes to when it gives a table.
pub record Stepped (s : Paging) (level : ℕ → ℕ) (root slot l : ℕ) (s' : Paging) (table : ℕ)
    : Type 0 where
  pub level' : ℕ → ℕ
  pub tables : Tables s' level' root
  pub grows : Grows s level s' level'
  pub there : present (s'.memory slot) ≡ true
  pub named : table ≡ frame (s'.memory slot)
  pub depth : level' (table / 4096) ≡ suc l
