-- ===== src/Paging/Step.antt =====
-- next_table of paging.c.
use curnel.Prelude.{
  ℕ, suc, ◌+◌, ◌*◌, ◌<◌, ◌≡◌, inl, inr, refl, sym, ap, subst, ◌∙◌, Bool, true, false, Option, none,
  some, Bool-cases, ◌==◌,
}
use curnel.Paging.{Paging, pmm_alloc_page, frame, present, next_table}
use curnel.Paging.Pages.{pmm_alloc_page_lem}
use curnel.Paging.Tables.{Tables, Grows-refl, Stepped}
use curnel.Paging.Fresh.{made, with_table, after-Stepped, after-made}

pub next_table-present :
    (s : Paging) (slot flags : ℕ) (alloc : Bool)
    → present (s.memory slot) ≡ true
    → next_table s slot alloc flags ≡ (s, some (frame (s.memory slot)))
unfolding next_table
next_table-present s slot flags alloc on = rw (on, next_table) refl

module _ (s : Paging) (slot flags : ℕ) (off : present (s.memory slot) ≡ false) where
  next_table_null :
      ((pmm_alloc_page s).1 == 0) ≡ true
      → next_table s slot true flags ≡ ((pmm_alloc_page s).0, none)
  unfolding next_table
  next_table_null null = rw (off, null, next_table) refl

  next_table_made :
      ((pmm_alloc_page s).1 == 0) ≡ false
      → next_table s slot true flags
        ≡ with_table (made (pmm_alloc_page s).0 slot flags (pmm_alloc_page s).1) slot
  unfolding next_table
  next_table_made given = rw (off, given, next_table) refl

pub some_inj :
    {a b : ℕ} {s t : Paging}
    → ◌≡◌ {A = Paging × Option ℕ} (s, some a) (t, some b)
    → (s ≡ t) × (a ≡ b)
some_inj e = (ap (λ r. r.0) e, cc)

Stepped-eq :
    (s : Paging) (level : ℕ → ℕ) (root slot l : ℕ) (t s' : Paging) (a table : ℕ)
    → Stepped s level root slot l t a
    → ◌≡◌ {A = Paging × Option ℕ} (t, some a) (s', some table)
    → Stepped s level root slot l s' table
Stepped-eq s level root slot l t s' a table st e =
    let (same, named) = some_inj e in
    subst (λ x. Stepped s level root slot l x table) same
      (subst (λ x. Stepped s level root slot l t x) named st)

pub next_table-Stepped :
    (s : Paging) (level : ℕ → ℕ) (root p i l flags : ℕ) (s' : Paging) (table : ℕ)
    → Tables s level root
    → i < 512
    → level p ≡ suc (suc l)
    → flags < 4096
    → next_table s (p * 4096 + i * 8) true flags ≡ (s', some table)
    → Stepped s level root (p * 4096 + i * 8) l s' table
next_table-Stepped s level root p i l flags s' table t low here small e =
    let slot = p * 4096 + i * 8 in
    elim (Bool-cases (present (s.memory slot))) [
      | inl on ↦
          Stepped-eq s level root slot l s s' (frame (s.memory slot)) table
            (record {
              level' = level;
              tables = t;
              grows = Grows-refl s level;
              there = on;
              named = refl;
              depth = t.down p i l low here on;
            })
            (sym (next_table-present s slot flags true on) ∙ e)
      | inr off ↦ elim (Bool-cases ((pmm_alloc_page s).1 == 0)) [
        | inl null ↦ absurd (cc (next_table_null s slot flags off null, e))
        | inr given ↦ elim (pmm_alloc_page_lem s t.well_formed) [
          | inl (full, nothing) ↦ absurd (cc (given, ap (λ r. r.1 == 0) nothing))
          | inr (j, address, taken) ↦
              let s1 = (pmm_alloc_page s).0 in
              Stepped-eq s level root slot l _ s' _ table
                (after-Stepped s level root t p i l flags low here small off s1 j taken)
                (sym (
                    after-made s level root t p i l flags low here small off s1 j taken
                      (pmm_alloc_page s).1 address)
                  ∙ sym (next_table_made s slot flags off given)
                  ∙ e)
        ]
      ]
    ]
