-- ===== src/Paging/Fresh.antt =====
-- A page that becomes a page table in paging.c.
use Prim.Native.Nat.{bit_or}
use curnel.Prelude.{
  ℕ, suc, ◌+◌, ◌*◌, ◌/◌, ◌%◌, ◌^◌, ◌<◌, ◌≡◌, ◌≢◌, ◌⊎◌, inl, inr, refl, sym, ap, ap₂, subst, ◌∙◌,
  true, false, ◌&&◌, Option, some, Bool-cases, ltb, leb, ◌==◌, if◌then◌else◌, arith, ==_iff,
  ==_refl, bit_or-page, bit_or-lt_page, bit_or-low_bit,
}
use curnel.Paging.{
  Paging, marked, page_size, page_present, page_writable, frame, present, paging_make_entry, store,
}
use curnel.Paging.Pages.{Taken}
use curnel.Paging.Tables.{Tables, Grows, Stepped}

-- The entry that `next_table` writes for the page `j`.
new_entry :
    (j flags : ℕ)
    → j < 2 ^ 40
    → flags < 4096
    → let e =
        paging_make_entry (j * page_size) (bit_or (bit_or page_present page_writable) flags) in
      (present e ≡ true) × (frame e / 4096 ≡ j)
unfolding paging_make_entry
new_entry j flags low small =
    let f = bit_or 3 flags in
    let under : f < 4096 = bit_or-lt_page 3 flags (omega arith) small in
    let whole : frame (j * 4096) ≡ j * 4096 = omega arith in
    let sum : bit_or (frame (j * 4096)) f ≡ j * 4096 + f =
      bit_or-page (frame (j * 4096)) f (omega arith) under ∙ ap (λ x. x + f) whole in
    let odd : f % 2 ≡ 1 = omega (arith, bit_or-low_bit 3 flags) in
    (ground (arith, sum, odd), omega (arith, sum, under, low))

-- The state after the page `page` becomes the table that `slot` names.
abbrev pub made : Paging → ℕ → ℕ → ℕ → Paging
made s slot flags page =
    store s slot (paging_make_entry page (bit_or (bit_or page_present page_writable) flags))

abbrev pub with_table : Paging → ℕ → Paging × Option ℕ
with_table s slot = (s, some (frame (s.memory slot)))

-- The levels once page `j` has become a table of level `l`.
abbrev raise : (ℕ → ℕ) → ℕ → ℕ → ℕ → ℕ
raise level j l p = if p == j then l else level p

module _ (s : Paging) (level : ℕ → ℕ) (root : ℕ) (t : Tables s level root) (p i l flags : ℕ)
    (low : i < 512) (here : level p ≡ suc (suc l)) (small : flags < 4096)
    (off : present (s.memory (p * 4096 + i * 8)) ≡ false) (s' : Paging) (j : ℕ)
    (taken : Taken s s' j) where
  pub entry : ℕ
  entry = paging_make_entry (j * page_size) (bit_or (bit_or page_present page_writable) flags)

  pub after : Paging
  after = store s' (p * 4096 + i * 8) entry

  level' : ℕ → ℕ
  level' = raise level j (suc l)

  -- A table is not the page that was free.
  apart : (q : ℕ) → level q ≢ 0 → q ≢ j
  apart q h e = absurd (cc (taken.was_free, t.owned q h, ap (marked s.pmm.bitmap) e))

  kept_level : (q : ℕ) → level q ≢ 0 → level' q ≡ level q
  unfolding level'
  kept_level q h = let miss : (q == j) ≡ false = ground (arith, apart q h) in rw miss refl

  new_level : level' j ≡ suc l
  unfolding level'
  new_level = rw (==_refl j) refl

  read_here : after.memory (p * 4096 + i * 8) ≡ entry
  unfolding after
  read_here = rw (==_refl (p * 4096 + i * 8)) refl

  read_table :
      (q k : ℕ)
      → k < 512
      → q ≢ j
      → ((q ≡ p) × (k ≡ i)) ⊎ (after.memory (q * 4096 + k * 8) ≡ s.memory (q * 4096 + k * 8))
  unfolding after
  read_table q k hk far = elim (Bool-cases (q * 4096 + k * 8 == p * 4096 + i * 8)) [
    | inl hit ↦
        let same : q * 4096 + k * 8 ≡ p * 4096 + i * 8 =
          (==_iff (q * 4096 + k * 8) (p * 4096 + i * 8)).0 hit in
        inl (omega arith, omega arith)
    | inr miss ↦
        let outside : (leb (j * page_size) (q * 4096 + k * 8)
              && ltb (q * 4096 + k * 8) (j * page_size + page_size))
            ≡ false =
          ground (arith, far) in
        inr (rw (miss) (taken.contents (q * 4096 + k * 8) ∙ rw outside refl))
  ]

  read_fresh : (k : ℕ) → k < 512 → after.memory (j * 4096 + k * 8) ≡ 0
  unfolding after
  read_fresh k hk =
      let far : p ≢ j = apart p (λ z. omega arith) in
      let miss : (j * 4096 + k * 8 == p * 4096 + i * 8) ≡ false = ground (arith, far) in
      let inside : (leb (j * page_size) (j * 4096 + k * 8)
            && ltb (j * 4096 + k * 8) (j * page_size + page_size))
          ≡ true =
        ground arith in
      rw (miss) (taken.contents (j * 4096 + k * 8) ∙ rw inside refl)

  fresh_entry : (present entry ≡ true) × (frame entry / 4096 ≡ j)
  unfolding entry
  fresh_entry = new_entry j flags (omega (arith, taken.covered, t.small)) small

  old_level : (q : ℕ) → q ≢ j → level' q ≡ level q
  unfolding level'
  old_level q far = let miss : (q == j) ≡ false = ground (arith, far) in rw miss refl

  after-down :
      (q k m : ℕ)
      → k < 512
      → level' q ≡ suc (suc m)
      → present (after.memory (q * 4096 + k * 8)) ≡ true
      → level' (frame (after.memory (q * 4096 + k * 8)) / 4096) ≡ suc m
  after-down q k m hk hq on = elim (Bool-cases (q == j)) [
    | inl hit ↦
        let blank : after.memory (q * 4096 + k * 8) ≡ 0 =
          subst (λ x. after.memory (x * 4096 + k * 8) ≡ 0) (sym ((==_iff q j).0 hit))
            (read_fresh k hk) in
        absurd (cc (on, ap present blank))
    | inr miss ↦
        let far : q ≢ j = ground arith in
        let old : level q ≡ suc (suc m) = sym (old_level q far) ∙ hq in
        elim (read_table q k hk far) [
          | inl (eq, ek) ↦
              let read : after.memory (q * 4096 + k * 8) ≡ entry =
                ap₂ (λ x y. after.memory (x * 4096 + y * 8)) eq ek ∙ read_here in
              let depth : suc (suc m) ≡ suc (suc l) = sym old ∙ ap level eq ∙ here in
              ap (λ x. level' (frame x / 4096)) read
              ∙ ap level' fresh_entry.1
              ∙ new_level
              ∙ omega (arith, depth)
          | inr same ↦
              let target : level (frame (s.memory (q * 4096 + k * 8)) / 4096) ≡ suc m =
                t.down q k m hk old (ap present (sym same) ∙ on) in
              ap (λ x. level' (frame x / 4096)) same
              ∙ kept_level (frame (s.memory (q * 4096 + k * 8)) / 4096)
                  (λ z. absurd (omega (arith, sym target ∙ z)))
              ∙ target
        ]
  ]

  after-entries :
      (q k : ℕ)
      → k < 512
      → level q ≢ 0
      → present (s.memory (q * 4096 + k * 8)) ≡ true
      → after.memory (q * 4096 + k * 8) ≡ s.memory (q * 4096 + k * 8)
  after-entries q k hk h on = elim (read_table q k hk (apart q h)) [
    | inl (eq, ek) ↦ absurd (cc (on, ap₂ (λ x y. present (s.memory (x * 4096 + y * 8))) eq ek, off))
    | inr same ↦ same
  ]

  after-Tables : Tables after level' root
  unfolding after level'
  after-Tables = record {
    well_formed = taken.well_formed;
    small = omega (arith, t.small, taken.same_size);
    rooted = taken.same_root ∙ t.rooted;
    top = kept_level root (λ z. omega (arith, t.top)) ∙ t.top;
    owned = owned';
    down = after-down;
  }
    where
      owned' : (q : ℕ) → level' q ≢ 0 → marked after.pmm.bitmap q ≡ true
      owned' q h = elim (Bool-cases (q == j)) [
        | inl hit ↦ taken.now_marked q ∙ rw hit refl
        | inr miss ↦
            let old : marked s.pmm.bitmap q ≡ true = t.owned q (λ z. h (rw miss z)) in
            taken.now_marked q ∙ ground (arith, old, miss)
      ]

  after-Grows : Grows s level after level'
  after-Grows = record { levels = kept_level; entries = after-entries }

  pub after-Stepped :
      Stepped s level root (p * 4096 + i * 8) l after (frame (after.memory (p * 4096 + i * 8)))
  after-Stepped = record {
    level' = level';
    tables = after-Tables;
    grows = after-Grows;
    there = ap present read_here ∙ fresh_entry.0;
    named = refl;
    depth = ap (λ x. level' (frame x / 4096)) read_here ∙ ap level' fresh_entry.1 ∙ new_level;
  }

  pub after-made :
      (page : ℕ)
      → page ≡ j * page_size
      → with_table (made s' (p * 4096 + i * 8) flags page) (p * 4096 + i * 8)
        ≡ with_table after (p * 4096 + i * 8)
  unfolding after entry
  after-made page same =
      ap (λ x. with_table (made s' (p * 4096 + i * 8) flags x) (p * 4096 + i * 8)) same
