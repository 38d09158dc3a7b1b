-- ===== src/Paging/Map.antt =====
-- paging_map_page of paging.c, seen through paging_get_physical_address.
use Prim.Native.Nat.{bit_or}
use curnel.Prelude.{
  ℕ, ◌+◌, ◌*◌, ◌/◌, ◌%◌, ◌^◌, ◌<◌, ◌≡◌, ◌≢◌, inl, inr, refl, sym, ap, subst, ◌∙◌, true, false, none,
  some, List, [], ◌∷◌, Bool-cases, Option-cases, ◌==◌, arith, ==_refl, bit_or-page, bit_or-lt_page,
  bit_or-low_bit,
}
use curnel.Paging.{
  Paging, page_present, frame, present, paging_make_entry, store, walk_from, paging_walk,
  paging_map_page, paging_get_physical_address,
}
use curnel.Paging.Tables.{Tables}
use curnel.Paging.Walk.{Agrees, Walked, paging_get_physical_address-walk, walk_from-Walked}

-- The entry of a mapping is present and names its page.
mapping :
    (phys flags : ℕ)
    → flags < 4096
    → let e = paging_make_entry phys (bit_or page_present flags) in
      (present e ≡ true) × (frame e ≡ frame phys)
unfolding paging_make_entry
mapping phys flags small =
    let f = bit_or 1 flags in
    let under : f < 4096 = bit_or-lt_page 1 flags (omega arith) small in
    let sum : bit_or (frame phys) f ≡ frame phys + f =
      bit_or-page (frame phys) f (omega arith) under in
    let odd : f % 2 ≡ 1 = omega (arith, bit_or-low_bit 1 flags) in
    (ground (arith, sum, odd), omega (arith, sum, under))

-- A write to an entry of the last level leaves the tables above as they are.
store-Agrees :
    (s : Paging) (level : ℕ → ℕ) (last i word : ℕ)
    → i < 512
    → level last ≡ 1
    → Agrees s level (store s (last * 4096 + i * 8) word)
store-Agrees s level last i word low bottom = λ q k hk deep.
    let far : q ≢ last = λ e. absurd (omega (arith, deep, ap level e ∙ bottom)) in
    let miss : (q * 4096 + k * 8 == last * 4096 + i * 8) ≡ false = ground (arith, far) in
    rw miss refl

store-Tables :
    (s : Paging) (level : ℕ → ℕ) (root last i word : ℕ)
    → Tables s level root
    → i < 512
    → level last ≡ 1
    → Tables (store s (last * 4096 + i * 8) word) level root
store-Tables s level root last i word t low bottom = record {
  well_formed = t.well_formed;
  small = t.small;
  rooted = t.rooted;
  top = t.top;
  owned = t.owned;
  down = λ q k l hk deep on.
      let same = store-Agrees s level last i word low bottom q k hk (omega (arith, deep)) in
      ap (λ x. level (frame x / 4096)) same ∙ t.down q k l hk deep (ap present (sym same) ∙ on);
}

abbrev shifts : List ℕ
shifts = 39 ∷ 30 ∷ 21 ∷ []

module _ (s : Paging) (phys v flags : ℕ) where
  map_null :
      (paging_walk s (v / 4096 * 4096) true flags).1 ≡ none → (paging_map_page s phys v flags).1 ≡ 0
  unfolding paging_map_page
  map_null h = rw (h, paging_map_page) refl

  map_refused :
      (e : ℕ)
      → (paging_walk s (v / 4096 * 4096) true flags).1 ≡ some e
      → present ((paging_walk s (v / 4096 * 4096) true flags).0.memory e) ≡ true
      → (paging_map_page s phys v flags).1 ≡ 0
  unfolding paging_map_page
  map_refused e h on = rw (h, on, paging_map_page) refl

  map_stored :
      (e : ℕ)
      → (paging_walk s (v / 4096 * 4096) true flags).1 ≡ some e
      → present ((paging_walk s (v / 4096 * 4096) true flags).0.memory e) ≡ false
      → (paging_map_page s phys v flags).0
        ≡ store
            (paging_walk s (v / 4096 * 4096) true flags).0
            e
            (paging_make_entry phys (bit_or page_present flags))
  unfolding paging_map_page
  map_stored e h off = rw (h, off, paging_map_page) refl

  -- A call that gives an address has written an entry.
  map_given :
      (paging_map_page s phys v flags).1 ≢ 0
      → (e : ℕ) × (paging_walk s (v / 4096 * 4096) true flags
          ≡ ((paging_walk s (v / 4096 * 4096) true flags).0, some e))
        × ((paging_map_page s phys v flags).0
            ≡ store
                (paging_walk s (v / 4096 * 4096) true flags).0
                e
                (paging_make_entry phys (bit_or page_present flags)))
  map_given given =
      let r = paging_walk s (v / 4096 * 4096) true flags in
      elim (Option-cases (r.1)) [
        | inl e ↦ absurd (given (map_null e))
        | inr (e, h) ↦ elim (Bool-cases (present (r.0.memory e))) [
          | inl on ↦ absurd (given (map_refused e h on))
          | inr off ↦ (e, ap (λ x. (r.0, x)) h, map_stored e h off)
        ]
      ]

module _ (s : Paging) (level : ℕ → ℕ) (root phys v flags : ℕ) (t : Tables s level root)
    (small : flags < 4096) where
  v' : ℕ
  v' = v / 4096 * 4096

  walked :
      (s' : Paging) (e : ℕ)
      → paging_walk s v' true flags ≡ (s', some e)
      → Walked s level root shifts root v' s' e
  unfolding paging_walk
  walked s' e h =
      walk_from-Walked shifts s level root root v' flags s' e t t.top small
        (ap (λ x. walk_from shifts s x v' true flags) (sym t.rooted) ∙ h)

  -- What a mapping that succeeds leaves: tables, in which the page is mapped.
  record Mapped (s' : Paging) : Type 0 where
    level' : ℕ → ℕ
    tables : Tables s' level' root
    mapped :
        (w : ℕ) → w / 4096 ≡ v / 4096 → paging_get_physical_address s' w ≡ frame phys + w % 4096

  Mapped-at :
      (s1 : Paging) (e : ℕ)
      → Walked s level root shifts root v' s1 e
      → Mapped (store s1 e (paging_make_entry phys (bit_or page_present flags)))
  unfolding v' paging_walk
  Mapped-at s1 e w =
      let word = paging_make_entry phys (bit_or page_present flags) in
      let i = v' / 2 ^ 12 % 512 in
      let s2 = store s1 e word in
      record {
        level' = w.level';
        tables =
            subst (λ a. Tables (store s1 a word) w.level' root) (sym w.at)
              (store-Tables s1 w.level' root w.last i word w.tables (omega arith) w.bottom);
        mapped = λ x same.
            let agrees : Agrees s1 w.level' s2 =
              subst (λ a. Agrees s1 w.level' (store s1 a word)) (sym w.at)
                (store-Agrees s1 w.level' w.last i word (omega arith) w.bottom) in
            let walk : paging_walk s2 x false 0 ≡ (s2, some e) =
              ap (λ r. walk_from shifts s2 r x false 0) w.tables.rooted
              ∙ w.again s2 x agrees
                  (omega arith, (omega arith, (omega arith, (omega arith, tt)))) in
            let read : s2.memory e ≡ word = rw (==_refl e) refl in
            paging_get_physical_address-walk s2 x (some e) walk
            ∙ ap (λ y. frame y + x % 4096) read
            ∙ ap (λ y. y + x % 4096) (mapping phys flags small).1;
      }

  paging_map_page-Mapped :
      (paging_map_page s phys v flags).1 ≢ 0 → Mapped (paging_map_page s phys v flags).0
  unfolding v'
  paging_map_page-Mapped given =
      let (e, walk, stored) = map_given s phys v flags given in
      subst Mapped (sym stored)
        (Mapped-at (paging_walk s (v / 4096 * 4096) true flags).0 e (walked _ e walk))

-- A page that `paging_map_page` maps is found again: after a call on well-formed tables that gives an
-- address, with flags below the page bits, each address of the page translates to the frame of the
-- physical address, with its own offset.
pub paging_get_physical_address-paging_map_page :
    (s : Paging) (level : ℕ → ℕ) (root phys v flags w : ℕ)
    → Tables s level root
    → flags < 4096
    → (paging_map_page s phys v flags).1 ≢ 0
    → w / 4096 ≡ v / 4096
    → paging_get_physical_address (paging_map_page s phys v flags).0 w ≡ frame phys + w % 4096
paging_get_physical_address-paging_map_page s level root phys v flags w t small given same =
    (paging_map_page-Mapped s level root phys v flags t small given).mapped w same

-- `paging_map_page` keeps the tables well-formed when it gives an address, for flags below the page
-- bits: some pages may have become tables, the root stays.
pub paging_map_page-Tables :
    (s : Paging) (level : ℕ → ℕ) (root phys v flags : ℕ)
    → Tables s level root
    → flags < 4096
    → (paging_map_page s phys v flags).1 ≢ 0
    → (level' : ℕ → ℕ) × Tables (paging_map_page s phys v flags).0 level' root
paging_map_page-Tables s level root phys v flags t small given =
    let m = paging_map_page-Mapped s level root phys v flags t small given in (m.level', m.tables)
