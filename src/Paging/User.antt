-- ===== src/Paging/User.antt =====
-- paging_alloc_user_page of paging.c.
use Prim.Native.Nat.{bit_or}
use curnel.Prelude.{
  ℕ, ◌+◌, ◌*◌, ◌/◌, ◌%◌, ◌<◌, ◌≡◌, ◌≢◌, inl, inr, refl, sym, ap, subst, ◌∙◌, true, false, ◌&&◌,
  Bool-cases, ltb, leb, ◌==◌, arith, bit_or-lt_page,
}
use curnel.Paging.{
  Paging, marked, kernel_base, page_user, page_size, pmm_alloc_page, paging_map_page,
  paging_alloc_user_page, paging_get_physical_address, frame, present,
}
use curnel.Paging.Pages.{Taken, pmm_alloc_page_lem}
use curnel.Paging.Tables.{Tables}
use curnel.Paging.Halves.{in_space}
use curnel.Paging.Map.{paging_get_physical_address-paging_map_page, paging_map_page-Tables}

-- Tables stay well-formed when another page is taken.
Taken-Tables :
    (s s' : Paging) (level : ℕ → ℕ) (root pml4 i : ℕ)
    → Tables (in_space s pml4) level root
    → Taken s s' i
    → Tables (in_space s' pml4) level root
Taken-Tables s s' level root pml4 i t taken = record {
  well_formed = taken.well_formed;
  small = omega (arith, t.small, taken.same_size);
  rooted = t.rooted;
  top = t.top;
  owned = λ p h. taken.now_marked p ∙ ground (arith, t.owned p h);
  down = λ p k l low deep on.
      let far : p ≢ i = λ e.
        cc (taken.was_free, t.owned p (λ z. omega (arith, deep)), ap (marked s.pmm.bitmap) e) in
      let outside : (leb (i * page_size) (p * 4096 + k * 8)
            && ltb (p * 4096 + k * 8) (i * page_size + page_size))
          ≡ false =
        ground (arith, far) in
      let same : s'.memory (p * 4096 + k * 8) ≡ s.memory (p * 4096 + k * 8) =
        taken.contents (p * 4096 + k * 8) ∙ rw outside refl in
      ap (λ x. level (frame x / 4096)) same ∙ t.down p k l low deep (ap present (sym same) ∙ on);
}

module _ (s : Paging) (user_pml4 v flags : ℕ) where
  s' : Paging
  s' = (pmm_alloc_page s).0

  page : ℕ
  page = (pmm_alloc_page s).1

  mapping : Paging × ℕ
  mapping = paging_map_page (in_space s' user_pml4) page v (bit_or flags page_user)

  refused : leb kernel_base v ≡ true → paging_alloc_user_page s user_pml4 v flags ≡ (s, 0)
  unfolding paging_alloc_user_page
  refused h = rw (h, paging_alloc_user_page) refl

  exhausted :
      leb kernel_base v ≡ false
      → (page == 0) ≡ true
      → (paging_alloc_user_page s user_pml4 v flags).1 ≡ 0
  unfolding paging_alloc_user_page page
  exhausted h z = rw (h, z, paging_alloc_user_page) refl

  unmapped :
      leb kernel_base v ≡ false
      → (page == 0) ≡ false
      → (mapping.1 == 0) ≡ true
      → (paging_alloc_user_page s user_pml4 v flags).1 ≡ 0
  unfolding paging_alloc_user_page page mapping s'
  unmapped h z m = rw (h, z, m, paging_alloc_user_page) refl

  done :
      leb kernel_base v ≡ false
      → (page == 0) ≡ false
      → (mapping.1 == 0) ≡ false
      → paging_alloc_user_page s user_pml4 v flags ≡ (in_space (mapping.0) s'.pml4, mapping.1)
  unfolding paging_alloc_user_page page mapping s'
  done h z m = rw (h, z, m, paging_alloc_user_page) refl

  -- A page that becomes the user's.
  pub record UserPage (r : Paging × ℕ) : Type 0 where
    pub low : v < kernel_base
    pub same_root : r.0.pml4 ≡ s.pml4
    frame_number : ℕ
    pub was_free : marked s.pmm.bitmap frame_number ≡ false
    pub translates :
        (x : ℕ)
        → paging_get_physical_address (in_space (r.0) user_pml4) (v / 4096 * 4096 + x % 4096)
          ≡ frame_number * 4096 + x % 4096

  module _ (level : ℕ → ℕ) (root : ℕ) (t : Tables (in_space s user_pml4) level root)
      (small : flags < 4096) where
    done-UserPage :
        (i : ℕ)
        → leb kernel_base v ≡ false
        → (mapping.1 == 0) ≡ false
        → page ≡ i * page_size
        → Taken s s' i
        → UserPage (in_space (mapping.0) s'.pml4, mapping.1)
    unfolding mapping
    done-UserPage i low mapped address taken =
        let start = in_space s' user_pml4 in
        let bits = bit_or flags page_user in
        let t' : Tables start level root = Taken-Tables s s' level root user_pml4 i t taken in
        let fit : bits < 4096 = bit_or-lt_page flags page_user small (omega arith) in
        let given : mapping.1 ≢ 0 = ground (arith, mapped) in
        let (level', after) = paging_map_page-Tables start level root page v bits t' fit given in
        let rooted : (mapping.0).pml4 ≡ user_pml4 = after.rooted ∙ sym t.rooted in
        record {
          low = ground arith;
          same_root = taken.same_root;
          frame_number = i;
          was_free = taken.was_free;
          translates = λ x.
              let w = v / 4096 * 4096 + x % 4096 in
              ap (λ y. paging_get_physical_address (in_space (mapping.0) y) w) (sym rooted)
              ∙ paging_get_physical_address-paging_map_page start level root page v bits w t' fit
                  given (omega arith)
              ∙ omega (arith, address, taken.covered, t.small);
        }

    -- When `paging_alloc_user_page` gives an address, with flags below the page bits and well-formed
    -- tables in the user's space, the address is below the kernel's, the space in force is as before, and
    -- in the user's space each address of the page translates to one page that was free, with its own
    -- offset.
    pub paging_alloc_user_page-UserPage :
        (paging_alloc_user_page s user_pml4 v flags).1 ≢ 0
        → UserPage (paging_alloc_user_page s user_pml4 v flags)
    unfolding page s'
    paging_alloc_user_page-UserPage given = elim (Bool-cases (leb kernel_base v)) [
      | inl high ↦ absurd (given (ap (λ r. r.1) (refused high)))
      | inr low ↦ elim (Bool-cases (page == 0)) [
        | inl null ↦ absurd (given (exhausted low null))
        | inr found ↦ elim (Bool-cases (mapping.1 == 0)) [
          | inl not_mapped ↦ absurd (given (unmapped low found not_mapped))
          | inr mapped ↦
              subst UserPage (sym (done low found mapped))
                (elim (pmm_alloc_page_lem s t.well_formed) [
                  | inl (full, nothing) ↦ absurd (cc (found, ap (λ r. r.1 == 0) nothing))
                  | inr (i, address, taken) ↦ done-UserPage i low mapped address taken
                ])
        ]
      ]
    ]
