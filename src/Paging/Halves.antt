-- ===== src/Paging/Halves.antt =====
-- The two halves of an address space that paging_create_user_address_space of paging.c makes.
use curnel.Prelude.{
  ℕ, suc, ◌+◌, ◌*◌, ◌/◌, ◌%◌, ◌^◌, ◌<◌, ◌≤◌, ◌≡◌, ◌≢◌, ◌⊎◌, inl, inr, refl, sym, ap, subst, ◌∙◌,
  true, false, Option, none, some, List, [], ◌∷◌, length, Bool-cases, arith,
}
use curnel.Paging.{
  Paging, marked, paging_create_user_address_space, paging_walk, paging_get_physical_address, frame,
  present, next_table, slot_of, walk_from,
}
use curnel.Paging.Tables.{Tables}
use curnel.Paging.Step.{next_table-present}
use curnel.Paging.Walk.{walk_step, walk_stop, walk_end, paging_get_physical_address-walk}
use curnel.Paging.Spaces.{paging_create_user_address_space-Space}

-- Two walks that make nothing come to the same end.
abbrev SameWalk : List ℕ → Paging → Paging → ℕ → ℕ → ℕ → Type 0
SameWalk shifts s s' a a' v =
    ((walk_from shifts s a v false 0 ≡ (s, none)) × (walk_from shifts s' a' v false 0 ≡ (s', none)))
    ⊎ ((e : ℕ) × (walk_from shifts s a v false 0 ≡ (s, some e))
        × (walk_from shifts s' a' v false 0 ≡ (s', some e))
        × (s'.memory e ≡ s.memory e))

next_table_absent :
    (s : Paging) (slot : ℕ)
    → present (s.memory slot) ≡ false
    → next_table s slot false 0 ≡ (s, none)
unfolding next_table
next_table_absent s slot off = rw (off, next_table) refl

absent-SameWalk :
    (shift : ℕ) (shifts : List ℕ) (s s' : Paging) (a a' v : ℕ)
    → present (s.memory (slot_of a v shift)) ≡ false
    → present (s'.memory (slot_of a' v shift)) ≡ false
    → SameWalk (shift ∷ shifts) s s' a a' v
absent-SameWalk shift shifts s s' a a' v off off' = inl (
  walk_stop shift shifts s s a v false 0 (next_table_absent s (slot_of a v shift) off),
  walk_stop shift shifts s' s' a' v false 0 (next_table_absent s' (slot_of a' v shift) off'),
)

-- Entries that read the same lead both walks on to the same table.
step-SameWalk :
    (shift : ℕ) (shifts : List ℕ) (s s' : Paging) (a a' v : ℕ)
    → s'.memory (slot_of a' v shift) ≡ s.memory (slot_of a v shift)
    → (present (s.memory (slot_of a v shift)) ≡ true
        → let next = frame (s.memory (slot_of a v shift)) in SameWalk shifts s s' next next v)
    → SameWalk (shift ∷ shifts) s s' a a' v
step-SameWalk shift shifts s s' a a' v read go =
    let slot = slot_of a v shift in
    let slot' = slot_of a' v shift in
    let next = frame (s.memory slot) in
    elim (Bool-cases (present (s.memory slot))) [
      | inr off ↦ absent-SameWalk shift shifts s s' a a' v off (ap present read ∙ off)
      | inl on ↦
          let here : next_table s slot false 0 ≡ (s, some next) =
            next_table-present s slot 0 false on in
          let there : next_table s' slot' false 0 ≡ (s', some next) =
            next_table-present s' slot' 0 false (ap present read ∙ on)
            ∙ ap {B = Paging × Option ℕ} (λ x. (s', some (frame x))) read in
          let walk = walk_step shift shifts s s a v next false 0 here in
          let walk' = walk_step shift shifts s' s' a' v next false 0 there in
          elim (go on) [
            | inl (x, y) ↦ inl (walk ∙ x, walk' ∙ y)
            | inr (e, x, y, z) ↦ inr (e, walk ∙ x, walk' ∙ y, z)
          ]
    ]

module _ (s s' : Paging) (level : ℕ → ℕ) (root : ℕ) (t : Tables s level root)
    (agree : (q k : ℕ)
      → k < 512
      → level q ≢ 0
      → s'.memory (q * 4096 + k * 8) ≡ s.memory (q * 4096 + k * 8)) where
  below-SameWalk :
      (shifts : List ℕ) (p a v : ℕ)
      → level p ≡ suc (length shifts)
      → a ≡ p * 4096
      → SameWalk shifts s s' a a v
  below-SameWalk [] p a v here page =
      inr (slot_of a v 12, walk_end s a v false 0, walk_end s' a v false 0, read)
    where
      read : s'.memory (slot_of a v 12) ≡ s.memory (slot_of a v 12)
      read = rw page (agree p (v / 2 ^ 12 % 512) (omega arith) (λ z. omega (arith, here)))
  below-SameWalk (shift ∷ shifts) p a v here page =
      let i = v / 2 ^ shift % 512 in
      let low : i < 512 = omega arith in
      let read : s'.memory (slot_of a v shift) ≡ s.memory (slot_of a v shift) =
        rw page (agree p i low (λ z. omega (arith, here))) in
      step-SameWalk shift shifts s s' a a v read (λ on.
        let word = s.memory (slot_of a v shift) in
        let same : word ≡ s.memory (p * 4096 + i * 8) = ap (λ x. s.memory (x + i * 8)) page in
        let next : level (frame word / 4096) ≡ suc (length shifts) =
          ap (λ x. level (frame x / 4096)) same
          ∙ t.down p i (length shifts) low here (ap present (sym same) ∙ on) in
        below-SameWalk shifts (frame word / 4096) (frame word) v next (omega arith))

  -- Roots whose entries for an address read the same translate it alike.
  root-SameWalk :
      (p v : ℕ)
      → s'.memory (slot_of (p * 4096) v 39) ≡ s.memory (slot_of (root * 4096) v 39)
      → SameWalk (39 ∷ 30 ∷ 21 ∷ []) s s' (root * 4096) (p * 4096) v
  root-SameWalk p v read =
      step-SameWalk 39 (30 ∷ 21 ∷ []) s s' (root * 4096) (p * 4096) v read (λ on.
        let word = s.memory (slot_of (root * 4096) v 39) in
        below-SameWalk (30 ∷ 21 ∷ []) (frame word / 4096) (frame word) v
          (t.down root (v / 2 ^ 39 % 512) 2 (omega arith) t.top on) (omega arith))

SameWalk-translates :
    (s s' : Paging) (v : ℕ)
    → SameWalk (39 ∷ 30 ∷ 21 ∷ []) s s' s.pml4 s'.pml4 v
    → paging_get_physical_address s' v ≡ paging_get_physical_address s v
unfolding paging_walk
SameWalk-translates s s' v (inl (x, y)) =
    paging_get_physical_address-walk s' v none y ∙ sym (paging_get_physical_address-walk s v none x)
SameWalk-translates s s' v (inr (e, x, y, z)) =
    paging_get_physical_address-walk s' v (some e) y
    ∙ ap (λ w. frame w + v % 4096) z
    ∙ sym (paging_get_physical_address-walk s v (some e) x)

-- The address space in force becomes the one with this root.
abbrev pub in_space : Paging → ℕ → Paging
in_space s pml4 = record s { pml4 = pml4 }

-- In a new address space, every address of the upper half translates as it does in the space in which
-- it was made, if the tables there are well-formed.
pub paging_create_user_address_space-kernel_half :
    (s : Paging) (level : ℕ → ℕ) (root v : ℕ)
    → Tables s level root
    → (paging_create_user_address_space s).1 ≢ 0
    → 256 ≤ v / 2 ^ 39 % 512
    → let (s', pml4) = paging_create_user_address_space s in
      paging_get_physical_address (in_space s' pml4) v ≡ paging_get_physical_address s v
paging_create_user_address_space-kernel_half s level root v t given upper =
    let (j, address, space) = paging_create_user_address_space-Space s level root t given in
    let s' = (paging_create_user_address_space s).0 in
    let here = in_space s' (paging_create_user_address_space s).1 in
    let agree : (q k : ℕ)
        → k < 512
        → level q ≢ 0
        → s'.memory (q * 4096 + k * 8) ≡ s.memory (q * 4096 + k * 8) =
      λ q k low h.
        space.elsewhere q k (λ e. cc (space.was_free, t.owned q h, ap (marked s.pmm.bitmap) e))
          low in
    SameWalk-translates s here v (
      subst (λ x. SameWalk (39 ∷ 30 ∷ 21 ∷ []) s here s.pml4 x v) (sym address)
        (subst (λ x. SameWalk (39 ∷ 30 ∷ 21 ∷ []) s here x (j * 4096) v) (sym t.rooted)
          (root-SameWalk s here level root t agree j v
            (space.kernel_half (v / 2 ^ 39 % 512) upper (omega arith)))))

-- In a new address space, no address of the lower half is mapped, if the tables of the space in which
-- it was made are well-formed.
paging_create_user_address_space-user_half :
    (s : Paging) (level : ℕ → ℕ) (root v : ℕ)
    → Tables s level root
    → (paging_create_user_address_space s).1 ≢ 0
    → v / 2 ^ 39 % 512 < 256
    → let (s', pml4) = paging_create_user_address_space s in
      paging_get_physical_address (in_space s' pml4) v ≡ 0
unfolding paging_walk
paging_create_user_address_space-user_half s level root v t given lower =
    let (j, address, space) = paging_create_user_address_space-Space s level root t given in
    let (s', pml4) = paging_create_user_address_space s in
    let here = in_space s' pml4 in
    let blank : s'.memory (slot_of pml4 v 39) ≡ 0 =
      ap (λ x. s'.memory (x + v / 2 ^ 39 % 512 * 8)) address
      ∙ space.user_half (v / 2 ^ 39 % 512) lower in
    paging_get_physical_address-walk here v none (
      walk_stop 39 (30 ∷ 21 ∷ []) here here pml4 v false 0
        (next_table_absent here (slot_of pml4 v 39) (ap present blank)))
