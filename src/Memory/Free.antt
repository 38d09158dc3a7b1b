-- ===== src/Memory/Free.antt =====
-- What kfree of memory.c does to the payloads in use, and the rounding of sizes.
use mathlib.Core.List.{Perm}
use mathlib.Core.List.Perm
use curnel.Prelude.{
  ℕ, ◌+◌, ◌-◌, ◌*◌, ◌^◌, ◌≤◌, ◌<◌, ◌≡◌, refl, true, false, ◌&&◌, some, List, [], ◌∷◌, arith,
  Bool-cases, Option-cases, inl, inr, ◌==◌, ◌⊎◌, sub64, subst, sym, ap, ◌∙◌,
}
use curnel.Memory.{
  Block, Heap, unused, region_start, region_size, header, memory_init, align8, place, find_fit,
  kmalloc, mark_free, merge, coalesce_from, coalesce, kfree,
}
use curnel.Memory.Layout.{kfree-cases}
use curnel.Memory.Used.{used}
use curnel.Memory.RoundTrip.{coalesce_from_apart, both_free}

used-coalesce_from : (c : Block) (bs : List Block) → used (coalesce_from c bs) ≡ used (c ∷ bs)
unfolding used
used-coalesce_from c [] = unfold coalesce_from in refl
used-coalesce_from c (b ∷ bs) = elim (Bool-cases (c.is_free && b.is_free)) [
  | inl both ↦ ground (arith, both_free c b bs, used-coalesce_from (merge c b) bs)
  | inr other ↦ ground (arith, coalesce_from_apart c b bs other, used-coalesce_from b bs)
]

used-coalesce : (bs : List Block) → used (coalesce bs) ≡ used bs
unfolding coalesce
used-coalesce [] = refl
used-coalesce (b ∷ bs) = used-coalesce_from b bs

-- The payload at `p` is no longer in use, or was not in use before either.
abbrev pub Released : ℕ → List Block → List Block → Type 0
Released p before after =
    (used after ≡ used before) ⊎ ((s : ℕ) × Perm (used before) ((p, s) ∷ used after))

Released-hit :
    (b : Block) (bs : List Block)
    → Released (b.addr + header) (b ∷ bs) (record b { is_free = true } ∷ bs)
unfolding used
Released-hit b bs = elim (Bool-cases b.is_free) [
  | inl f ↦ inl (ground arith)
  | inr u ↦ inr (
    b.size,
    subst (λ l. Perm l ((b.addr + header, b.size) ∷ used bs)) (ground arith)
        (Perm.refl ((b.addr + header, b.size) ∷ used bs)),
  )
]

Released-miss :
    (p : ℕ) (b : Block) (bs after : List Block)
    → Released p bs after
    → Released p (b ∷ bs) (b ∷ after)
unfolding used
Released-miss p b bs after (inl same) = inl (ground (arith, same))
Released-miss p b bs after (inr (s, owned)) = inr (
  s,
  elim (Bool-cases b.is_free) [
    | inl f ↦ rw f owned
    | inr u ↦ rw u (Perm.trans (Perm.cons _ owned) (Perm.swap (p, s) _ (used after)))
  ],
)

mark_free-Released :
    (a : ℕ) (bs after : List Block) → mark_free a bs ≡ some after → Released (a + header) bs after
unfolding mark_free
mark_free-Released a [] after e = absurd (cc)
mark_free-Released a (b ∷ bs) after e = elim (Bool-cases (b.addr == a)) [
  | inl hit ↦
      let here : record b { is_free = true } ∷ bs ≡ after = ground arith in
      let same : b.addr ≡ a = ground arith in
      subst (Released (a + header) (b ∷ bs)) here (
        subst (λ x. Released (x + header) (b ∷ bs) (record b { is_free = true } ∷ bs)) same
          (Released-hit b bs))
  | inr miss ↦ elim (Option-cases (mark_free a bs)) [
    | inl stray ↦ absurd (ground arith)
    | inr (r, marked) ↦
        let here : b ∷ r ≡ after = ground arith in
        subst (Released (a + header) (b ∷ bs)) here
          (Released-miss (a + header) b bs r (mark_free-Released a bs r marked))
  ]
]

Released-same :
    (p : ℕ) (before bs after : List Block)
    → used after ≡ used bs
    → Released p before bs
    → Released p before after
Released-same p before bs after e (inl same) = inl (e ∙ same)
Released-same p before bs after e (inr (s, owned)) =
    inr (s, subst (λ l. Perm (used before) ((p, s) ∷ l)) (sym e) owned)

-- A free that returns takes at most the payload at its pointer out of use and leaves all others in
-- use, for a pointer from the header's size up to 2^64 - 1.
pub kfree-Released :
    (h h' : Heap) (p : ℕ)
    → header ≤ p
    → p < 2 ^ 64
    → kfree h p ≡ some h'
    → Released p h.memory_start h'.memory_start
kfree-Released h h' p low high e = elim (kfree-cases h h' p e) [
  | inl same ↦ inl (ground arith)
  | inr (bs, marked, after) ↦
      let same : sub64 p header + header ≡ p = omega arith in
      let mine : used h'.memory_start ≡ used bs =
        ap (λ k. used k.memory_start) after ∙ used-coalesce bs in
      subst (λ x. Released x h.memory_start h'.memory_start) same
        (Released-same (sub64 p header + header) h.memory_start bs h'.memory_start mine
          (mark_free-Released (sub64 p header) h.memory_start bs marked))
]

-- A request of more than 2^64 - 8 bytes wraps to 0 when it is rounded up: a fresh heap grants it a
-- payload of no bytes.
pub kmalloc_wraps :
    (n : ℕ)
    → 2 ^ 64 < n + 8
    → n < 2 ^ 64
    → ((kmalloc unused n).0 ≡ some (region_start + header))
      × (used (kmalloc unused n).1.memory_start ≡ (region_start + header, 0) ∷ [])
unfolding kmalloc memory_init used
kmalloc_wraps n low high = (ground (arith, wrapped, fit), ground (arith, wrapped, fit))
  where
    fit : find_fit 0 (memory_init unused).memory_start ≡ (
      some (region_start + header),
      record { addr = region_start; size = 0; is_free = false }
          ∷ record { addr = region_start + header; size = region_size - 2 * header; is_free = true }
          ∷ [],
    )
    fit = unfold find_fit place memory_init in refl

    wrapped : align8 n ≡ 0
    wrapped = unfold align8 in ground arith
