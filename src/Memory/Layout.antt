-- ===== src/Memory/Layout.antt =====
-- How the blocks of memory.c lie in their region.
use curnel.Prelude.{
  ℕ, ◌+◌, ◌%◌, ◌^◌, ◌≤◌, ◌<◌, ◌≡◌, true, ◌&&◌, some, List, [], ◌∷◌, arith, Bool-cases, Option-cases,
  not, ◌||◌, ◌⊎◌, ◌==◌, sub64, subst, sym, sym, subst, Option-cases, inl, inr,
}
use curnel.Memory.{
  Block, Heap, region_start, region_size, header, memory_init, align8, place, find_fit, kmalloc,
  mark_free, merge, coalesce_from, coalesce, kfree,
}

-- Headers and payloads follow one another from `a` to `e` with no gap, in multiples of 8.
abbrev pub Tiles : ℕ → ℕ → List Block → Type 0
Tiles a e [] = a ≡ e
Tiles a e (b ∷ bs) = (b.addr ≡ a) × (b.size % 8 ≡ 0) × Tiles (a + header + b.size) e bs

abbrev pub region_end : ℕ
region_end = region_start + region_size

-- A heap that was initialised is a tiling of its region.
pub record IsValid (h : Heap) : Type 0 where
  pub tiled : h.memory_initialized ≡ true → Tiles region_start region_end h.memory_start

pub Tiles-le : (a e : ℕ) (bs : List Block) → Tiles a e bs → a ≤ e
Tiles-le a e [] t = omega arith
Tiles-le a e (b ∷ bs) t = omega (arith, Tiles-le (a + header + b.size) e bs t.2)

align8_mod : (n : ℕ) → align8 n % 8 ≡ 0
unfolding align8
align8_mod n = ground arith

find_fit-Tiles :
    (n a e : ℕ) (bs : List Block)
    → n % 8 ≡ 0
    → e < 2 ^ 32
    → Tiles a e bs
    → Tiles a e (find_fit n bs).1
unfolding find_fit place
find_fit-Tiles n a e [] m b t = t
find_fit-Tiles n a e (c ∷ bs) m b t = ground (
  arith,
  Tiles-le (a + header + c.size) e bs t.2,
  find_fit-Tiles n (a + header + c.size) e bs m b t.2,
)

coalesce_from-Tiles :
    (a e : ℕ) (c : Block) (bs : List Block)
    → e < 2 ^ 32
    → Tiles a e (c ∷ bs)
    → Tiles a e (coalesce_from c bs)
unfolding coalesce_from
coalesce_from-Tiles a e c [] b t = t
coalesce_from-Tiles a e c (n ∷ bs) b (ha, hm, (na, nm, t)) =
    elim (Bool-cases (c.is_free && n.is_free)) [
      | inl both ↦
          rw (both, coalesce_from)
            (coalesce_from-Tiles a e (merge c n) bs b
              (ha, fits_mod, subst (λ s. Tiles s e bs) (sym same_end) t))
      | inr other ↦
          rw (other, coalesce_from)
            (ha, hm, coalesce_from-Tiles (a + header + c.size) e n bs b (na, nm, t))
    ]
  where
    below : a + header + c.size + header + n.size ≤ e
    below = Tiles-le (a + header + c.size + header + n.size) e bs t

    fits_mod : (merge c n).size % 8 ≡ 0
    fits_mod = omega (arith, below)

    same_end : a + header + (merge c n).size ≡ a + header + c.size + header + n.size
    same_end = omega (arith, below)

coalesce-Tiles : (a e : ℕ) (bs : List Block) → e < 2 ^ 32 → Tiles a e bs → Tiles a e (coalesce bs)
unfolding coalesce
coalesce-Tiles a e [] b t = t
coalesce-Tiles a e (c ∷ bs) b t = coalesce_from-Tiles a e c bs b t

mark_free-Tiles :
    (p a e : ℕ) (bs bs' : List Block) → mark_free p bs ≡ some bs' → Tiles a e bs → Tiles a e bs'
unfolding mark_free
mark_free-Tiles p a e [] bs' h t = cc
mark_free-Tiles p a e (b ∷ bs) [] h t = ground (arith)
mark_free-Tiles p a e (b ∷ bs) (b' ∷ bs') h t =
    ground (arith, mark_free-Tiles p (a + header + b.size) e bs bs')

-- After `memory_init` the region is tiled, also by a heap that had no chain yet.
pub init-Tiles : (h : Heap) → IsValid h → Tiles region_start region_end (memory_init h).memory_start
unfolding memory_init
init-Tiles h v = ground arith

-- Allocating from a valid heap, whatever the size asked for, keeps it valid: the blocks of the
-- chain tile the region.
pub kmalloc-IsValid : (h : Heap) (n : ℕ) → IsValid h → IsValid (kmalloc h n).1
unfolding kmalloc
kmalloc-IsValid h n v = ground (
  arith,
  init-Tiles h v,
  align8_mod n,
  find_fit-Tiles (align8 n) region_start region_end (memory_init h).memory_start,
)

-- A free that returns either had nothing to do, or has marked a block and merged the chain.
pub kfree-cases :
    (h h' : Heap) (p : ℕ)
    → kfree h p ≡ some h'
    → (h' ≡ h)
      ⊎ ((bs : List Block) × (mark_free (sub64 p header) h.memory_start ≡ some bs)
          × (h' ≡ record h { memory_start = coalesce bs }))
unfolding kfree
kfree-cases h h' p e = elim (Bool-cases (p == 0 || not h.memory_initialized)) [
  | inl idle ↦ inl (ground arith)
  | inr busy ↦ elim (Option-cases (mark_free (sub64 p header) h.memory_start)) [
    | inl stray ↦ absurd (ground arith)
    | inr (bs, marked) ↦ inr (bs, marked, ground arith)
  ]
]

-- Freeing keeps a valid heap valid, whatever pointer is passed that does not make `kfree` write
-- astray.
kfree-IsValid : (h h' : Heap) (p : ℕ) → kfree h p ≡ some h' → IsValid h → IsValid h'
kfree-IsValid h h' p e v = elim (kfree-cases h h' p e) [
  | inl same ↦ subst IsValid (sym same) v
  | inr (bs, marked, after) ↦
      let t = mark_free-Tiles (sub64 p header) region_start region_end h.memory_start bs marked in
      subst IsValid (sym after) (record {
        tiled = λ on. coalesce-Tiles region_start region_end bs (omega arith) (t (v.tiled on));
      })
]
