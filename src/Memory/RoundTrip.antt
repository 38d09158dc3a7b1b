-- ===== src/Memory/RoundTrip.antt =====
-- kfree of memory.c after kmalloc, and free neighbours in the chain.
use curnel.Prelude.{
  ℕ, ◌+◌, ◌^◌, ◌≤◌, ◌<◌, ◌≡◌, refl, true, false, ◌&&◌, some, List, [], ◌∷◌, arith, Bool-cases, inl,
  inr, ltb, leb, u64, sub64, subst, sym, ap, ◌∙◌,
}
use curnel.Memory.{
  Block, Heap, region_start, header, block_size, memory_init, align8, place, find_fit, kmalloc,
  mark_free, merge, coalesce_from, coalesce, kfree,
}
use curnel.Memory.Layout.{Tiles, Tiles-le, IsValid, init-Tiles, region_end, kfree-cases}

abbrev SettledFrom : Block → List Block → Type 0
SettledFrom c [] = Unit {0}
SettledFrom c (b ∷ bs) = (c.is_free && b.is_free ≡ false) × SettledFrom b bs

-- No two neighbours are both free.
abbrev Settled : List Block → Type 0
Settled [] = Unit {0}
Settled (b ∷ bs) = SettledFrom b bs

coalesce_from_id : (c : Block) (bs : List Block) → SettledFrom c bs → coalesce_from c bs ≡ c ∷ bs
unfolding coalesce_from
coalesce_from_id c [] s = refl
coalesce_from_id c (b ∷ bs) s =
    rw (s.0, coalesce_from) (ap (λ l. c ∷ l) (coalesce_from_id b bs s.1))

coalesce_from-SettledFrom :
    (c b : Block) (bs : List Block)
    → c.is_free && b.is_free ≡ false
    → SettledFrom c (coalesce_from b bs)
unfolding coalesce_from
coalesce_from-SettledFrom c b [] h = (h, tt)
coalesce_from-SettledFrom c b (n ∷ bs) h = elim (Bool-cases (b.is_free && n.is_free)) [
  | inl both ↦ rw (both, coalesce_from) (coalesce_from-SettledFrom c (merge b n) bs h)
  | inr other ↦ rw (other, coalesce_from) (h, coalesce_from-SettledFrom b n bs other)
]

coalesce_from-Settled : (c : Block) (bs : List Block) → Settled (coalesce_from c bs)
unfolding coalesce_from
coalesce_from-Settled c [] = tt
coalesce_from-Settled c (b ∷ bs) = elim (Bool-cases (c.is_free && b.is_free)) [
  | inl both ↦ rw (both, coalesce_from) (coalesce_from-Settled (merge c b) bs)
  | inr other ↦ rw (other, coalesce_from) (coalesce_from-SettledFrom c b bs other)
]

coalesce-Settled : (bs : List Block) → Settled (coalesce bs)
unfolding coalesce
coalesce-Settled [] = tt
coalesce-Settled (b ∷ bs) = coalesce_from-Settled b bs

-- A block in use keeps apart what stands before it.
coalesce_from_used :
    (c : Block) (bs : List Block) → c.is_free ≡ false → coalesce_from c bs ≡ c ∷ coalesce bs
unfolding coalesce_from coalesce
coalesce_from_used c [] u = refl
coalesce_from_used c (b ∷ bs) u =
    let apart : c.is_free && b.is_free ≡ false = ground arith in rw (apart, coalesce_from)

pub coalesce_from_apart :
    (c b : Block) (bs : List Block)
    → c.is_free && b.is_free ≡ false
    → coalesce_from c (b ∷ bs) ≡ c ∷ coalesce_from b bs
unfolding coalesce_from
coalesce_from_apart c b bs h = rw (h, coalesce_from)

pub both_free :
    (c b : Block) (bs : List Block)
    → c.is_free ≡ true
    → b.is_free ≡ true
    → coalesce_from c (b ∷ bs) ≡ coalesce_from (merge c b) bs
both_free c b bs f g =
    let both : c.is_free && b.is_free ≡ true = ground arith in
    unfold coalesce_from in rw (both, coalesce_from)

-- Marking the block that `place` took free again, and merging behind a block `c`, gives the chain
-- before.
place_undone :
    (n a e : ℕ) (c b : Block) (bs : List Block)
    → b.is_free ≡ true
    → n ≤ b.size
    → e < 2 ^ 32
    → Tiles a e (b ∷ bs)
    → SettledFrom c (b ∷ bs)
    → (marked : List Block) × (mark_free b.addr (place n b bs).1 ≡ some marked)
      × (coalesce_from c marked ≡ c ∷ b ∷ bs)
unfolding place mark_free coalesce_from
place_undone n a e c b bs f fits small t s =
    elim (Bool-cases (ltb (u64 (n + header + block_size)) b.size)) [
      | inl split ↦ (marked, ground arith, merged split)
      | inr whole ↦ (b ∷ bs, ground arith, coalesce_from_id c (b ∷ bs) s)
    ]
  where
    marked : List Block
    marked =
        record b { size = n }
        ∷ record {
          addr = u64 (b.addr + header + n);
          size = sub64 (sub64 b.size n) header;
          is_free = true;
        }
        ∷ bs

    whole_again :
        ltb (u64 (n + header + block_size)) b.size ≡ true
        → merge
            (record b { size = n })
            (record {
              addr = u64 (b.addr + header + n);
              size = sub64 (sub64 b.size n) header;
              is_free = true;
            })
          ≡ b
    whole_again split = ground (arith, Tiles-le (a + header + b.size) e bs t.2)

    merged : ltb (u64 (n + header + block_size)) b.size ≡ true → coalesce_from c marked ≡ c ∷ b ∷ bs
    merged split =
        rw (s.0, coalesce_from)
          (ap (λ l. c ∷ l)
            (both_free (record b { size = n }) _ bs (ground arith) refl
              ∙ ap (λ m. coalesce_from m bs) (whole_again split)
              ∙ coalesce_from_id b bs s.1))

place_pointer :
    (n : ℕ) (b : Block) (bs : List Block) → (place n b bs).0 ≡ some (u64 (b.addr + header))
unfolding place
place_pointer n b bs = ground arith

find_fit_low :
    (n p a e : ℕ) (bs : List Block)
    → e < 2 ^ 32
    → Tiles a e bs
    → (find_fit n bs).0 ≡ some p
    → (a + header ≤ p) × (p ≤ e)
unfolding find_fit place
find_fit_low n p a e [] small t r = absurd (cc)
find_fit_low n p a e (b ∷ bs) small t r = ground (
  arith,
  Tiles-le (a + header + b.size) e bs t.2,
  find_fit_low n p (a + header + b.size) e bs small t.2,
)

find_fit_undone :
    (n p a e : ℕ) (c : Block) (bs : List Block)
    → e < 2 ^ 32
    → Tiles a e bs
    → SettledFrom c bs
    → (find_fit n bs).0 ≡ some p
    → (marked : List Block) × (mark_free (sub64 p header) (find_fit n bs).1 ≡ some marked)
      × (coalesce_from c marked ≡ c ∷ bs)
unfolding find_fit mark_free
find_fit_undone n p a e c [] small t s r = absurd (cc)
find_fit_undone n p a e c (b ∷ bs) small t s r = elim (Bool-cases (b.is_free && leb n b.size)) [
  | inl fits ↦
      let (marked, m, back) = place_undone n a e c b bs (ground arith) (ground arith) small t s in
      (marked, rw fits (rw (here fits) m), back)
  | inr other ↦
      let (marked, m, back) =
        find_fit_undone n p (a + header + b.size) e b bs small t.2 s.1 (ground arith) in
      (
        b ∷ marked,
        ground (arith, m, find_fit_low n p (a + header + b.size) e bs small t.2),
        coalesce_from_apart c b marked s.0 ∙ ap (λ l. c ∷ l) back,
      )
]
  where
    here : b.is_free && leb n b.size ≡ true → sub64 p header ≡ b.addr
    here fits = ground (arith, place_pointer n b bs, Tiles-le (a + header + b.size) e bs t.2)

-- Stands before the chain, and never merges with it.
abbrev wall : Block
wall = record { addr = 0; size = 0; is_free = false }

SettledFrom-wall : (bs : List Block) → Settled bs → SettledFrom wall bs
SettledFrom-wall [] s = tt
SettledFrom-wall (b ∷ bs) s = (refl, s)

initialised : (h : Heap) → (memory_init h).memory_initialized ≡ true
unfolding memory_init
initialised h = ground arith

-- Freeing the payload that `kmalloc` has just given restores the heap, if the heap is valid and no two
-- neighbours of its chain were free.
pub kfree-kmalloc :
    (h h' : Heap) (n p : ℕ)
    → IsValid h
    → Settled (memory_init h).memory_start
    → kmalloc h n ≡ (some p, h')
    → kfree h' p ≡ some (memory_init h)
unfolding kmalloc kfree
kfree-kmalloc h h' n p v s r =
    let chain = (memory_init h).memory_start in
    let tiles = init-Tiles h v in
    let (marked, m, back) =
      find_fit_undone (align8 n) p region_start region_end wall chain (omega arith) tiles
        (SettledFrom-wall chain s) (ground arith) in
    ground (
      arith,
      m,
      back,
      coalesce_from_used wall marked refl,
      find_fit_low (align8 n) p region_start region_end chain,
      tiles,
      initialised h,
    )

-- A free that returns leaves no two neighbours of the chain free, if there were none before.
kfree-Settled :
    (h h' : Heap) (p : ℕ) → kfree h p ≡ some h' → Settled h.memory_start → Settled h'.memory_start
unfolding coalesce
kfree-Settled h h' p e s = elim (kfree-cases h h' p e) [
  | inl same ↦ subst (λ k. Settled k.memory_start) (sym same) s
  | inr (bs, marked, after) ↦ subst (λ k. Settled k.memory_start) (sym after) (coalesce-Settled bs)
]
