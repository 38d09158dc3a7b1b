-- ===== src/Memory/Used.antt =====
-- What kmalloc of memory.c hands out: the payloads in use, and when it returns NULL.
use mathlib.Core.List.{Perm}
use mathlib.Core.List.Perm
use curnel.Prelude.{
  ℕ, ◌+◌, ◌%◌, ◌^◌, ◌≤◌, ◌<◌, ◌≡◌, refl, true, ◌&&◌, Option, none, some, List, [], ◌∷◌, arith,
  Bool-cases, inl, inr, All, ◌==◌, if◌then◌else◌, ltb, leb, ◌↔◌, ◌∙◌, ◌⊎◌, u64, subst, sym, ap, ap₂,
}
use curnel.Memory.{
  Block, Heap, region_start, header, block_size, memory_init, align8, place, find_fit, kmalloc,
}
use curnel.Memory.Layout.{Tiles, Tiles-le, IsValid, init-Tiles, region_end}

-- The payloads in use: where each starts, and its size.
unfoldable pub used : List Block → List (ℕ × ℕ)
used [] = []
used (b ∷ bs) = let rest = used bs in if b.is_free then rest else (b.addr + header, b.size) ∷ rest

-- `p` is a payload of at least `n` bytes within `a` and `e` that was free, and nothing else changed
-- hands.
pub record Granted (n p a e : ℕ) (before after : List Block) : Type 0 where
  pub size : ℕ
  pub enough : n ≤ size
  pub aligned : p % 8 ≡ 0
  pub low : a + header ≤ p
  pub high : p + size ≤ e
  pub owned : Perm (used after) ((p, size) ∷ used before)

place-Granted :
    (n p a e : ℕ) (b : Block) (rest after : List Block)
    → b.is_free ≡ true
    → n ≤ b.size
    → a % 8 ≡ 0
    → e < 2 ^ 32
    → Tiles a e (b ∷ rest)
    → place n b rest ≡ (some p, after)
    → Granted n p a e (b ∷ rest) after
unfolding place used
place-Granted n p a e b rest after f fits m small t r =
    elim (Bool-cases (ltb (u64 (n + header + block_size)) b.size)) [
      | inl split ↦ record {
        size = n;
        enough = omega arith;
        aligned = ground (arith, end);
        low = ground (arith, end);
        high = ground (arith, end);
        owned = owned_of n (ground (arith, end));
      }
      | inr whole ↦ record {
        size = b.size;
        enough = fits;
        aligned = ground (arith, end);
        low = ground (arith, end);
        high = ground (arith, end);
        owned = owned_of b.size (ground (arith, end));
      }
    ]
  where
    end : a + header + b.size ≤ e
    end = Tiles-le (a + header + b.size) e rest t.2

    owned_of :
        (s : ℕ)
        → used (place n b rest).1 ≡ (p, s) ∷ used (b ∷ rest)
        → Perm (used after) ((p, s) ∷ used (b ∷ rest))
    owned_of s q =
        subst (Perm (used after)) (sym (ap (λ x. used (x.1)) r) ∙ q) (Perm.refl (used after))

used_cons :
    (b : Block) (p s : ℕ) (bs after : List Block)
    → Perm (used after) ((p, s) ∷ used bs)
    → Perm (used (b ∷ after)) ((p, s) ∷ used (b ∷ bs))
unfolding used
used_cons b p s bs after ih = elim (Bool-cases b.is_free) [
  | inl f ↦ rw f ih
  | inr u ↦ rw u (Perm.trans (Perm.cons _ ih) (Perm.swap (p, s) _ (used bs)))
]

-- Induction over the chain: the blocks before the one that fits keep their owners.
find_fit-Granted :
    (n p a e : ℕ) (bs after : List Block)
    → a % 8 ≡ 0
    → e < 2 ^ 32
    → Tiles a e bs
    → find_fit n bs ≡ (some p, after)
    → Granted n p a e bs after
unfolding find_fit used
find_fit-Granted n p a e [] after m small t r = absurd (ground arith)
find_fit-Granted n p a e (b ∷ bs) after m small t r =
    elim (Bool-cases (b.is_free && leb n b.size)) [
      | inl fits ↦
          place-Granted n p a e b bs after (ground arith) (ground arith) m small t (ground arith)
      | inr other ↦
          let ih =
            find_fit-Granted n p (a + header + b.size) e bs (find_fit n bs).1 (omega arith) small
              t.2 (ground arith) in
          let same : b ∷ (find_fit n bs).1 ≡ after = ground arith in
          record {
            size = ih.size;
            enough = ih.enough;
            aligned = ih.aligned;
            low = omega arith;
            high = ih.high;
            owned =
                subst (λ l. Perm (used l) ((p, ih.size) ∷ used (b ∷ bs))) same
                  (used_cons b p ih.size bs (find_fit n bs).1 ih.owned);
          }
    ]

-- The free blocks are all smaller than `n`.
abbrev pub TooSmall : ℕ → List Block → Type 0
TooSmall n = All (λ b. b.is_free ≡ true → b.size < n)

find_fit-none :
    (n : ℕ) (bs : List Block) → (find_fit n bs).0 ≡ none → TooSmall n bs × ((find_fit n bs).1 ≡ bs)
unfolding find_fit place
find_fit-none n [] r = (tt, refl)
find_fit-none n (b ∷ bs) r = ground (arith, find_fit-none n bs)

find_fit-TooSmall : (n : ℕ) (bs : List Block) → TooSmall n bs → (find_fit n bs).0 ≡ none
unfolding find_fit place
find_fit-TooSmall n [] small = refl
find_fit-TooSmall n (b ∷ bs) small = ground (arith, find_fit-TooSmall n bs small.1)

-- An allocation from a valid heap that succeeds hands out a payload of at least the rounded size that lies within
-- the region, is aligned to 8 and was in nobody's use, and leaves all payloads in use as they were.
pub kmalloc-Granted :
    (h h' : Heap) (n p : ℕ)
    → IsValid h
    → kmalloc h n ≡ (some p, h')
    → Granted (align8 n) p region_start region_end (memory_init h).memory_start h'.memory_start
unfolding kmalloc
kmalloc-Granted h h' n p v r =
    find_fit-Granted (align8 n) p region_start region_end (memory_init h).memory_start
      h'.memory_start refl (omega arith) (init-Tiles h v) (ground arith)

-- NULL comes back exactly when no byte is asked for or no free block has the rounded size, and the
-- heap is then only initialised.
kmalloc_null :
    (h : Heap) (n : ℕ)
    → (((kmalloc h n).0 ≡ none) ↔ ((n ≡ 0) ⊎ TooSmall (align8 n) (memory_init h).memory_start))
      × ((kmalloc h n ≡ (none, memory_init h))
          ↔ ((n ≡ 0) ⊎ TooSmall (align8 n) (memory_init h).memory_start))
unfolding kmalloc
kmalloc_null h n =
    let (given, needed) = null_iff in
    (null_iff, (λ e. given (ap (λ r. r.0) e), λ c. both (needed c) (unchanged (needed c))))
  where
    chain : List Block
    chain = (memory_init h).memory_start

    null_iff : ((kmalloc h n).0 ≡ none) ↔ ((n ≡ 0) ⊎ TooSmall (align8 n) chain)
    null_iff = (
      λ r. elim (Bool-cases (n == 0)) [
        | inl zero_size ↦ inl (ground arith)
        | inr some_size ↦ inr (find_fit-none (align8 n) chain (ground arith)).0
      ],
      elim [
        | inl zero_size ↦ ground arith
        | inr small ↦ ground (arith, find_fit-TooSmall (align8 n) chain small)
      ],
    )

    both : {r : Option ℕ × Heap} → r.0 ≡ none → r.1 ≡ memory_init h → r ≡ (none, memory_init h)
    both p q = ap₂ (λ x y. (x, y)) p q

    unchanged : (kmalloc h n).0 ≡ none → (kmalloc h n).1 ≡ memory_init h
    unchanged r = ground (arith, find_fit-none (align8 n) chain)
