-- ===== src/Paging/Pages.antt =====
-- The bitmap of physical pages in paging.c: pmm_alloc_page and pmm_free_page.
use curnel.Prelude.{
  ℕ, zero, suc, ◌+◌, ◌*◌, ◌/◌, ◌%◌, ◌^◌, ◌<◌, ◌≡◌, ◌≢◌, ◌⊎◌, inl, inr, refl, sym, ap, ap₂, subst,
  ◌∙◌, true, false, ◌&&◌, ◌||◌, none, some, List, length, get_or, set, get_or-set_self,
  get_or-set_ne, length-set, set-set, set-get_or, get_or-All, set-All, All, Bool-cases,
  Option-cases, ltb, leb, ◌==◌, if◌then◌else◌, u64, sub64, bit, set_bit, clear_bit, bit-set_bit,
  byte-set_bit, clear_bit-set_bit, arith, ==_iff, ==_refl,
}
use curnel.Paging.{
  Pmm, Paging, marked, mark, unmark, first_clear, take_page, release_page, clear_page,
  pmm_alloc_page, pmm_free_page, page_size,
}

abbrev pub IsBitmap : List ℕ → Type 0
IsBitmap bitmap = All (λ b. b < 256) bitmap

-- The pages before `n` are all in use.
abbrev pub Full : List ℕ → ℕ → Type 0
Full bitmap n = (j : ℕ) → j < n → marked bitmap j ≡ true

byte_at : (bitmap : List ℕ) (i : ℕ) → IsBitmap bitmap → get_or bitmap i 0 < 256
byte_at bitmap i h = get_or-All (λ b. b < 256) bitmap i 0 (omega arith) h

pub mark-IsBitmap : (bitmap : List ℕ) (i : ℕ) → IsBitmap bitmap → IsBitmap (mark bitmap i)
mark-IsBitmap bitmap i h =
    set-All (λ b. b < 256) bitmap (i / 8) (set_bit (get_or bitmap (i / 8) 0) (i % 8))
      (byte-set_bit (get_or bitmap (i / 8) 0) (i % 8) (byte_at bitmap (i / 8) h) (omega arith)).0 h

-- Marking a page of the bitmap marks this page and no other.
pub marked-mark :
    (bitmap : List ℕ) (i j : ℕ)
    → IsBitmap bitmap
    → i < length bitmap * 8
    → marked (mark bitmap i) j ≡ ((j == i) || marked bitmap j)
marked-mark bitmap i j h low =
    let byte = get_or bitmap (i / 8) 0 in
    elim (Bool-cases (j / 8 == i / 8)) [
      | inl hit ↦
          let same : j / 8 ≡ i / 8 = (==_iff (j / 8) (i / 8)).0 hit in
          let tests : (j % 8 == i % 8) ≡ (j == i) = ground arith in
          ap (λ x. bit (get_or (mark bitmap i) x 0) (j % 8)) same
          ∙ ap (λ x. bit x (j % 8))
              (get_or-set_self bitmap (i / 8) (set_bit byte (i % 8)) 0 (omega arith))
          ∙ bit-set_bit byte (i % 8) (byte_at bitmap (i / 8) h) (omega arith) (j % 8) (omega arith)
          ∙ ap₂ (λ x y. x || bit (get_or bitmap y 0) (j % 8)) tests (sym same)
      | inr miss ↦
          let apart : i / 8 ≢ j / 8 = λ e. ground arith in
          let other : (j == i) ≡ false = ground arith in
          rw (other) (
            ap (λ x. bit x (j % 8))
              (get_or-set_ne bitmap (i / 8) (j / 8) (set_bit byte (i % 8)) 0 apart))
    ]

Full-suc : (bitmap : List ℕ) (i : ℕ) → Full bitmap i → marked bitmap i ≡ true → Full bitmap (i + 1)
Full-suc bitmap i full on = λ j h. elim (Bool-cases (j == i)) [
  | inl hit ↦ subst (λ x. marked bitmap x ≡ true) (sym ((==_iff j i).0 hit)) on
  | inr miss ↦ full j (ground arith)
]

first_clear_on :
    (bitmap : List ℕ) (left i : ℕ)
    → marked bitmap i ≡ true
    → first_clear bitmap (suc left) i ≡ first_clear bitmap left (i + 1)
unfolding first_clear
first_clear_on bitmap left i on = rw (on, first_clear) refl

first_clear_off :
    (bitmap : List ℕ) (left i : ℕ)
    → marked bitmap i ≡ false
    → first_clear bitmap (suc left) i ≡ some i
unfolding first_clear
first_clear_off bitmap left i off = rw (off, first_clear) refl

first_clear-some :
    (bitmap : List ℕ) (left i found : ℕ)
    → first_clear bitmap left i ≡ some found
    → Full bitmap i
    → (marked bitmap found ≡ false) × (found < i + left) × Full bitmap found
first_clear-some bitmap zero i found e full = absurd (unfold first_clear in cc)
first_clear-some bitmap (suc left) i found e full = elim (Bool-cases (marked bitmap i)) [
  | inl on ↦
      let rest =
        first_clear-some bitmap left (i + 1) found (sym (first_clear_on bitmap left i on) ∙ e)
          (Full-suc bitmap i full on) in
      (rest.0, omega (arith, rest.1), rest.2)
  | inr off ↦
      let same : i ≡ found = cc (first_clear_off bitmap left i off, e) in
      subst (λ x. (marked bitmap x ≡ false) × (x < i + suc left) × Full bitmap x) same
        (off, omega arith, full)
]

first_clear-none :
    (bitmap : List ℕ) (left i : ℕ)
    → first_clear bitmap left i ≡ none
    → Full bitmap i
    → Full bitmap (i + left)
first_clear-none bitmap zero i e full = subst (Full bitmap) (omega arith) full
first_clear-none bitmap (suc left) i e full = elim (Bool-cases (marked bitmap i)) [
  | inl on ↦ subst (Full bitmap) (omega arith) (
      first_clear-none bitmap left (i + 1) (sym (first_clear_on bitmap left i on) ∙ e)
        (Full-suc bitmap i full on))
  | inr off ↦ absurd (cc (first_clear_off bitmap left i off, e))
]

-- The search over the whole bitmap.
search-none :
    (bitmap : List ℕ)
    → first_clear bitmap (length bitmap * 8) 0 ≡ none
    → Full bitmap (length bitmap * 8)
search-none bitmap e =
    subst (Full bitmap) (omega arith)
      (first_clear-none bitmap (length bitmap * 8) 0 e (λ j h. absurd (omega arith)))

search-some :
    (bitmap : List ℕ) (i : ℕ)
    → first_clear bitmap (length bitmap * 8) 0 ≡ some i
    → (marked bitmap i ≡ false) × (i < length bitmap * 8) × Full bitmap i
search-some bitmap i e =
    let (off, low, full) =
      first_clear-some bitmap (length bitmap * 8) 0 i e (λ j h. absurd (omega arith)) in
    (off, omega arith, full)

-- What `pmm_alloc_page` leaves when it gives the page `i`: no page before it was free, it is marked and
-- nothing else is, it reads as zeros, and the rest of memory is as it was.
pub record Taken (s s' : Paging) (i : ℕ) : Type 0 where
  pub covered : i < length s.pmm.bitmap * 8
  pub was_free : marked s.pmm.bitmap i ≡ false
  pub least : Full s.pmm.bitmap i
  pub now_marked : (j : ℕ) → marked s'.pmm.bitmap j ≡ ((j == i) || marked s.pmm.bitmap j)
  pub contents :
      (a : ℕ)
      → s'.memory a
        ≡ (if leb (i * page_size) a && ltb a (i * page_size + page_size) then 0 else s.memory a)
  pub well_formed : IsBitmap s'.pmm.bitmap
  pub same_size : length s'.pmm.bitmap ≡ length s.pmm.bitmap
  pub same_root : s'.pml4 ≡ s.pml4
  pub same_heap : s'.kernel_heap ≡ s.kernel_heap

-- With a well-formed bitmap, `pmm_alloc_page` gives NULL and changes nothing when every page is in
-- use, and otherwise takes the free page of the lowest address.
pub pmm_alloc_page_lem :
    (s : Paging)
    → IsBitmap s.pmm.bitmap
    → (Full s.pmm.bitmap (length s.pmm.bitmap * 8) × (pmm_alloc_page s ≡ (s, 0)))
      ⊎ ((i : ℕ) × ((pmm_alloc_page s).1 ≡ i * page_size) × Taken s (pmm_alloc_page s).0 i)
unfolding pmm_alloc_page
pmm_alloc_page_lem s well =
    let bitmap = s.pmm.bitmap in
    elim (Option-cases (first_clear bitmap (length bitmap * 8) 0)) [
      | inl e ↦ inl (search-none bitmap e, rw (e, pmm_alloc_page) refl)
      | inr (i, e) ↦
          let found = search-some bitmap i e in
          inr (
            i,
            rw (e, pmm_alloc_page) refl,
            rw (e, pmm_alloc_page)
                (record {
                  covered = found.1;
                  was_free = found.0;
                  least = found.2;
                  now_marked = λ j. marked-mark bitmap i j well found.1;
                  contents = λ a. refl;
                  well_formed = mark-IsBitmap bitmap i well;
                  same_size = length-set bitmap (i / 8) (set_bit (get_or bitmap (i / 8) 0) (i % 8));
                  same_root = refl;
                  same_heap = refl;
                }),
          )
    ]

unmark-mark :
    (bitmap : List ℕ) (i : ℕ)
    → IsBitmap bitmap
    → i < length bitmap * 8
    → marked bitmap i ≡ false
    → unmark (mark bitmap i) i ≡ bitmap
unmark-mark bitmap i well low off =
    let at = i / 8 in
    let byte = get_or bitmap at 0 in
    let read : get_or (mark bitmap i) at 0 ≡ set_bit byte (i % 8) =
      get_or-set_self bitmap at (set_bit byte (i % 8)) 0 (omega arith) in
    let undone : clear_bit (set_bit byte (i % 8)) (i % 8) ≡ byte =
      clear_bit-set_bit byte (i % 8) (byte_at bitmap at well) (omega arith) off in
    ap (λ x. set (mark bitmap i) at (clear_bit x (i % 8))) read
    ∙ ap (set (mark bitmap i) at) undone
    ∙ set-set bitmap at (set_bit byte (i % 8)) byte
    ∙ set-get_or bitmap at 0

pmm_free_page-marked :
    (s : Paging) (i : ℕ)
    → marked s.pmm.bitmap i ≡ true
    → pmm_free_page s (i * page_size) ≡ record s { pmm = release_page s.pmm i }
unfolding pmm_free_page
pmm_free_page-marked s i on =
    let index : i * page_size / page_size ≡ i = omega arith in
    let aligned : (i * page_size % page_size == 0) ≡ true = ground arith in
    rw (aligned, index, on, pmm_free_page) refl

counters :
    (p : Pmm) (i : ℕ)
    → p.free_memory < 2 ^ 64
    → p.used_memory < 2 ^ 64
    → unmark (mark p.bitmap i) i ≡ p.bitmap
    → release_page (take_page p i) i ≡ p
counters p i free used same =
    let f : u64 (sub64 p.free_memory page_size + page_size) ≡ p.free_memory = omega arith in
    let u : sub64 (u64 (p.used_memory + page_size)) page_size ≡ p.used_memory = omega arith in
    ap₂ (λ x y. record p { bitmap = unmark (mark p.bitmap i) i; free_memory = x; used_memory = y })
      f u
    ∙ ap (λ b. record p { bitmap = b }) same

-- Freeing the page that `pmm_alloc_page` has just given, if it gave one, restores the manager of
-- physical memory, if its bitmap is well-formed and its counters are words.
pub pmm_free_page-pmm_alloc_page :
    (s : Paging)
    → IsBitmap s.pmm.bitmap
    → s.pmm.free_memory < 2 ^ 64
    → s.pmm.used_memory < 2 ^ 64
    → (pmm_alloc_page s).1 ≢ 0
    → (pmm_free_page (pmm_alloc_page s).0 (pmm_alloc_page s).1).pmm ≡ s.pmm
unfolding pmm_alloc_page
pmm_free_page-pmm_alloc_page s well free used given =
    let bitmap = s.pmm.bitmap in
    elim (Option-cases (first_clear bitmap (length bitmap * 8) 0)) [
      | inl e ↦ absurd (given (rw (e, pmm_alloc_page) refl))
      | inr (i, e) ↦
          let found = search-some bitmap i e in
          let s' = clear_page (record s { pmm = take_page s.pmm i }) (i * page_size) in
          let on : marked (mark bitmap i) i ≡ true =
            marked-mark bitmap i i well found.1 ∙ ap (λ x. x || marked bitmap i) (==_refl i) in
          rw (e, pmm_alloc_page)
            (ap (λ x. x.pmm) (pmm_free_page-marked s' i on)
              ∙ counters s.pmm i free used (unmark-mark bitmap i well found.1 found.0))
    ]
