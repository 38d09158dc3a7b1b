-- ===== src/Usermode/Validate.antt =====
-- usermode_validate_pointer of usermode.c.
use curnel.Prelude.{
  ℕ, zero, suc, ◌+◌, ◌-◌, ◌*◌, ◌/◌, ◌%◌, ◌^◌, ◌<◌, ◌≤◌, ◌≡◌, ◌⊎◌, inl, inr, refl, sym, ap, subst,
  ◌∙◌, true, false, ◌||◌, some, Bool-cases, ltb, leb, ◌==◌, u64, sub64, arith, ==_iff,
}
use native.Mathlib.Nat.{mod-lt}
use curnel.Paging.{Paging, page_size}
use curnel.Usermode.{
  user_base, user_stack_top, page_allowed, check_pages, page_of, usermode_validate_pointer,
}

module _ (s : Paging) (access : ℕ) where
  check_end :
      (fuel page last : ℕ)
      → leb page last ≡ false
      → check_pages s access (suc fuel) page last ≡ some true
  unfolding check_pages
  check_end fuel page last past = rw (past, check_pages) refl

  check_refused :
      (fuel page last : ℕ)
      → leb page last ≡ true
      → page_allowed s page access ≡ false
      → check_pages s access (suc fuel) page last ≡ some false
  unfolding check_pages
  check_refused fuel page last low no_access = rw (low, no_access, check_pages) refl

  check_on :
      (fuel page last : ℕ)
      → leb page last ≡ true
      → page_allowed s page access ≡ true
      → check_pages s access (suc fuel) page last
        ≡ check_pages s access fuel (u64 (page + page_size)) last
  unfolding check_pages
  check_on fuel page last low ok = rw (low, ok, check_pages) refl

  -- The pages with these numbers are all allowed.
  abbrev Allowed : ℕ → ℕ → Type 0
  Allowed p q = (n : ℕ) → p ≤ n → n ≤ q → page_allowed s (n * 4096) access ≡ true

  check_pages-Allowed :
      (fuel p q : ℕ)
      → q + 1 < p + fuel
      → p ≤ q + 1
      → q < 2 ^ 52 - 1
      → ((check_pages s access fuel (p * 4096) (q * 4096) ≡ some true) × Allowed p q)
        ⊎ ((check_pages s access fuel (p * 4096) (q * 4096) ≡ some false)
            × (n : ℕ) × (p ≤ n)
            × (n ≤ q)
            × (page_allowed s (n * 4096) access ≡ false))
  check_pages-Allowed zero p q enough low word = absurd (omega arith)
  check_pages-Allowed (suc fuel) p q enough low word =
      elim (Bool-cases (leb (p * 4096) (q * 4096))) [
        | inr past ↦
            let over : q < p = ground arith in
            inl (check_end fuel (p * 4096) (q * 4096) past, λ n a b. absurd (omega arith))
        | inl more ↦
            let here : p ≤ q = ground arith in
            elim (Bool-cases (page_allowed s (p * 4096) access)) [
              | inr no_access ↦ inr (
                check_refused fuel (p * 4096) (q * 4096) more no_access,
                p,
                omega arith,
                here,
                no_access,
              )
              | inl ok ↦
                  let step : u64 (p * 4096 + page_size) ≡ (p + 1) * 4096 = omega arith in
                  let go =
                    check_on fuel (p * 4096) (q * 4096) more ok
                    ∙ ap (λ x. check_pages s access fuel x (q * 4096)) step in
                  elim (check_pages-Allowed fuel (p + 1) q (omega arith) (omega arith) word) [
                    | inl (e, all) ↦ inl (
                      go ∙ e,
                      λ n a b. elim (Bool-cases (n == p)) [
                        | inl hit ↦
                            subst (λ x. page_allowed s (x * 4096) access ≡ true)
                              (sym ((==_iff n p).0 hit)) ok
                        | inr miss ↦ all n (ground arith) b
                      ],
                    )
                    | inr (e, n, a, b, no_access) ↦ inr (go ∙ e, n, omega arith, b, no_access)
                  ]
            ]
      ]

  module _ (fuel ptr size : ℕ) where
    end_page : ℕ
    end_page = page_of (sub64 (u64 (ptr + size)) 1)

    outside :
        (ltb ptr user_base || leb user_stack_top ptr) ≡ true
        → usermode_validate_pointer s fuel ptr size access ≡ some false
    unfolding usermode_validate_pointer
    outside h = rw (h, usermode_validate_pointer) refl

    inside :
        (ltb ptr user_base || leb user_stack_top ptr) ≡ false
        → usermode_validate_pointer s fuel ptr size access
          ≡ check_pages s access fuel (page_of ptr) end_page
    unfolding usermode_validate_pointer end_page
    inside h = rw (h, usermode_validate_pointer) refl

    -- With fuel for every page, a range of at least one byte that ends before the last page of the address
    -- space is accepted just when it starts in user memory and every page of it is allowed.
    pub usermode_validate_pointer_lem :
        0 < size
        → ptr + size < 2 ^ 64 - 4096
        → size / 4096 + 2 < fuel
        → ((usermode_validate_pointer s fuel ptr size access ≡ some true)
            × (user_base ≤ ptr)
            × (ptr < user_stack_top)
            × ((k : ℕ) → page_allowed s (page_of (ptr + k % size)) access ≡ true))
          ⊎ ((usermode_validate_pointer s fuel ptr size access ≡ some false)
              × ((ptr < user_base)
                  ⊎ (user_stack_top ≤ ptr)
                  ⊎ ((k : ℕ) × (k < size) × (page_allowed s (page_of (ptr + k)) access ≡ false))))
    unfolding end_page
    usermode_validate_pointer_lem some_byte room enough =
        let p = ptr / 4096 in
        let q = (ptr + size - 1) / 4096 in
        let last : end_page ≡ q * 4096 = omega arith in
        elim (Bool-cases (ltb ptr user_base || leb user_stack_top ptr)) [
          | inl out ↦ inr (
            outside out,
            elim (Bool-cases (ltb ptr user_base)) [
              | inl below ↦ inl (ground arith)
              | inr above ↦ inr (inl (ground (arith, out, above)))
            ],
          )
          | inr on ↦
              let base : user_base ≤ ptr = ground (arith, on) in
              let top : ptr < user_stack_top = ground (arith, on) in
              let walk = inside on ∙ ap (check_pages s access fuel (p * 4096)) last in
              elim (check_pages-Allowed fuel p q (omega arith) (omega arith) (omega arith)) [
                | inl (e, all) ↦ inl (
                  walk ∙ e,
                  base,
                  top,
                  λ k.
                      let low : k % size < size = mod-lt k some_byte in
                      all ((ptr + k % size) / 4096) (omega (arith, low)) (omega (arith, low)),
                )
                | inr (e, n, from, to, no_access) ↦
                    let k = n * 4096 - ptr in
                    let page : page_of (ptr + k) ≡ n * 4096 = omega (arith, from, to) in
                    inr (
                      walk ∙ e,
                      inr (
                          inr (
                            k,
                            omega (arith, from, to),
                            ap (λ x. page_allowed s x access) page ∙ no_access,
                          )),
                    )
              ]
        ]

    -- A range of at most 2 ^ 64 - 4096 bytes that runs past the end of the address space is accepted
    -- without a look at any page, when it starts in user memory.
    pub usermode_validate_pointer_wraps :
        user_base ≤ ptr
        → ptr < user_stack_top
        → 0 < fuel
        → 2 ^ 64 < ptr + size
        → size ≤ 2 ^ 64 - 4096
        → usermode_validate_pointer s fuel ptr size access ≡ some true
    unfolding end_page
    usermode_validate_pointer_wraps low high enough wraps word =
        let on : (ltb ptr user_base || leb user_stack_top ptr) ≡ false = ground arith in
        let before : leb (page_of ptr) end_page ≡ false = ground arith in
        let turn : suc (fuel - 1) ≡ fuel = omega arith in
        inside on
        ∙ ap (λ f. check_pages s access f (page_of ptr) end_page) (sym turn)
        ∙ check_end (fuel - 1) (page_of ptr) end_page before
