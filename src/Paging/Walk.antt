-- ===== src/Paging/Walk.antt =====
-- paging_walk of paging.c: a walk that makes tables is found again by a walk that makes none.
use curnel.Prelude.{
  ℕ, suc, ◌+◌, ◌*◌, ◌/◌, ◌%◌, ◌^◌, ◌<◌, ◌≤◌, ◌≡◌, inl, inr, refl, sym, ap, subst, ◌∙◌, Bool, true,
  false, Option, none, some, List, [], ◌∷◌, length, All, Option-cases, arith,
}
use curnel.Paging.{
  Paging, frame, present, next_table, slot_of, walk_from, paging_walk, paging_get_physical_address,
}
use curnel.Paging.Tables.{Tables, Grows, Grows-refl, Grows-trans}
use curnel.Paging.Step.{next_table-Stepped, next_table-present, some_inj}

-- The tables above the last level read the same.
abbrev pub Agrees : Paging → (ℕ → ℕ) → Paging → Type 0
Agrees s level s' =
    (q k : ℕ) → k < 512 → 2 ≤ level q → s'.memory (q * 4096 + k * 8) ≡ s.memory (q * 4096 + k * 8)

-- Two addresses have the same entry at each level.
abbrev SameSlots : List ℕ → ℕ → ℕ → Type 0
SameSlots shifts v w = All (λ sh. v / 2 ^ sh % 512 ≡ w / 2 ^ sh % 512) (12 ∷ shifts)

pub record Walked (s : Paging) (level : ℕ → ℕ) (root : ℕ) (shifts : List ℕ) (p v : ℕ) (s' : Paging)
    (e : ℕ) : Type 0 where
  pub level' : ℕ → ℕ
  pub tables : Tables s' level' root
  pub grows : Grows s level s' level'
  pub last : ℕ
  pub at : e ≡ last * 4096 + v / 2 ^ 12 % 512 * 8
  pub bottom : level' last ≡ 1
  pub again :
      (s'' : Paging) (w : ℕ)
      → Agrees s' level' s''
      → SameSlots shifts v w
      → walk_from shifts s'' (p * 4096) w false 0 ≡ (s'', some e)

pub walk_end :
    (s : Paging) (table v : ℕ) (alloc : Bool) (flags : ℕ)
    → walk_from [] s table v alloc flags ≡ (s, some (slot_of table v 12))
unfolding walk_from
walk_end s table v alloc flags = refl

-- One level of the walk.
pub walk_step :
    (shift : ℕ) (shifts : List ℕ) (s s1 : Paging) (table v t : ℕ) (alloc : Bool) (flags : ℕ)
    → next_table s (slot_of table v shift) alloc flags ≡ (s1, some t)
    → walk_from (shift ∷ shifts) s table v alloc flags ≡ walk_from shifts s1 t v alloc flags
unfolding walk_from
walk_step shift shifts s s1 table v t alloc flags e =
    ap {A = Paging × Option ℕ}
      (λ r. elim (r.1) as (λ _. Paging × Option ℕ) [
        | none ↦ (r.0, none)
        | some a ↦ walk_from shifts (r.0) a v alloc flags
      ])
      e

pub walk_stop :
    (shift : ℕ) (shifts : List ℕ) (s s1 : Paging) (table v : ℕ) (alloc : Bool) (flags : ℕ)
    → next_table s (slot_of table v shift) alloc flags ≡ (s1, none)
    → walk_from (shift ∷ shifts) s table v alloc flags ≡ (s1, none)
unfolding walk_from
walk_stop shift shifts s s1 table v alloc flags e =
    ap {A = Paging × Option ℕ}
      (λ r. elim (r.1) as (λ _. Paging × Option ℕ) [
        | none ↦ (r.0, none)
        | some a ↦ walk_from shifts (r.0) a v alloc flags
      ])
      e

pair_eta : (r : Paging × Option ℕ) (o : Option ℕ) → r.1 ≡ o → r ≡ (r.0, o)
pair_eta r o h = ap (λ x. (r.0, x)) h

-- A walk goes on through an entry that still reads as it did.
walk_again :
    (shift : ℕ) (shifts : List ℕ) (s'' : Paging) (p v w table e word : ℕ)
    → v / 2 ^ shift % 512 ≡ w / 2 ^ shift % 512
    → s''.memory (slot_of (p * 4096) v shift) ≡ word
    → present word ≡ true
    → table ≡ frame word
    → walk_from shifts s'' (table / 4096 * 4096) w false 0 ≡ (s'', some e)
    → walk_from (shift ∷ shifts) s'' (p * 4096) w false 0 ≡ (s'', some e)
walk_again shift shifts s'' p v w table e word slots read on named rest =
    let read' : s''.memory (slot_of (p * 4096) w shift) ≡ word =
      ap (λ x. s''.memory (p * 4096 + x * 8)) (sym slots) ∙ read in
    let found : next_table s'' (slot_of (p * 4096) w shift) false 0 ≡ (s'', some table) =
      next_table-present s'' (slot_of (p * 4096) w shift) 0 false (ap present read' ∙ on)
      ∙ ap {B = Paging × Option ℕ} (λ x. (s'', some x)) (ap frame read' ∙ sym named) in
    let page : table ≡ table / 4096 * 4096 = omega (arith, named) in
    walk_step shift shifts s'' s'' (p * 4096) w table false 0 found
    ∙ ap (λ x. walk_from shifts s'' x w false 0) page
    ∙ rest

pub walk_from-Walked :
    (shifts : List ℕ) (s : Paging) (level : ℕ → ℕ) (root p v flags : ℕ) (s' : Paging) (e : ℕ)
    → Tables s level root
    → level p ≡ suc (length shifts)
    → flags < 4096
    → walk_from shifts s (p * 4096) v true flags ≡ (s', some e)
    → Walked s level root shifts p v s' e
walk_from-Walked [] s level root p v flags s' e t here small h =
    let (same, found) = some_inj (sym (walk_end s (p * 4096) v true flags) ∙ h) in
    subst (λ x. Walked s level root [] p v x e) same
      (subst (λ x. Walked s level root [] p v s x) found
        (record {
          level' = level;
          tables = t;
          grows = Grows-refl s level;
          last = p;
          at = refl;
          bottom = here;
          again = λ s'' w agree slots.
              walk_end s'' (p * 4096) w false 0
              ∙ ap {B = Paging × Option ℕ} (λ x. (s'', some (p * 4096 + x * 8))) (sym slots.0);
        }))
walk_from-Walked (shift ∷ shifts) s level root p v flags s' e t here small h =
    let slot = slot_of (p * 4096) v shift in
    let n = next_table s slot true flags in
    elim (Option-cases (n.1)) [
      | inl stop ↦
          absurd
            (cc (walk_stop shift shifts s (n.0) (p * 4096) v true flags (pair_eta n none stop), h))
      | inr (table, go) ↦
          let step =
            next_table-Stepped s level root p (v / 2 ^ shift % 512) (length shifts) flags (n.0)
              table t (omega arith) here small (pair_eta n (some table) go) in
          let page : table ≡ table / 4096 * 4096 = omega (arith, step.named) in
          let rest =
            walk_from-Walked shifts (n.0) step.level' root (table / 4096) v flags s' e step.tables
              step.depth small
              (ap (λ x. walk_from shifts (n.0) x v true flags) (sym page)
                ∙ sym (
                    walk_step shift shifts s (n.0) (p * 4096) v table true flags
                      (pair_eta n (some table) go))
                ∙ h) in
          let deep : step.level' p ≡ suc (suc (length shifts)) =
            step.grows.levels p (λ z. absurd (omega (arith, sym here ∙ z))) ∙ here in
          record {
            level' = rest.level';
            tables = rest.tables;
            grows = Grows-trans step.grows rest.grows;
            last = rest.last;
            at = rest.at;
            bottom = rest.bottom;
            again = λ s'' w agree slots.
                let kept : rest.level' p ≡ suc (suc (length shifts)) =
                  rest.grows.levels p (λ z. absurd (omega (arith, sym deep ∙ z))) ∙ deep in
                walk_again shift shifts s'' p v w table e ((n.0).memory slot) slots.1.0
                  (agree p (v / 2 ^ shift % 512) (omega arith) (omega (arith, kept))
                    ∙ rest.grows.entries p (v / 2 ^ shift % 512) (omega arith)
                        (λ z. absurd (omega (arith, sym deep ∙ z))) step.there)
                  step.there step.named (rest.again s'' w agree (slots.0, slots.1.1));
          }
    ]

-- The address that the outcome of a walk comes to.
abbrev result_of : Paging → ℕ → Option ℕ → ℕ
result_of s v none = 0
result_of s v (some e) = frame (s.memory e) + v % 4096

pub paging_get_physical_address-walk :
    (s : Paging) (v : ℕ) (o : Option ℕ)
    → paging_walk s v false 0 ≡ (s, o)
    → paging_get_physical_address s v ≡ result_of s v o
unfolding paging_get_physical_address
paging_get_physical_address-walk s v o h =
    ap {A = Paging × Option ℕ}
      (λ r. elim (r.1) as (λ _. ℕ) [ none ↦ 0 | some a ↦ frame ((r.0).memory a) + v % 4096 ]) h
    ∙ same o
  where
    same :
        (o : Option ℕ)
        → elim o as (λ _. ℕ) [ none ↦ 0 | some a ↦ frame (s.memory a) + v % 4096 ] ≡ result_of s v o
    same none = refl
    same (some a) = refl
