-- ===== src/Keyboard/Ring.antt =====
-- The keyboard's ring as a queue: keyboard_buffer_put and keyboard_buffer_get of keyboard.c.
use curnel.Prelude.{
  ℕ, zero, suc, ◌+◌, ◌-◌, ◌%◌, ◌≡◌, refl, sym, ap, ap₂, ◌∙◌, ◌<◌, true, false, List, [], ◌∷◌, ◌++◌,
  arith, length, get_or, set, get_or-set_self, get_or-set_ne, length-set, ◌==◌, if◌then◌else◌,
  Bool-cases, inl, inr,
}
use curnel.Keyboard.{
  Keyboard, keyboard_buffer_put, keyboard_buffer_get, keyboard_buffer_full, keyboard_buffer_empty,
}

-- The `n` characters of the ring from `pos` on.
pub characters : List ℕ → ℕ → ℕ → List ℕ
characters buf pos zero = []
characters buf pos (suc n) = get_or buf pos 0 ∷ characters buf ((pos + 1) % 256) n

-- The number of characters that wait, and these in the order typed.
abbrev pub waiting : Keyboard → ℕ
waiting s = (s.buffer_end + 256 - s.buffer_start) % 256

abbrev pub typed : Keyboard → List ℕ
typed s = characters s.buffer s.buffer_start (waiting s)

pub record IsRing (s : Keyboard) : Type 0 where
  pub full : length s.buffer ≡ 256
  pub starts : s.buffer_start < 256
  pub ends : s.buffer_end < 256

characters-set :
    (buf : List ℕ) (w pos n c : ℕ)
    → length buf ≡ 256
    → pos < 256
    → n < 256
    → w ≡ (pos + n) % 256
    → characters (set buf w c) pos (suc n) ≡ characters buf pos n ++ (c ∷ [])
unfolding characters
characters-set buf w pos zero c full low h e =
    let here : w ≡ pos = omega arith in
    ap (λ x. x ∷ [])
      (ap (λ x. get_or (set buf w c) x 0) (sym here) ∙ get_or-set_self buf w c 0 (omega arith))
characters-set buf w pos (suc n) c full low h e =
    ap₂ (λ x xs. x ∷ xs) (get_or-set_ne buf w pos c 0 (λ q. absurd (omega arith)))
      (characters-set buf w ((pos + 1) % 256) n c full (omega arith) (omega arith) (omega arith))

-- In a well-formed ring, a character put comes last, and a full ring drops it; the ring stays
-- well-formed.
pub put-typed :
    (s : Keyboard) (c : ℕ)
    → IsRing s
    → (typed (keyboard_buffer_put c s)
        ≡ (if waiting s == 255 then typed s else typed s ++ (c ∷ [])))
      × IsRing (keyboard_buffer_put c s)
unfolding keyboard_buffer_put
put-typed s c r = elim (Bool-cases (keyboard_buffer_full s)) [
  | inl e ↦
      let known : (waiting s == 255) ≡ true = ground (arith, r.starts, r.ends) in
      rw (e, known) (refl, r)
  | inr e ↦
      let known : (waiting s == 255) ≡ false = ground (arith, r.starts, r.ends) in
      rw (e, known)
        (
          ap (characters (set s.buffer s.buffer_end c) s.buffer_start)
                (ground (arith, r.starts, r.ends))
              ∙ characters-set s.buffer s.buffer_end s.buffer_start (waiting s) c r.full r.starts
                  (omega arith) (omega (arith, r.starts, r.ends)),
          record {
            full = length-set s.buffer s.buffer_end c ∙ r.full;
            starts = r.starts;
            ends = omega arith;
          },
        )
]

-- In a well-formed ring, the character taken is the first one typed and the others remain, in
-- order; an empty ring gives 0 and is unchanged; the ring stays well-formed.
get-typed :
    (s : Keyboard)
    → IsRing s
    → (if keyboard_buffer_empty s
        then keyboard_buffer_get s ≡ (s, 0)
        else typed s ≡ (keyboard_buffer_get s).1 ∷ typed (keyboard_buffer_get s).0)
      × IsRing (keyboard_buffer_get s).0
unfolding keyboard_buffer_get characters
get-typed s r = elim (Bool-cases (keyboard_buffer_empty s)) [
  | inl e ↦ rw (e) (refl, r)
  | inr e ↦ rw (e) (
    ap (characters s.buffer s.buffer_start)
        {y = suc ((s.buffer_end + 256 - (s.buffer_start + 1) % 256) % 256)}
        (ground (arith, r.starts, r.ends)),
    record { full = r.full; starts = omega arith; ends = r.ends },
  )
]
