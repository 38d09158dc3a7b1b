-- ===== src/Pipe/Ring.antt =====
-- The ring of a pipe as the sequence of its bytes: the copy loops of pipe_read and pipe_write.
use curnel.Prelude.{
  ℕ, zero, suc, ◌+◌, ◌-◌, ◌%◌, ◌≡◌, refl, sym, ap, ap₂, ◌∙◌, ◌<◌, ◌≤◌, List, [], ◌∷◌, ◌++◌, arith,
  length, get_or, set, get_or-set_self, get_or-set_ne, length-set, take, drop,
}
use curnel.Kernel.{Pipe}
use curnel.Pipe.{pipe_buffer_size, copy_out, copy_in}

-- The `n` bytes of the ring from `pos` on.
pub slots : List ℕ → ℕ → ℕ → List ℕ
slots buf pos zero = []
slots buf pos (suc n) = get_or buf pos 0 ∷ slots buf ((pos + 1) % pipe_buffer_size) n

-- The bytes that a pipe holds, the next to be read first.
abbrev pub contents : Pipe → List ℕ
contents p = slots p.buffer p.read_pos p.data_size

pub record IsRing (p : Pipe) : Type 0 where
  pub buffered : length p.buffer ≡ pipe_buffer_size
  pub low : p.read_pos < pipe_buffer_size
  pub fits : p.data_size ≤ pipe_buffer_size
  pub behind : p.write_pos ≡ (p.read_pos + p.data_size) % pipe_buffer_size

pub length-slots : (buf : List ℕ) (pos n : ℕ) → length (slots buf pos n) ≡ n
unfolding slots
length-slots buf pos zero = refl
length-slots buf pos (suc n) = ap suc (length-slots buf ((pos + 1) % pipe_buffer_size) n)

pub take-slots : (buf : List ℕ) (pos n m : ℕ) → n ≤ m → take n (slots buf pos m) ≡ slots buf pos n
unfolding slots
take-slots buf pos zero m h = refl
take-slots buf pos (suc n) zero h = absurd (omega arith)
take-slots buf pos (suc n) (suc m) h =
    ap (λ xs. get_or buf pos 0 ∷ xs)
      (take-slots buf ((pos + 1) % pipe_buffer_size) n m (omega arith))

drop_zero : (xs : List ℕ) → drop 0 xs ≡ xs
drop_zero [] = refl
drop_zero (x ∷ xs) = refl

pub drop-slots :
    (buf : List ℕ) (pos n m : ℕ)
    → pos < pipe_buffer_size
    → n ≤ m
    → drop n (slots buf pos m) ≡ slots buf ((pos + n) % pipe_buffer_size) (m - n)
unfolding slots
drop-slots buf pos zero m low h =
    drop_zero (slots buf pos m) ∙ ap₂ (λ x y. slots buf x y) (omega arith) (omega arith)
drop-slots buf pos (suc n) zero low h = absurd (omega arith)
drop-slots buf pos (suc n) (suc m) low h =
    let i = (pos + 1) % pipe_buffer_size in
    drop-slots buf i n m (omega arith) (omega arith)
    ∙ ap₂ (λ x y. slots buf x y) (omega arith) (omega arith)

-- A byte written behind the `n` that are there.
slots-set :
    (buf : List ℕ) (w pos n b : ℕ)
    → length buf ≡ pipe_buffer_size
    → pos < pipe_buffer_size
    → n < pipe_buffer_size
    → w ≡ (pos + n) % pipe_buffer_size
    → slots (set buf w b) pos (suc n) ≡ slots buf pos n ++ (b ∷ [])
unfolding slots
slots-set buf w pos zero b full low h e =
    let here : w ≡ pos = omega arith in
    ap (λ x. x ∷ [])
      (ap (λ x. get_or (set buf w b) x 0) (sym here) ∙ get_or-set_self buf w b 0 (omega arith))
slots-set buf w pos (suc n) b full low h e =
    ap₂ (λ x xs. x ∷ xs) (get_or-set_ne buf w pos b 0 (λ q. absurd (omega arith)))
      (slots-set buf w ((pos + 1) % pipe_buffer_size) n b full (omega arith) (omega arith)
        (omega arith))

pub copy_out-bytes : (n : ℕ) (p : Pipe) → (copy_out n p).0 ≡ slots p.buffer p.read_pos n
unfolding copy_out slots
copy_out-bytes zero p = refl
copy_out-bytes (suc n) p =
    ap (λ xs. get_or p.buffer p.read_pos 0 ∷ xs)
      (copy_out-bytes n (record p { read_pos = (p.read_pos + 1) % pipe_buffer_size }))

pub copy_out-pipe :
    (n : ℕ) (p : Pipe)
    → p.read_pos < pipe_buffer_size
    → (copy_out n p).1 ≡ record p { read_pos = (p.read_pos + n) % pipe_buffer_size }
unfolding copy_out
copy_out-pipe zero p h = ap (λ x. record p { read_pos = x }) (omega arith)
copy_out-pipe (suc n) p h =
    copy_out-pipe n (record p { read_pos = (p.read_pos + 1) % pipe_buffer_size }) (omega arith)
    ∙ ap (λ x. record p { read_pos = x }) (omega arith)

-- `copy_in` changes the ring and the place to write, and nothing else.
pub copy_in-pipe :
    (bs : List ℕ) (p : Pipe)
    → p.write_pos < pipe_buffer_size
    → copy_in bs p ≡ record p {
      buffer = (copy_in bs p).buffer;
      write_pos = (p.write_pos + length bs) % pipe_buffer_size;
    }
unfolding copy_in
copy_in-pipe [] p h = ap (λ x. record p { write_pos = x }) (omega arith)
copy_in-pipe (b ∷ bs) p h =
    let p' = record p {
      buffer = set p.buffer p.write_pos b;
      write_pos = (p.write_pos + 1) % pipe_buffer_size;
    } in
    copy_in-pipe bs p' (omega arith)
    ∙ ap (λ x. record p { buffer = (copy_in bs p').buffer; write_pos = x }) (omega arith)

pub length-copy_in : (bs : List ℕ) (p : Pipe) → length (copy_in bs p).buffer ≡ length p.buffer
unfolding copy_in
length-copy_in [] p = refl
length-copy_in (b ∷ bs) p =
    length-copy_in bs (record p {
      buffer = set p.buffer p.write_pos b;
      write_pos = (p.write_pos + 1) % pipe_buffer_size;
    })
    ∙ length-set p.buffer p.write_pos b

append_nil : (xs : List ℕ) → xs ++ [] ≡ xs
append_nil [] = refl
append_nil (x ∷ xs) = ap (λ l. x ∷ l) (append_nil xs)

append_assoc : (xs ys zs : List ℕ) → (xs ++ ys) ++ zs ≡ xs ++ (ys ++ zs)
append_assoc [] ys zs = refl
append_assoc (x ∷ xs) ys zs = ap (λ l. x ∷ l) (append_assoc xs ys zs)

-- The bytes copied in stand behind the `n` that are there.
pub slots-copy_in :
    (bs : List ℕ) (p : Pipe) (pos n : ℕ)
    → length p.buffer ≡ pipe_buffer_size
    → pos < pipe_buffer_size
    → n + length bs ≤ pipe_buffer_size
    → p.write_pos ≡ (pos + n) % pipe_buffer_size
    → slots (copy_in bs p).buffer pos (n + length bs) ≡ slots p.buffer pos n ++ bs
unfolding copy_in
slots-copy_in [] p pos n full low h w =
    ap (slots p.buffer pos) (omega arith) ∙ sym (append_nil (slots p.buffer pos n))
slots-copy_in (b ∷ bs) p pos n full low h w =
    let p' = record p {
      buffer = set p.buffer p.write_pos b;
      write_pos = (p.write_pos + 1) % pipe_buffer_size;
    } in
    ap (slots (copy_in bs p').buffer pos) (omega arith)
    ∙ slots-copy_in bs p' pos (suc n) (length-set p.buffer p.write_pos b ∙ full) low (omega arith)
        (omega arith)
    ∙ ap (λ xs. xs ++ bs) (slots-set p.buffer p.write_pos pos n b full low (omega arith) w)
    ∙ append_assoc (slots p.buffer pos n) (b ∷ []) bs
