-- ===== src/Pipe/Transfer.antt =====
-- What pipe_read and pipe_write move, in terms of the sequence of bytes in the pipe.
use curnel.Prelude.{
  ℕ, suc, ◌+◌, ◌-◌, ◌%◌, ◌≡◌, refl, sym, ap, ap₂, subst, ◌∙◌, ◌<◌, ◌≤◌, true, false, List, [], ◌∷◌,
  ◌++◌, arith, length, take, drop, none, some, Option, get_or-modify_self, ltb, ◌==◌, if◌then◌else◌,
  if_both, int_word, min,
}
use curnel.Kernel.{ready, Process, Pipe, Kernel, update, Outcome, done}
use curnel.Process.{is_blocked, find_pid, unblock_process}
use curnel.Pipe.{
  no_pipe, pipe_buffer_size, has, flag_readable, flag_writable, copy_out, copy_in, read_out,
  write_in, pipe_at, update_pipe, wake, finish_read, write_round, write_loop, pipe_get_by_fd,
  pipe_read, pipe_write,
}
use curnel.Pipe.Ring.{
  slots, contents, IsRing, length-slots, take-slots, drop-slots, copy_out-bytes, copy_out-pipe,
  copy_in-pipe, length-copy_in, slots-copy_in,
}

-- Writing bytes that fit into a well-formed ring puts them behind those that it holds, and keeps
-- it well-formed.
pub write_in-contents :
    (bs : List ℕ) (p : Pipe)
    → IsRing p
    → p.data_size + length bs ≤ pipe_buffer_size
    → (contents (write_in bs p) ≡ contents p ++ bs) × IsRing (write_in bs p)
write_in-contents bs p r h =
    let e = copy_in-pipe bs p (omega (arith, r.behind)) in
    let moved : (contents (write_in bs p) ≡ contents p ++ bs) =
      ap₂ (λ x y. slots (copy_in bs p).buffer x (y + length bs)) (ap (λ q. q.read_pos) e)
        (ap (λ q. q.data_size) e)
      ∙ slots-copy_in bs p p.read_pos p.data_size r.buffered r.low h r.behind in
    (
      moved,
      record {
        buffered = length-copy_in bs p ∙ r.buffered;
        low = subst (λ x. x < pipe_buffer_size) (sym (ap (λ q. q.read_pos) e)) r.low;
        fits = subst (λ x. x + length bs ≤ pipe_buffer_size) (sym (ap (λ q. q.data_size) e)) h;
        behind = omega (
          arith,
          ap (λ q. q.read_pos) e,
          ap (λ q. q.write_pos) e,
          ap (λ q. q.data_size) e,
          r.behind,
        );
      },
    )

-- The pipe once `n` bytes are copied out of it.
abbrev copied : ℕ → Pipe → Pipe
copied n p = record ((copy_out n p).1) { data_size = (copy_out n p).1.data_size - n }

copied-contents :
    (n : ℕ) (p : Pipe)
    → IsRing p
    → n ≤ p.data_size
    → ((copy_out n p).0 ≡ take n (contents p))
      × (contents (copied n p) ≡ drop n (contents p))
      × IsRing (copied n p)
copied-contents n p r h =
    let e = copy_out-pipe n p r.low in
    let shape : copied n p
        ≡ record p { read_pos = (p.read_pos + n) % pipe_buffer_size; data_size = p.data_size - n } =
      ap {A = Pipe} (λ q. record q { data_size = q.data_size - n }) e in
    (
      copy_out-bytes n p ∙ sym (take-slots p.buffer p.read_pos n p.data_size h),
      ap contents shape ∙ sym (drop-slots p.buffer p.read_pos n p.data_size r.low h),
      subst IsRing (sym shape) (record {
        buffered = r.buffered;
        low = omega arith;
        fits = omega (arith, r.fits);
        behind = omega (arith, r.behind, r.low, r.fits);
      }),
    )

-- Reading from a well-formed ring gives its first bytes, as many as it holds up to `count`, leaves
-- the rest, and keeps it well-formed.
pub read_out-contents :
    (count : ℕ) (p : Pipe)
    → IsRing p
    → ((read_out count p).0 ≡ take (min count p.data_size) (contents p))
      × (contents (read_out count p).1 ≡ drop (min count p.data_size) (contents p))
      × IsRing (read_out count p).1
read_out-contents count p r =
    let n = if ltb count p.data_size then count else p.data_size in
    let least : min count p.data_size ≡ n = ground arith in
    subst
      (λ m.
        ((copy_out n p).0 ≡ take m (contents p))
        × (contents (copied n p) ≡ drop m (contents p))
        × IsRing (copied n p))
      (sym least) (copied-contents n p r (ground arith))

changed-pipes :
    (k : Kernel) (f : Process → Process) (i : ℕ) (o : Option ℕ)
    → pipe_at (elim o as (λ _. Kernel) [ none ↦ k | some j ↦ update k j f ]) i ≡ pipe_at k i
changed-pipes k f i none = refl
changed-pipes k f i (some j) = refl

-- Waking a process changes no pipe.
wake-pipes : (k : Kernel) (pid i : ℕ) → pipe_at (wake k pid) i ≡ pipe_at k i
unfolding unblock_process
wake-pipes k pid i =
    if_both (λ k'. pipe_at k' i ≡ pipe_at k i) (pid == 0) k (unblock_process k pid) refl
      (changed-pipes k (λ p. record p { state = if is_blocked p.state then ready else p.state }) i
        (find_pid pid k.processes))

pub take-length : (xs : List ℕ) → take (length xs) xs ≡ xs
take-length [] = refl
take-length (x ∷ xs) = ap (λ ys. x ∷ ys) (take-length xs)

drop-length : (xs : List ℕ) → drop (length xs) xs ≡ []
drop-length [] = refl
drop-length (x ∷ xs) = drop-length xs

-- The kernel after a turn that writes all of `xs`.
abbrev written : Kernel → ℕ → List ℕ → Kernel
written k i xs = let k' = update_pipe k i (write_in xs) in wake k' (pipe_at k' i).reader_pid

write_round-fits :
    (k : Kernel) (i : ℕ) (xs : List ℕ)
    → (pipe_at k i).data_size + length xs ≤ pipe_buffer_size
    → write_round k i xs ≡ (written k i xs, [])
unfolding write_round
write_round-fits k i xs h =
    let space = pipe_buffer_size - (pipe_at k i).data_size in
    let whole : (if ltb (length xs) space then length xs else space) ≡ length xs = ground arith in
    subst (λ m. ◌≡◌ {A = Kernel × List ℕ} (written k i (take m xs), drop m xs) (written k i xs, []))
      (sym whole) (ap₂ (λ ys zs. (written k i ys, zs)) (take-length xs) (drop-length xs))

written-pipe :
    (k : Kernel) (i : ℕ) (xs : List ℕ)
    → i < length k.pipes
    → pipe_at (written k i xs) i ≡ write_in xs (pipe_at k i)
written-pipe k i xs low =
    let k' = update_pipe k i (write_in xs) in
    wake-pipes k' (pipe_at k' i).reader_pid i
    ∙ get_or-modify_self k.pipes i (write_in xs) no_pipe low

module _ (call_handler : ℕ → ℕ → Kernel → Kernel) (n : ℕ) where
  -- For a writable descriptor of a pipe with both ends open and a well-formed ring, a non-empty
  -- list of bytes that fits is written in one turn, whatever the flags: `pipe_write` returns the
  -- number of bytes and the pipe holds them behind what it held.
  pub pipe_write-fits :
      (f : ℕ) (k : Kernel) (fd i b : ℕ) (bs : List ℕ)
      → pipe_get_by_fd k fd ≡ some i
      → i < length k.pipes
      → IsRing (pipe_at k i)
      → (pipe_at k i).writer_open ≡ true
      → (pipe_at k i).reader_open ≡ true
      → has fd flag_writable ≡ true
      → (pipe_at k i).data_size + length (b ∷ bs) ≤ pipe_buffer_size
      → (k' : Kernel) × (pipe_write call_handler n (suc f) k fd (b ∷ bs)
          ≡ done (k', length (b ∷ bs)))
        × (contents (pipe_at k' i) ≡ contents (pipe_at k i) ++ (b ∷ bs))
        × IsRing (pipe_at k' i)
  unfolding pipe_write write_loop
  pipe_write-fits f k fd i b bs found low ring writes reads writable fits =
      let at = written-pipe k i (b ∷ bs) low in
      let moved = write_in-contents (b ∷ bs) (pipe_at k i) ring fits in
      let open_slot : ((pipe_at k i).data_size == pipe_buffer_size) ≡ false = ground arith in
      (
        written k i (b ∷ bs),
        rw
            (
              found,
              writes,
              writable,
              reads,
              open_slot,
              write_round-fits k i (b ∷ bs) fits,
              pipe_write,
              write_loop,
            )
            (ap {A = ℕ} {B = Outcome (Kernel × ℕ)} (λ x. done (written k i (b ∷ bs), x))
              {y = suc (length bs)} (ground (arith, fits))),
        ap contents at ∙ moved.0,
        subst IsRing (sym at) moved.1,
      )

  -- For a readable descriptor of a pipe with its reading end open, a well-formed ring and data in
  -- it, `pipe_read` gives the first `count` bytes or all there are, returns their number, and
  -- leaves the others in the pipe.
  pub pipe_read-data :
      (f : ℕ) (k : Kernel) (fd i count : ℕ)
      → pipe_get_by_fd k fd ≡ some i
      → i < length k.pipes
      → IsRing (pipe_at k i)
      → (pipe_at k i).reader_open ≡ true
      → has fd flag_readable ≡ true
      → 0 < (pipe_at k i).data_size
      → let m = min count (pipe_at k i).data_size in
        (k' : Kernel) × (pipe_read call_handler n f k fd count
          ≡ done (k', take m (contents (pipe_at k i)), m))
        × (contents (pipe_at k' i) ≡ drop m (contents (pipe_at k i)))
        × IsRing (pipe_at k' i)
  unfolding pipe_read finish_read
  pipe_read-data f k fd i count found low ring reads readable some_data =
      let out = read_out-contents count (pipe_at k i) ring in
      let r = read_out count (pipe_at k i) in
      let k' = update_pipe k i (λ _. r.1) in
      let at : pipe_at (wake k' (r.1).writer_pid) i ≡ r.1 =
        wake-pipes k' (r.1).writer_pid i ∙ get_or-modify_self k.pipes i (λ _. r.1) no_pipe low in
      let p = pipe_at k i in
      let m = min count p.data_size in
      let bound : m ≤ p.data_size = ground arith in
      let len : length (r.0) ≡ m =
        ap length (out.0 ∙ take-slots p.buffer p.read_pos m p.data_size bound)
        ∙ length-slots p.buffer p.read_pos m in
      let small : int_word m ≡ m = ground (arith, ring.fits) in
      let waiting : ((pipe_at k i).data_size == 0) ≡ false = ground arith in
      (
        wake k' (r.1).writer_pid,
        rw (found, reads, readable, waiting, pipe_read, finish_read)
            (ap₂ {C = Outcome (Kernel × List ℕ × ℕ)}
              (λ ys x. done (wake k' (r.1).writer_pid, ys, x)) out.0 (ap int_word len ∙ small)),
        ap contents at ∙ out.1,
        subst IsRing (sym at) out.2,
      )
