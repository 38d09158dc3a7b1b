-- ===== src/Pipe/Fifo.antt =====
-- The copy loops of pipe_write and pipe_read one after the other.
use curnel.Prelude.{
  ℕ, ◌+◌, ◌≡◌, ◌≤◌, sym, ap, subst, ◌∙◌, List, ◌++◌, length, take, min, arith, ltb, if◌then◌else◌,
}
use curnel.Kernel.{Pipe}
use curnel.Pipe.{pipe_buffer_size, read_out, write_in, copy_out}
use curnel.Pipe.Ring.{contents, IsRing, length-slots, copy_in-pipe, copy_out-pipe}
use curnel.Pipe.Transfer.{read_out-contents, write_in-contents, take-length}

-- Writing bytes that fit into a well-formed ring and then reading as many bytes as it holds gives
-- what it held before, followed by the bytes written, and leaves it empty.
pub read_out-write_in :
    (bs : List ℕ) (p : Pipe)
    → IsRing p
    → p.data_size + length bs ≤ pipe_buffer_size
    → let r = read_out (p.data_size + length bs) (write_in bs p) in
      (r.0 ≡ contents p ++ bs) × ((r.1).data_size ≡ 0)
read_out-write_in bs p ring fits =
    let n = p.data_size + length bs in
    let q = write_in bs p in
    let (moved, still) = write_in-contents bs p ring fits in
    let out = read_out-contents n q still in
    let size : q.data_size ≡ n =
      ap (λ c. c.data_size + length bs) (copy_in-pipe bs p (omega (arith, ring.behind))) in
    let all : min n q.data_size ≡ length (contents q) =
      omega (arith, size, length-slots q.buffer q.read_pos q.data_size) in
    let m = if ltb n q.data_size then n else q.data_size in
    let whole : m ≡ q.data_size = ground (arith, size) in
    let kept : ((copy_out m q).1).data_size ≡ q.data_size =
      ap (λ c. c.data_size) (copy_out-pipe m q still.low) in
    (
      out.0
          ∙ subst (λ m. take m (contents q) ≡ contents q) (sym all) (take-length (contents q))
          ∙ moved,
      omega (arith, kept, whole),
    )
