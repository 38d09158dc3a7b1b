-- ===== src/Pipe.antt =====
-- pipe.c: the 64 pipes, each with a ring of 4096 bytes. A pointer to a pipe is its index, a caller's
-- buffer is the list of its bytes, and an `int` result is the 64-bit word that it extends to.
pub mod Ring
pub mod Transfer
pub mod Lookup
pub mod Fifo
mod Tests
use Prim.Native.Nat.{bit_and, bit_or}
use curnel.Prelude.{
  ℕ, zero, suc, ◌+◌, ◌-◌, ◌*◌, ◌/◌, ◌%◌, ◌^◌, min, Bool, true, false, not, ◌&&◌, ◌||◌, Option, none,
  some, List, [], ◌∷◌, length, get_or, set, take, drop, replicate, modify, ltb, ◌==◌, if◌then◌else◌,
  u64, int_word, and_not,
}
use curnel.Kernel.{Pipe, Kernel, entry, Outcome, done, no_fuel, stray, ◌>>=◌}
use curnel.Process.{get_current_process, block_process, unblock_process}
use curnel.Scheduler.{schedule}

abbrev pub max_pipes : ℕ
max_pipes = 64

abbrev pub pipe_buffer_size : ℕ
pipe_buffer_size = 4096

abbrev pub flag_readable : ℕ
flag_readable = 1

abbrev pub flag_writable : ℕ
flag_writable = 2

abbrev flag_nonblock : ℕ
flag_nonblock = 4

abbrev pub error_full : ℕ
error_full = 2 ^ 64 - 1

abbrev error_empty : ℕ
error_empty = 2 ^ 64 - 2

abbrev error_closed : ℕ
error_closed = 2 ^ 64 - 3

-- Is one of the bits of `mask` set?
abbrev pub has : ℕ → ℕ → Bool
has a mask = not (bit_and a mask == 0)

-- A pipe after `memset(pipes, 0, sizeof(pipes))`
abbrev pub no_pipe : Pipe
no_pipe = record {
  id = 0;
  buffer = replicate pipe_buffer_size 0;
  read_pos = 0;
  write_pos = 0;
  data_size = 0;
  flags = 0;
  reader_pid = 0;
  writer_pid = 0;
  reader_open = false;
  writer_open = false;
}

abbrev pub pipe_at : Kernel → ℕ → Pipe
pipe_at k i = get_or k.pipes i no_pipe

abbrev pub update_pipe : Kernel → ℕ → (Pipe → Pipe) → Kernel
update_pipe k i f = record k { pipes = modify k.pipes i f }

unfoldable pub pipe_init : Kernel → Kernel × ℕ
pipe_init k = (record k { pipes = replicate max_pipes no_pipe }, 0)

-- The index of the first pipe with this id.
pub find_pipe : ℕ → List Pipe → Option ℕ
find_pipe id [] = none
find_pipe id (p ∷ ps) =
    let rest = find_pipe id ps in
    if p.id == id then some 0 else elim rest [ none ↦ none | some i ↦ some (suc i) ]

pub pipe_get_by_fd : Kernel → ℕ → Option ℕ
pipe_get_by_fd k fd = find_pipe (fd / 8) k.pipes

-- The pipe that `pipe_create` sets up in a free entry, for a current process `owner` if there is one.
abbrev pub open_pipe : ℕ → Option ℕ → Pipe → Pipe
open_pipe new_id owner p = record p {
  id = new_id;
  read_pos = 0;
  write_pos = 0;
  data_size = 0;
  flags = 0;
  reader_open = true;
  writer_open = true;
  reader_pid = elim owner [ none ↦ p.reader_pid | some pid ↦ pid ];
  writer_pid = elim owner [ none ↦ p.writer_pid | some pid ↦ pid ];
}

abbrev pub owner_pid : Kernel → Option ℕ
owner_pid k = elim (get_current_process k) [ none ↦ none | some c ↦ some (entry k c).pid ]

-- The result comes with `*read_fd` and `*write_fd` where they are written.
pub pipe_create : Kernel → Kernel × Option (ℕ × ℕ) × ℕ
pipe_create k = elim (find_pipe 0 k.pipes) [
  | none ↦ (k, none, error_full)
  | some i ↦ (
    record (update_pipe k i (open_pipe k.next_pipe_id (owner_pid k))) {
      next_pipe_id = u64 (k.next_pipe_id + 1);
    },
    some (
      bit_or (u64 (k.next_pipe_id * 8)) flag_readable,
      bit_or (u64 (k.next_pipe_id * 8)) flag_writable,
    ),
    0,
  )
]

-- The changes of `pipe_close`
abbrev close_ends : ℕ → Pipe → Pipe
close_ends fd p =
    let reads = if has fd flag_readable then false else p.reader_open in
    let writes = if has fd flag_writable then false else p.writer_open in
    record p { reader_open = reads; writer_open = writes; id = if reads || writes then p.id else 0 }

pub pipe_close : Kernel → ℕ → Kernel × ℕ
pipe_close k fd = elim (pipe_get_by_fd k fd) [
  | none ↦ (k, error_closed)
  | some i ↦ (update_pipe k i (close_ends fd), 0)
]

-- The copy loop of `pipe_read`, for `n` bytes.
pub copy_out : ℕ → Pipe → List ℕ × Pipe
copy_out zero p = ([], p)
copy_out (suc n) p =
    let rest = copy_out n (record p { read_pos = (p.read_pos + 1) % pipe_buffer_size }) in
    (get_or p.buffer p.read_pos 0 ∷ rest.0, rest.1)

-- The copy loop of `pipe_write`.
pub copy_in : List ℕ → Pipe → Pipe
copy_in [] p = p
copy_in (b ∷ bs) p = copy_in bs (record p {
  buffer = set p.buffer p.write_pos b;
  write_pos = (p.write_pos + 1) % pipe_buffer_size;
})

-- What `pipe_read` does once there is data, and `pipe_write` once there is space.
abbrev pub read_out : ℕ → Pipe → List ℕ × Pipe
read_out count p =
    let n = if ltb count p.data_size then count else p.data_size in
    let r = copy_out n p in (r.0, record (r.1) { data_size = r.1.data_size - n })

abbrev pub write_in : List ℕ → Pipe → Pipe
write_in bs p = let q = copy_in bs p in record q { data_size = q.data_size + length bs }

-- `if (pid != 0) unblock_process(pid);`
abbrev pub wake : Kernel → ℕ → Kernel
wake k pid = if pid == 0 then k else unblock_process k pid

pub finish_read : Kernel → ℕ → ℕ → Kernel × List ℕ × ℕ
finish_read k i count =
    let r = read_out count (pipe_at k i) in
    let k = update_pipe k i (λ _. r.1) in (wake k (r.1).writer_pid, r.0, int_word (length (r.0)))

-- One round of the loop of `pipe_write` once the pipe is not full: the bytes that fit are copied
-- and the reader is woken.
pub write_round : Kernel → ℕ → List ℕ → Kernel × List ℕ
write_round k i bs =
    let space = pipe_buffer_size - (pipe_at k i).data_size in
    let n = if ltb (length bs) space then length bs else space in
    let k = update_pipe k i (write_in (take n bs)) in (wake k (pipe_at k i).reader_pid, drop n bs)

-- Calls of `block_process(current->pid); schedule();`, where `current` may be null.
module _ (call_handler : ℕ → ℕ → Kernel → Kernel) (n : ℕ) where
  block_current : Kernel → Option ℕ → Outcome Kernel
  block_current k none = stray
  block_current k (some c) = schedule call_handler n (block_process k (entry k c).pid)

  -- The loop of `pipe_read` that waits for data.
  wait_for_data : ℕ → Kernel → ℕ → Option ℕ → Outcome Kernel
  wait_for_data zero k i current = no_fuel
  wait_for_data (suc f) k i current =
      elim ((pipe_at k i).data_size == 0 && (pipe_at k i).writer_open) [
        | true ↦ block_current k current >>= λ k'. wait_for_data f k' i current
        | false ↦ done k
      ]

  pub pipe_read : ℕ → Kernel → ℕ → ℕ → Outcome (Kernel × List ℕ × ℕ)
  pipe_read f k fd count = elim (pipe_get_by_fd k fd) [
    | none ↦ done (k, [], error_closed)
    | some i ↦
        if not (pipe_at k i).reader_open || not (has fd flag_readable)
        then done (k, [], error_closed)
        else if not ((pipe_at k i).data_size == 0)
        then done (finish_read k i count)
        else if has (pipe_at k i).flags flag_nonblock
        then done (k, [], error_empty)
        else if not (pipe_at k i).writer_open
        then done (k, [], 0)
        else (wait_for_data f k i (get_current_process k) >>= λ k'.
            if (pipe_at k' i).data_size == 0
            then done (k', [], 0)
            else done (finish_read k' i count))
  ]

  -- The loop of `pipe_write`, with the bytes still to write and the number written.
  pub write_loop : ℕ → Kernel → ℕ → List ℕ → ℕ → Outcome (Kernel × ℕ)
  write_loop f k i [] written = done (k, int_word written)
  write_loop zero k i (b ∷ bs) written = no_fuel
  write_loop (suc f) k i (b ∷ bs) written = elim ((pipe_at k i).data_size == pipe_buffer_size) [
    | false ↦
        let r = write_round k i (b ∷ bs) in
        write_loop f (r.0) i (r.1) (written + (suc (length bs) - length (r.1)))
    | true ↦ elim (has (pipe_at k i).flags flag_nonblock) [
      | true ↦ done (k, if written == 0 then error_full else int_word written)
      | false ↦ block_current k (get_current_process k) >>= λ k'.
          elim ((pipe_at k' i).reader_open) [
            | false ↦ done (k', error_closed)
            | true ↦
                let r = write_round k' i (b ∷ bs) in
                write_loop f (r.0) i (r.1) (written + (suc (length bs) - length (r.1)))
          ]
    ]
  ]

  pub pipe_write : ℕ → Kernel → ℕ → List ℕ → Outcome (Kernel × ℕ)
  pipe_write f k fd bs = elim (pipe_get_by_fd k fd) [
    | none ↦ done (k, error_closed)
    | some i ↦
        if not (pipe_at k i).writer_open || not (has fd flag_writable)
        then done (k, error_closed)
        else if not (pipe_at k i).reader_open
        then done (k, error_closed)
        else write_loop f k i bs 0
  ]

pipe_set_flags : Kernel → ℕ → ℕ → Kernel × ℕ
pipe_set_flags k fd flags = elim (pipe_get_by_fd k fd) [
  | none ↦ (k, error_closed)
  | some i ↦ (
    update_pipe k i
        (λ p. record p { flags = and_not p.flags flag_nonblock + bit_and flags flag_nonblock }),
    0,
  )
]
