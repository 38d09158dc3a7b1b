-- ===== src/Pipe/Tests.antt =====
-- The theorems about pipe.c at a pipe whose bytes go round the end of its ring.
use curnel.Prelude.{
  ℕ, min, ◌≡◌, refl, arith, true, some, [], ◌∷◌, ◌++◌, replicate, length-replicate, take, drop,
}
use curnel.Kernel.{Pipe, Kernel, done}
use curnel.Pipe.{
  no_pipe, pipe_at, pipe_buffer_size, pipe_read, pipe_write, read_out, write_in, find_pipe,
  pipe_get_by_fd,
}
use curnel.Pipe.Ring.{IsRing, contents}
use curnel.Pipe.Transfer.{pipe_read-data, pipe_write-fits}
use curnel.Pipe.Fifo.{read_out-write_in}
use curnel.Boot.{booted}

-- Pipe 1 holds three bytes, two of them at the end of the ring.
abbrev wrapping : Pipe
wrapping = record no_pipe {
  id = 1;
  buffer = replicate pipe_buffer_size 7;
  read_pos = 4094;
  write_pos = 1;
  data_size = 3;
  reader_open = true;
  writer_open = true;
}

abbrev one_pipe : Kernel
one_pipe = record booted { pipes = wrapping ∷ replicate 63 no_pipe }

wrapping-IsRing : IsRing wrapping
wrapping-IsRing = record {
  buffered = length-replicate {A = ℕ} 4096 7;
  low = omega arith;
  fits = omega arith;
  behind = refl;
}

found_1 : pipe_get_by_fd one_pipe 9 ≡ some 0
unfolding pipe_get_by_fd find_pipe
found_1 = refl

found_2 : pipe_get_by_fd one_pipe 10 ≡ some 0
unfolding pipe_get_by_fd find_pipe
found_2 = refl

pipe_write-fits_example :
    (k' : Kernel) × (pipe_write (λ h s k. k) 0 1 one_pipe 10 (1 ∷ 2 ∷ []) ≡ done (k', 2))
    × (contents (pipe_at k' 0) ≡ contents wrapping ++ (1 ∷ 2 ∷ []))
    × IsRing (pipe_at k' 0)
pipe_write-fits_example =
    pipe_write-fits (λ h s k. k) 0 0 one_pipe 10 0 1 (2 ∷ []) found_2 (omega arith) wrapping-IsRing
      refl refl refl (omega arith)

pipe_read-data_example :
    (k' : Kernel) × (pipe_read (λ h s k. k) 0 0 one_pipe 9 2
      ≡ done (k', take (min 2 3) (contents wrapping), min 2 3))
    × (contents (pipe_at k' 0) ≡ drop (min 2 3) (contents wrapping))
    × IsRing (pipe_at k' 0)
pipe_read-data_example =
    pipe_read-data (λ h s k. k) 0 0 one_pipe 9 0 2 found_1 (omega arith) wrapping-IsRing refl refl
      (omega arith)

abbrev next_is_2 : Kernel
next_is_2 = record one_pipe { next_pipe_id = 2 }

read_out-write_in_example :
    let r = read_out 5 (write_in (1 ∷ 2 ∷ []) wrapping) in
    (r.0 ≡ contents wrapping ++ (1 ∷ 2 ∷ [])) × ((r.1).data_size ≡ 0)
read_out-write_in_example = read_out-write_in (1 ∷ 2 ∷ []) wrapping wrapping-IsRing (omega arith)
