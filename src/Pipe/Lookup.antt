-- ===== src/Pipe/Lookup.antt =====
-- Which pipe a descriptor of pipe.c names.
use curnel.Prelude.{
  ℕ, suc, ◌+◌, ◌*◌, ◌/◌, ◌≡◌, ◌≢◌, ◌⊎◌, ◌<◌, ◌≤◌, true, Option, none, some, List, get_or, length,
  modify, u64,
}
use curnel.Kernel.{Pipe, Kernel}
use curnel.Pipe.{pipe_get_by_fd, pipe_create, pipe_at, no_pipe, open_pipe, owner_pid, error_full}

-- The first entry of the table with this id, if there is one.
abbrev pub IsFirst : ℕ → List Pipe → Option ℕ → Type 0
IsFirst id ps none = (j : ℕ) → j < length ps → (get_or ps j no_pipe).id ≢ id
IsFirst id ps (some i) =
    (i < length ps)
    × ((get_or ps i no_pipe).id ≡ id)
    × ((j : ℕ) → j < i → (get_or ps j no_pipe).id ≢ id)

later : Option ℕ → Option ℕ
later none = none
later (some i) = some (suc i)

-- The ids that are in use are below the next one.
pub record HasIds (k : Kernel) : Type 0 where
  pub started : 0 < k.next_pipe_id
  pub fresh : (j : ℕ) → (pipe_at k j).id < k.next_pipe_id

-- The kernel with a new pipe in entry `i`.
abbrev made : Kernel → ℕ → Kernel
made k i = record k {
  pipes = modify k.pipes i (open_pipe k.next_pipe_id (owner_pid k));
  next_pipe_id = u64 (k.next_pipe_id + 1);
}

-- What pipe_create leaves, and what the descriptor `fd` names.
abbrev pub Finds : Kernel → ℕ → Type 0
Finds k fd =
    (IsFirst 0 k.pipes none
      × (pipe_create k ≡ (k, none, error_full))
      × ((8 ≤ fd) ⊎ (pipe_get_by_fd k fd ≡ none)))
    ⊎ ((i : ℕ) × (k' : Kernel) × (read_fd : ℕ) × (write_fd : ℕ) × IsFirst 0 k.pipes (some i)
        × (pipe_create k ≡ (k', some (read_fd, write_fd), 0))
        × HasIds k'
        × ((pipe_at k' i).reader_open ≡ true)
        × ((pipe_at k' i).writer_open ≡ true)
        × ((pipe_at k' i).data_size ≡ 0)
        × (read_fd ≡ k.next_pipe_id * 8 + 1)
        × (write_fd ≡ k.next_pipe_id * 8 + 2)
        × (pipe_get_by_fd k' read_fd ≡ some i)
        × (pipe_get_by_fd k' write_fd ≡ some i)
        × (((fd / 8 ≡ k.next_pipe_id) × (pipe_get_by_fd k' fd ≡ some i))
            ⊎ (((fd < 8) × (pipe_get_by_fd k fd ≡ some i))
                ⊎ ((8 ≤ fd)
                    × (fd / 8 ≢ k.next_pipe_id)
                    × (pipe_get_by_fd k' fd ≡ pipe_get_by_fd k fd)))))
