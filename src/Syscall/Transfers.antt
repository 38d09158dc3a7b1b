-- ===== src/Syscall/Transfers.antt =====
-- The system calls of syscall.c that move bytes between user memory and pipes, the terminal, the
-- keyboard and the file system. What other processes do to memory while a call waits is not followed.
-- `no_fuel` stands for a check or a loop that has used up its fuel.
use curnel.Prelude.{
  ℕ, zero, suc, ◌+◌, ◌^◌, Bool, true, false, not, ◌&&◌, ◌||◌, Option, none, some, List, [], ◌∷◌,
  ◌++◌, ltb, ◌==◌, if◌then◌else◌, u64, int_word, minus_one,
}
use curnel.Memory.{kmalloc, kfree}
use curnel.Kernel.{Kernel, Outcome, done, no_fuel, stray, ◌>>=◌}
use curnel.Pipe.{pipe_get_by_fd, pipe_create, pipe_close, pipe_read, pipe_write}
use curnel.Keyboard.{Keyboard, keyboard_read}
use curnel.Paging.{Paging}
use curnel.Usermode.{
  usermode_validate_pointer, usermode_copy_from_user, usermode_copy_to_user, load_bytes,
  store_bytes,
}
use curnel.Terminal.{Output, writes}
use curnel.Syscall.UserSignals.{bytes_of}

-- The kernel, the bytes at all addresses, and what stands behind the other descriptors.
pub record Machine (F : Type 0) : Type 0 where
  pub kernel : Kernel
  pub memory : ℕ → ℕ
  pub keyboard : Keyboard
  pub files : F
  pub output : List Output

abbrev pub Result : Type 0 → Type 0
Result F = Outcome (Machine F × ℕ)

-- A check that gives its answer, or runs out of fuel.
abbrev pub checked : {A : Type 0} → Option Bool → Outcome A → Outcome A → Outcome A
checked none accepted refused = no_fuel
checked (some true) accepted refused = accepted
checked (some false) accepted refused = refused

-- `kmalloc(size)`; the call returns -1 for NULL.
abbrev allocated : {F : Type 0} → Machine F → Option ℕ → (ℕ → Result F) → Result F
allocated m none next = done (m, minus_one)
allocated m (some kbuf) next = next kbuf

-- Is this `int` result above zero?
abbrev is_positive : ℕ → Bool
is_positive r = not (r == 0) && ltb r (2 ^ 63)

-- The bytes that `usermode_copy_from_user` brings, or its refusal.
abbrev copied_in :
    {A : Type 0} → Option (Option (List ℕ)) → Outcome A → (List ℕ → Outcome A) → Outcome A
copied_in none refused next = no_fuel
copied_in (some none) refused next = refused
copied_in (some (some bs)) refused next = next bs

-- The memory after `usermode_copy_to_user`, or its refusal.
abbrev copied_out :
    {A : Type 0} → Option ((ℕ → ℕ) × Bool) → Outcome A → ((ℕ → ℕ) → Outcome A) → Outcome A
copied_out none refused next = no_fuel
copied_out (some (memory, false)) refused next = refused
copied_out (some (memory, true)) refused next = next memory

-- `strlen` of a string in user memory, which nothing has checked, within `left` bytes.
user_strlen : ℕ → (ℕ → ℕ) → ℕ → Option ℕ
user_strlen zero memory str = none
user_strlen (suc left) memory str = elim (memory str == 0) [
  | true ↦ some 0
  | false ↦ elim (user_strlen left memory (u64 (str + 1))) [ none ↦ none | some n ↦ some (n + 1) ]
]

module _ {F : Type 0} where
  with_buffer : Machine F → ℕ → (Machine F → ℕ → Result F) → Result F
  with_buffer m size next =
      let a = kmalloc m.kernel.heap size in
      let m = record m { kernel = record m.kernel { heap = a.1 } } in allocated m (a.0) (next m)

  -- `kfree(kbuf); return result;`
  pub release : Machine F → ℕ → ℕ → Result F
  release m kbuf result = elim (kfree m.kernel.heap kbuf) as (λ _. Result F) [
    | none ↦ stray
    | some h ↦ done (record m { kernel = record m.kernel { heap = h } }, result)
  ]

  module _ (paging : Paging) (call_handler : ℕ → ℕ → Kernel → Kernel)
      (interrupt : Keyboard → Keyboard) (f : ℕ) where
    -- What `sys_read` does once the pipe has been read.
    finish_sys_read : Machine F → ℕ → ℕ → List ℕ → ℕ → Result F
    finish_sys_read m buf kbuf bytes bytes_read =
        if is_positive bytes_read
        then copied_out (usermode_copy_to_user paging m.memory f buf bytes)
            (release m kbuf minus_one)
            (λ memory. release (record m { memory = memory }) kbuf bytes_read)
        else release m kbuf bytes_read

    read_pipe : Machine F → ℕ → ℕ → ℕ → Result F
    read_pipe m fd buf count =
        checked (usermode_validate_pointer paging f buf count 2)
          (with_buffer m count (λ m kbuf. pipe_read call_handler f f m.kernel fd count >>= λ r.
            finish_sys_read (record m { kernel = r.0 }) buf kbuf (r.1) (r.2)))
          (done (m, minus_one))

    -- `keyboard_read` writes to `buf`, which nothing has checked.
    read_keyboard : Machine F → ℕ → ℕ → Result F
    read_keyboard m buf count =
        elim (keyboard_read interrupt f f m.keyboard (load_bytes m.memory buf count) count)
          as (λ _. Result F) [
            | none ↦ no_fuel
            | some (keyboard, bytes, n) ↦ done (
              record m { keyboard = keyboard; memory = store_bytes m.memory buf bytes },
              int_word n,
            )
          ]

    pub sys_read : Machine F → ℕ → ℕ → ℕ → Result F
    sys_read m fd buf count = elim (pipe_get_by_fd m.kernel fd) as (λ _. Result F) [
      | some i ↦ read_pipe m fd buf count
      | none ↦ if fd == 0 then read_keyboard m buf count else done (m, minus_one)
    ]

    -- The shared steps of both branches of `sys_write`: a checked copy of the bytes in a buffer of `size`.
    abbrev with_copy : Machine F → ℕ → ℕ → ℕ → (Machine F → ℕ → List ℕ → Result F) → Result F
    with_copy m buf count size next =
        checked (usermode_validate_pointer paging f buf count 0)
          (with_buffer m size (λ m kbuf.
            copied_in (usermode_copy_from_user paging m.memory f buf count)
              (release m kbuf minus_one) (next m kbuf)))
          (done (m, minus_one))

    write_to_pipe : Machine F → ℕ → ℕ → ℕ → Result F
    write_to_pipe m fd buf count = with_copy m buf count count (λ m kbuf bs.
        pipe_write call_handler f f m.kernel fd bs >>= λ r.
        release (record m { kernel = r.0 }) kbuf (r.1))

    write_to_terminal : Machine F → ℕ → ℕ → Result F
    write_to_terminal m buf count =
        with_copy m buf count (u64 (count + 1))
          (λ m kbuf bs. release (record m { output = m.output ++ (writes bs ∷ []) }) kbuf count)

    pub sys_write : Machine F → ℕ → ℕ → ℕ → Result F
    sys_write m fd buf count = elim (pipe_get_by_fd m.kernel fd) as (λ _. Result F) [
      | some i ↦ write_to_pipe m fd buf count
      | none ↦ if fd == 1 || fd == 2 then write_to_terminal m buf count else done (m, minus_one)
    ]

    pub sys_open : Machine F → ℕ → ℕ → Machine F × ℕ
    sys_open m pathname flags = (m, minus_one)

    pub sys_exec : Machine F → ℕ → ℕ → Machine F × ℕ
    sys_exec m path argv = (m, minus_one)

    -- Both descriptors to user memory, or both ends closed.
    give_ends : Machine F → ℕ → ℕ → ℕ → Result F
    give_ends m fds read_fd write_fd =
        let closed = λ (m : Machine F).
          let k = (pipe_close (pipe_close m.kernel read_fd).0 write_fd).0 in
          done (record m { kernel = k }, minus_one) in
        copied_out (usermode_copy_to_user paging m.memory f fds (bytes_of 8 read_fd)) (closed m)
          (λ memory.
            let m = record m { memory = memory } in
            copied_out (usermode_copy_to_user paging memory f (u64 (fds + 8)) (bytes_of 8 write_fd))
              (closed m) (λ memory. done (record m { memory = memory }, 0)))

    pub sys_pipe : Machine F → ℕ → Result F
    sys_pipe m fds =
        let r = pipe_create m.kernel in
        let m' = record m { kernel = r.0 } in
        checked (usermode_validate_pointer paging f fds 16 2)
          (elim (r.1) as (λ _. Result F) [
            | none ↦ done (m', minus_one)
            | some (read_fd, write_fd) ↦ give_ends m' fds read_fd write_fd
          ])
          (done (m, minus_one))

    -- What `sys_mkdir` and `sys_rmdir` share; `fs_mkdir` and `fs_unlink` are declared in filesystem.h
    -- and defined nowhere, so the call is a parameter.
    path_call : (F → List ℕ → F × ℕ) → Machine F → ℕ → Result F
    path_call fs_call m pathname = elim (user_strlen f m.memory pathname) as (λ _. Result F) [
      | none ↦ no_fuel
      | some n ↦ with_copy m pathname (n + 1) (n + 1) (λ m kpath bs.
          release (record m { files = (fs_call m.files bs).0 }) kpath
            (int_word ((fs_call m.files bs).1)))
    ]

    pub sys_mkdir : (F → List ℕ → F × ℕ) → Machine F → ℕ → ℕ → Result F
    sys_mkdir fs_mkdir m pathname mode = path_call fs_mkdir m pathname

    pub sys_rmdir : (F → List ℕ → F × ℕ) → Machine F → ℕ → Result F
    sys_rmdir fs_unlink m pathname = path_call fs_unlink m pathname
